-- ===== src/Transfer/Given.antt =====
-- Where the paths of the requests of FileTransferPanel.tsx come from.
use terminal_hub.Common.{
  ℕ, ◌≡◌, refl, Bool, false, Option, none, some, List, [], ◌∷◌, Text, ◌==◌, ◌||◌, inl, inr, length,
  trim, All, if_elim, if_both,
}
use terminal_hub.Uploads.State.{UploadFile}
use terminal_hub.Browse.Query.{Entry, Listing}
use terminal_hub.Browse.Picker.{
  Picker, opened, closed, entered, upped, refreshed, toggled, answered, open_changed, path_browsed,
  browse_path, go_up, refresh, handle_toggle_hidden, reset,
}
use terminal_hub.Browse.Picker
use terminal_hub.Transfer.Request.{
  UploadPayload, UploadResult, success, canceled, error, thrown, build_upload_payload,
}
use terminal_hub.Transfer.Panel.{
  Panel, Effect, toast_error, toast_success, anchor_clicked, request_download, Download, broken,
  file_received, refused, file_chosen, upload_path_typed, upload_filename_typed, upload_path_picked,
  download_path_typed, download_filename_typed, download_path_picked, upload_pressed,
  download_pressed, upload_settled, download_settled, handle_file_select, may_upload,
  may_edit_upload, may_edit_download, upload_selected_file, start_upload, set_error_transfer_status,
  select_upload_path, select_download_path, download_file, show_upload, upload_ended, show_download,
  download_ended, end_upload, end_download,
}
use terminal_hub.Transfer.Panel
use terminal_hub.Transfer.Pickers.{
  Event, flow_chosen, in_panel, browse_pressed, use_pressed, select_pressed, in_picker,
}

module _ (P : Text → Type 0) where
  -- the path of an entry that is a file
  abbrev pub IsFileGiven : Entry → Type 0
  IsFileGiven entry = entry.is_directory ≡ false → P entry.path

  abbrev pub IsListingGiven : Listing → Type 0
  IsListingGiven listing = P listing.current × All IsFileGiven listing.entries

  -- a path that is typed or selected
  abbrev pub IsTypingGiven : Panel.Event → Type 0
  IsTypingGiven (upload_path_typed path) = P path
  IsTypingGiven (download_path_typed path) = P path
  IsTypingGiven (upload_path_picked path) = P path
  IsTypingGiven (download_path_picked path) = P path
  IsTypingGiven (file_chosen file) = Unit
  IsTypingGiven (upload_filename_typed name) = Unit
  IsTypingGiven (download_filename_typed name) = Unit
  IsTypingGiven upload_pressed = Unit
  IsTypingGiven download_pressed = Unit
  IsTypingGiven (upload_settled result) = Unit
  IsTypingGiven (download_settled result) = Unit

  abbrev pub IsAnswerGiven : Picker.Event → Type 0
  IsAnswerGiven (answered (inr listing)) = IsListingGiven listing
  IsAnswerGiven (answered (inl message)) = Unit
  IsAnswerGiven (opened path) = Unit
  IsAnswerGiven closed = Unit
  IsAnswerGiven (entered path) = Unit
  IsAnswerGiven upped = Unit
  IsAnswerGiven refreshed = Unit
  IsAnswerGiven (toggled next) = Unit

  -- what a user types and what the server lists
  abbrev pub IsGiven : Event → Type 0
  IsGiven (in_panel e) = IsTypingGiven e
  IsGiven (in_picker flow e) = IsAnswerGiven e
  IsGiven (flow_chosen flow) = Unit
  IsGiven browse_pressed = Unit
  IsGiven use_pressed = Unit
  IsGiven (select_pressed n) = Unit

  abbrev pub IsTrimmed : Text → Type 0
  IsTrimmed path = (t : Text) × P t × (path ≡ trim t)

  abbrev pub IsUploadGiven : UploadPayload → Type 0
  IsUploadGiven payload = IsTrimmed payload.upload_path

  abbrev pub IsRequestGiven : Effect → Type 0
  IsRequestGiven (request_download path name) = IsTrimmed path
  IsRequestGiven (toast_error message) = Unit
  IsRequestGiven (toast_success message) = Unit
  IsRequestGiven (anchor_clicked name) = Unit

  -- the paths of the uploads that run and of the downloads that were asked for
  abbrev pub HasGivenRequests : Panel → Type 0
  HasGivenRequests s = All IsUploadGiven s.uploads × All IsRequestGiven s.log

  abbrev pub HasGivenPaths : Panel → Type 0
  HasGivenPaths s =
      P s.upload_path × P s.download_path × All IsUploadGiven s.uploads × All IsRequestGiven s.log

  abbrev pub HasGivenRows : Picker → Type 0
  HasGivenRows p = P p.current_path × All IsFileGiven p.entries

  start-HasGivenPaths :
      (file : Option UploadFile) (name : Text) (s : Panel)
      → HasGivenPaths s
      → HasGivenPaths (start_upload (build_upload_payload file s.upload_path name) s)
  unfolding build_upload_payload set_error_transfer_status
  start-HasGivenPaths none name s (p, q, u, r) = (p, q, u, (tt, r))
  start-HasGivenPaths (some file) name s (p, q, u, r) =
      if_elim (λ b. HasGivenPaths (start_upload b s))
        (length (trim s.upload_path) == 0 || length (trim name) == 0) (λ _. (p, q, u, (tt, r)))
        (λ _. (p, q, ((s.upload_path, p, refl), u), r))

  module _ (string_of : ℕ → Text) (has_session : Bool) where
    show_upload-HasGivenPaths :
        (payload : UploadPayload) (result : UploadResult) (s : Panel)
        → HasGivenPaths s
        → HasGivenPaths (show_upload string_of payload result s)
    unfolding show_upload set_error_transfer_status
    show_upload-HasGivenPaths payload (success size) s (p, q, u, r) = (p, q, u, (tt, r))
    show_upload-HasGivenPaths payload canceled s h = h
    show_upload-HasGivenPaths payload (error message) s (p, q, u, r) = (p, q, u, (tt, r))
    show_upload-HasGivenPaths payload thrown s (p, q, u, r) = (p, q, u, (tt, r))

    show_download-HasGivenPaths :
        (name : Text) (result : Download) (s : Panel)
        → HasGivenPaths s
        → HasGivenPaths (show_download name result s)
    unfolding show_download set_error_transfer_status
    show_download-HasGivenPaths name broken s (p, q, u, r) = (p, q, u, (tt, r))
    show_download-HasGivenPaths name (refused text) s (p, q, u, r) = (p, q, u, (tt, r))
    show_download-HasGivenPaths name file_received s (p, q, u, r) = (p, q, u, (tt, (tt, r)))

    end_upload-HasGivenPaths :
        (result : UploadResult) (payloads : List UploadPayload) (s : Panel)
        → All IsUploadGiven payloads
        → HasGivenPaths s
        → HasGivenPaths (end_upload string_of result payloads s)
    unfolding upload_ended
    end_upload-HasGivenPaths result [] s k h = h
    end_upload-HasGivenPaths result (payload ∷ rest) s (_, k) h =
        let (p, q, _, r) = show_upload-HasGivenPaths payload result s h in (p, q, k, r)

    end_download-HasGivenPaths :
        (result : Download) (names : List Text) (s : Panel)
        → HasGivenPaths s
        → HasGivenPaths (end_download result names s)
    unfolding download_ended
    end_download-HasGivenPaths result [] s h = h
    end_download-HasGivenPaths result (name ∷ rest) s h =
        show_download-HasGivenPaths name result s h

    download-HasGivenPaths : (s : Panel) → HasGivenPaths s → HasGivenPaths (download_file s)
    unfolding download_file set_error_transfer_status
    download-HasGivenPaths s (p, q, u, r) =
        if_elim HasGivenPaths (length (trim s.download_path) == 0) (λ _. (p, q, u, (tt, r)))
          (λ _. (p, q, u, ((s.download_path, q, refl), r)))

    pub handle-HasGivenPaths :
        (e : Panel.Event) (s : Panel)
        → IsTypingGiven e
        → HasGivenPaths s
        → HasGivenPaths (Panel.handle string_of has_session e s)
    unfolding Panel.handle handle_file_select upload_selected_file select_upload_path
        select_download_path
    handle-HasGivenPaths (file_chosen none) s g h =
        if_both HasGivenPaths (may_edit_upload has_session s) h h
    handle-HasGivenPaths (file_chosen (some file)) s g h =
        if_both HasGivenPaths (may_edit_upload has_session s) h h
    handle-HasGivenPaths (upload_path_typed path) s g (p, q, u, r) =
        if_both HasGivenPaths (may_edit_upload has_session s) (g, q, u, r) (p, q, u, r)
    handle-HasGivenPaths (upload_filename_typed name) s g h =
        if_both HasGivenPaths (may_edit_upload has_session s) h h
    handle-HasGivenPaths (upload_path_picked path) s g (p, q, u, r) = (g, q, u, r)
    handle-HasGivenPaths (download_path_typed path) s g (p, q, u, r) =
        if_both HasGivenPaths (may_edit_download has_session s) (p, g, u, r) (p, q, u, r)
    handle-HasGivenPaths (download_filename_typed name) s g h =
        if_both HasGivenPaths (may_edit_download has_session s) h h
    handle-HasGivenPaths (download_path_picked path) s g (p, q, u, r) = (p, g, u, r)
    handle-HasGivenPaths upload_pressed s g h =
        if_both HasGivenPaths (may_upload has_session s)
          (start-HasGivenPaths s.selected_file s.upload_filename s h) h
    handle-HasGivenPaths download_pressed s g h =
        if_both HasGivenPaths (may_edit_download has_session s) (download-HasGivenPaths s h) h
    handle-HasGivenPaths (upload_settled result) s g (p, q, u, r) =
        end_upload-HasGivenPaths result s.uploads s u (p, q, u, r)
    handle-HasGivenPaths (download_settled result) s g h =
        end_download-HasGivenPaths result s.downloads s h
