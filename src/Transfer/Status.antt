-- ===== src/Transfer/Status.antt =====
-- The flags of the panel of useFileTransfer.ts and its calls that await the server.
use terminal_hub.Common.{
  ◌+◌, Option-cases, ℕ, ◌≡◌, refl, Bool, true, false, none, some, List, [], ◌∷◌, Text,
  if◌then◌else◌, length, ◌⊎◌, inl, inr, arith,
}
use terminal_hub.Transfer.Request.{
  UploadPayload, build_upload_payload, UploadResult, success, canceled, error, thrown, Reply,
  run_upload_request,
}
use terminal_hub.Transfer.Rounds.{upload-ends}
use terminal_hub.Transfer.Panel.{
  Panel, Event, Download, file_chosen, upload_path_typed, upload_filename_typed, upload_path_picked,
  download_path_typed, download_filename_typed, download_path_picked, upload_pressed,
  download_pressed, upload_settled, download_settled, handle, run, initial, upload_selected_file,
  start_upload, set_error_transfer_status, show_upload, upload_ended, download_file, broken,
  file_received, refused, show_download, download_ended, handle_file_select, select_upload_path,
  select_download_path, may_upload, may_edit_upload, may_edit_download, end_upload, end_download,
}

-- a flag that is on exactly while one call awaits
abbrev IsFlag {ℓ} : {A : Type ℓ} → Bool → List A → Type 0
IsFlag flag calls = length calls ≡ (if flag then 1 else 0)

abbrev pub is_canceled : UploadResult → Bool
is_canceled (success size) = false
is_canceled canceled = true
is_canceled (error message) = false
is_canceled thrown = false

abbrev pub IsSteady : Panel → Type 0
IsSteady s = IsFlag s.uploading s.uploads × IsFlag s.downloading s.downloads

start-IsSteady :
    (p : Text ⊎ UploadPayload) (s : Panel)
    → s.uploading ≡ false
    → IsSteady s
    → IsSteady (start_upload p s)
unfolding set_error_transfer_status
start-IsSteady (inl message) s k h = h
start-IsSteady (inr payload) s k h = ground (arith, k, h)

module _ (string_of : ℕ → Text) (has_session : Bool) where
  show_upload-calls :
      (payload : UploadPayload) (result : UploadResult) (s : Panel)
      → let t = show_upload string_of payload result s in
        (t.downloading ≡ s.downloading) × (t.downloads ≡ s.downloads)
  unfolding show_upload set_error_transfer_status
  show_upload-calls payload (success size) s = (refl, refl)
  show_upload-calls payload canceled s = (refl, refl)
  show_upload-calls payload (error message) s = (refl, refl)
  show_upload-calls payload thrown s = (refl, refl)

  show_download-calls :
      (name : Text) (result : Download) (s : Panel)
      → let t = show_download name result s in (t.uploading ≡ s.uploading) × (t.uploads ≡ s.uploads)
  unfolding show_download set_error_transfer_status
  show_download-calls name broken s = (refl, refl)
  show_download-calls name (refused text) s = (refl, refl)
  show_download-calls name file_received s = (refl, refl)

  told :
      (payload : UploadPayload) (result : UploadResult) (s : Panel)
      → length (show_upload string_of payload result s).log
        ≡ (if is_canceled result then 0 else 1) + length s.log
  unfolding show_upload set_error_transfer_status
  told payload (success size) s = omega arith
  told payload canceled s = omega arith
  told payload (error message) s = omega arith
  told payload thrown s = omega arith

  end_upload-IsSteady :
      (result : UploadResult) (payloads : List UploadPayload) (s : Panel)
      → s.uploads ≡ payloads
      → IsSteady s
      → IsSteady (end_upload string_of result payloads s)
  unfolding upload_ended
  end_upload-IsSteady result [] s k h = h
  end_upload-IsSteady result (payload ∷ rest) s k h =
      ground (arith, h, k, show_upload-calls payload result s)

  end_download-IsSteady :
      (result : Download) (names : List Text) (s : Panel)
      → s.downloads ≡ names
      → IsSteady s
      → IsSteady (end_download result names s)
  unfolding download_ended
  end_download-IsSteady result [] s k h = h
  end_download-IsSteady result (name ∷ rest) s k h =
      ground (arith, h, k, show_download-calls name result s)

  handle-IsSteady :
      (e : Event) (s : Panel) → IsSteady s → IsSteady (handle string_of has_session e s)
  unfolding handle handle_file_select may_upload may_edit_upload may_edit_download
      upload_selected_file select_upload_path select_download_path download_file
      set_error_transfer_status upload_ended download_ended
  handle-IsSteady (file_chosen none) s h = ground (arith, h)
  handle-IsSteady (file_chosen (some file)) s h = ground (arith, h)
  handle-IsSteady (upload_path_typed path) s h = ground (arith, h)
  handle-IsSteady (upload_filename_typed name) s h = ground (arith, h)
  handle-IsSteady (upload_path_picked path) s h = h
  handle-IsSteady (download_path_typed path) s h = ground (arith, h)
  handle-IsSteady (download_filename_typed name) s h = ground (arith, h)
  handle-IsSteady (download_path_picked path) s h = h
  handle-IsSteady upload_pressed s h = ground (
    arith,
    h,
    start-IsSteady (build_upload_payload s.selected_file s.upload_path s.upload_filename) s,
  )
  handle-IsSteady download_pressed s h = ground (arith, h)
  handle-IsSteady (upload_settled result) s h = end_upload-IsSteady result s.uploads s refl h
  handle-IsSteady (download_settled result) s h = end_download-IsSteady result s.downloads s refl h

  run-IsSteady :
      (es : List Event) (s : Panel) → IsSteady s → IsSteady (run string_of has_session es s)
  unfolding run
  run-IsSteady [] s h = h
  run-IsSteady (e ∷ es) s h =
      run-IsSteady es (handle string_of has_session e s) (handle-IsSteady e s h)

  -- Whatever is done with the panel and however its requests end, at most one upload and one download
  -- of it run at a time, and the flags that disable its buttons are on exactly while they do.
  pub IsSteady-run :
      (path : Text) (es : List Event) → IsSteady (run string_of has_session es (initial path))
  IsSteady-run path es = run-IsSteady es (initial path) (refl, refl)

  -- An upload that the button starts, with a file, a path and a name, ends, whatever the server
  -- answers to the requests of `runUploadRequest`: the flag is off again, no call is left, and there
  -- is one more toast, or none where the user canceled.
  upload-told :
      (ask : ℕ → Reply) (confirmed : Bool) (payload : UploadPayload) (s : Panel)
      → may_upload has_session s ≡ true
      → s.uploads ≡ []
      → build_upload_payload s.selected_file s.upload_path s.upload_filename ≡ inr payload
      → (result : UploadResult) × ((run_upload_request ask confirmed).result ≡ some result)
        × (let t = run string_of has_session (upload_pressed ∷ upload_settled result ∷ []) s in
            (t.uploading ≡ false)
            × (t.uploads ≡ [])
            × (length t.log ≡ (if is_canceled result then 0 else 1) + length s.log))
  unfolding run handle upload_selected_file upload_ended
  upload-told ask confirmed payload s h k r =
      elim (Option-cases (run_upload_request ask confirmed).result) [
        | inl u ↦ ground (arith, u, upload-ends 0 ask confirmed)
        | inr (result, u) ↦
            (result, u, ground (arith, h, k, r, told payload result (start_upload (inr payload) s)))
      ]
