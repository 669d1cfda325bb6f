-- ===== src/Transfer/Panel.antt =====
-- The hook of useFileTransfer.ts, with its two asynchronous functions cut at their awaits, and what
-- FileTransferPanel.tsx lets a user do with it. `uploads` and `downloads` are the calls that await
-- their server, with the values that they captured.
use terminal_hub.Common.{
  ℕ, Bool, true, false, not, ◌||◌, Option, none, some, List, [], ◌∷◌, ◌++◌, Text, codes, ◌==◌,
  if◌then◌else◌, length, trim, ◌⊎◌, inl, inr,
}
use terminal_hub.Uploads.State.{UploadFile}
use terminal_hub.Files.Names.{replace_backslashes, last_part}
use terminal_hub.Transfer.Request.{
  UploadPayload, build_upload_payload, UploadResult, success, canceled, error, thrown,
}

-- What is called outside: toasts, the click on the anchor of a download with its `download`, and
-- the request of a download with its parameters.
pub data Effect : Type 0 where
  toast_error toast_success : Text → Effect
  anchor_clicked : Option Text → Effect
  request_download : Text → Option Text → Effect

pub record Panel : Type 0 where
  pub selected_file : Option UploadFile
  pub upload_path : Text
  pub upload_filename : Text
  pub download_path : Text
  pub download_filename : Text
  pub uploading : Bool
  pub downloading : Bool
  pub transfer_status : Text
  pub uploads : List UploadPayload
  pub downloads : List Text
  pub log : List Effect

abbrev pub initial : Text → Panel
initial initial_upload_path = record {
  selected_file = none;
  upload_path = initial_upload_path;
  upload_filename = [];
  download_path = [];
  download_filename = [];
  uploading = false;
  downloading = false;
  transfer_status = [];
  uploads = [];
  downloads = [];
  log = [];
}

unfoldable pub handle_file_select : Option UploadFile → Panel → Panel
handle_file_select none s = record s { selected_file = none }
handle_file_select (some file) s = record s {
  selected_file = some file;
  upload_filename = file.name;
}

unfoldable pub set_error_transfer_status : Text → Panel → Panel
set_error_transfer_status message s = record s {
  transfer_status = message;
  log = toast_error message ∷ s.log;
}

abbrev pub start_upload : Text ⊎ UploadPayload → Panel → Panel
start_upload (inl message) s = set_error_transfer_status message s
start_upload (inr payload) s = record s {
  uploading = true;
  transfer_status = codes "Uploading...";
  uploads = payload ∷ s.uploads;
}

-- `uploadSelectedFile` up to its await
unfoldable pub upload_selected_file : Panel → Panel
unfolding set_error_transfer_status
upload_selected_file s =
    start_upload (build_upload_payload s.selected_file s.upload_path s.upload_filename) s

-- `String(n)` is a parameter.
module _ (string_of : ℕ → Text) where
  abbrev pub size_label : Option ℕ → Text
  size_label none = codes "success"
  size_label (some size) = string_of size ++ codes " bytes"

  -- what the result does, before the `finally`
  unfoldable pub show_upload : UploadPayload → UploadResult → Panel → Panel
  unfolding set_error_transfer_status
  show_upload payload (success size) s = record s {
    transfer_status =
        codes "Upload complete: "
        ++ payload.upload_filename
        ++ codes " ("
        ++ size_label size
        ++ codes ").";
    log = toast_success (codes "Uploaded " ++ payload.upload_filename) ∷ s.log;
  }
  show_upload payload canceled s = record s { transfer_status = codes "Upload canceled." }
  show_upload payload (error message) s = set_error_transfer_status message s
  show_upload payload thrown s =
      set_error_transfer_status (codes "Upload failed: network or server error.") s

  -- the rest of `runUpload`, with its `finally`; `rest` are the other calls
  unfoldable pub upload_ended : UploadPayload → UploadResult → List UploadPayload → Panel → Panel
  unfolding show_upload
  upload_ended payload result rest s = record (show_upload payload result s) {
    uploading = false;
    uploads = rest;
  }

  -- a call that awaits ends
  abbrev pub end_upload : UploadResult → List UploadPayload → Panel → Panel
  end_upload result [] s = s
  end_upload result (payload ∷ rest) s = upload_ended payload result rest s

abbrev pub or_none : Text → Option Text
or_none text = if length text == 0 then none else some text

-- `downloadFile` up to its await
unfoldable pub download_file : Panel → Panel
unfolding set_error_transfer_status
download_file s =
    if length (trim s.download_path) == 0
    then set_error_transfer_status (codes "Download path is required.") s
    else record s {
      downloading = true;
      transfer_status = codes "Preparing download...";
      downloads = trim s.download_filename ∷ s.downloads;
      log = request_download (trim s.download_path) (or_none (trim s.download_filename)) ∷ s.log;
    }

-- How the request of a download ends: an exception, here or while the body is read, a response that
-- is not ok with its text, or a file.
pub data Download : Type 0 where
  broken file_received : Download
  refused : Text → Download

abbrev pub status_name : Text → Text
status_name name = if length name == 0 then codes "requested file" else name

unfoldable pub show_download : Text → Download → Panel → Panel
unfolding set_error_transfer_status
show_download name broken s =
    set_error_transfer_status (codes "Download failed: network or server error.") s
show_download name (refused text) s =
    set_error_transfer_status (codes "Download failed: " ++ text) s
show_download name file_received s = record s {
  transfer_status = codes "Download started: " ++ status_name name ++ codes ".";
  log =
      toast_success (codes "Download started: " ++ status_name name)
      ∷ anchor_clicked (or_none name)
      ∷ s.log;
}

-- the rest of `runDownload`, with its `finally`
unfoldable pub download_ended : Text → Download → List Text → Panel → Panel
unfolding show_download
download_ended name result rest s = record (show_download name result s) {
  downloading = false;
  downloads = rest;
}

abbrev pub end_download : Download → List Text → Panel → Panel
end_download result [] s = s
end_download result (name ∷ rest) s = download_ended name result rest s

-- `basename` of the panel
unfoldable pub path_basename : Text → Text
unfolding replace_backslashes last_part
path_basename path = last_part [] (replace_backslashes path)

-- `onSelect` of the two dialogs
unfoldable pub select_upload_path : Text → Panel → Panel
select_upload_path path s = record s {
  upload_path = path;
  transfer_status = codes "Upload destination selected: " ++ path;
}

unfoldable pub select_download_path : Text → Panel → Panel
unfolding path_basename
select_download_path path s = record s {
  download_path = path;
  download_filename =
      if length (trim s.download_filename) == 0 then path_basename path else s.download_filename;
  transfer_status = codes "Download source selected: " ++ path;
}

-- What a user can do, where the panel has a session or not, and how the calls end. An input or a
-- button that is disabled gives no event.
pub data Event : Type 0 where
  file_chosen : Option UploadFile → Event
  upload_path_typed upload_filename_typed upload_path_picked : Text → Event
  download_path_typed download_filename_typed download_path_picked : Text → Event
  upload_pressed download_pressed : Event
  upload_settled : UploadResult → Event
  download_settled : Download → Event

abbrev pub is_some {ℓ} : {A : Type ℓ} → Option A → Bool
is_some none = false
is_some (some a) = true

-- The dialogs may be open while a transfer runs.
unfoldable pub may_edit_upload : Bool → Panel → Bool
may_edit_upload has_session s = not (s.uploading || not has_session)

unfoldable pub may_edit_download : Bool → Panel → Bool
may_edit_download has_session s = not (s.downloading || not has_session)

unfoldable pub may_upload : Bool → Panel → Bool
may_upload has_session s = not (s.uploading || not (is_some s.selected_file) || not has_session)

module _ (string_of : ℕ → Text) (has_session : Bool) where
  unfoldable pub handle : Event → Panel → Panel
  unfolding may_upload may_edit_upload may_edit_download handle_file_select upload_selected_file
      select_upload_path select_download_path download_file upload_ended download_ended
  handle (file_chosen file) s =
      if may_edit_upload has_session s then handle_file_select file s else s
  handle (upload_path_typed path) s =
      if may_edit_upload has_session s then record s { upload_path = path } else s
  handle (upload_filename_typed name) s =
      if may_edit_upload has_session s then record s { upload_filename = name } else s
  handle (upload_path_picked path) s = select_upload_path path s
  handle (download_path_typed path) s =
      if may_edit_download has_session s then record s { download_path = path } else s
  handle (download_filename_typed name) s =
      if may_edit_download has_session s then record s { download_filename = name } else s
  handle (download_path_picked path) s = select_download_path path s
  handle upload_pressed s = if may_upload has_session s then upload_selected_file s else s
  handle download_pressed s = if may_edit_download has_session s then download_file s else s
  handle (upload_settled result) s = end_upload string_of result s.uploads s
  handle (download_settled result) s = end_download result s.downloads s

  unfoldable pub run : List Event → Panel → Panel
  unfolding handle
  run [] s = s
  run (e ∷ es) s = run es (handle e s)
