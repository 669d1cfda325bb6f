-- ===== src/Transfer/Pickers.antt =====
-- FileTransferPanel.tsx as a whole: the hook of useFileTransfer.ts with the two dialogs of
-- FilePickerDialog.tsx that fill in its paths.
use terminal_hub.Common.{
  ℕ, Bool, true, false, not, ◌&&◌, Option, List, [], ◌∷◌, Text, ◌==◌, if◌then◌else◌, length,
  get_elem?, text_eq, maybe,
}
use terminal_hub.Browse.Query.{Entry}
use terminal_hub.Browse.Picker.{
  Picker, opened, closed, entered, upped, refreshed, toggled, answered, is_enabled, is_no_session,
  open_changed,
}
use terminal_hub.Browse.Picker
use terminal_hub.Transfer.Panel.{
  Panel, file_chosen, upload_path_typed, upload_filename_typed, upload_path_picked,
  download_path_typed, download_filename_typed, download_path_picked, upload_pressed,
  download_pressed, upload_settled, download_settled, may_edit_upload, may_edit_download,
}
use terminal_hub.Transfer.Panel

-- `activeFlow`, and the dialog of each flow
pub data Flow : Type 0 where
  upload download : Flow

pub record Transfers : Type 0 where
  pub panel : Panel
  pub active_flow : Flow
  pub upload_picker : Picker
  pub download_picker : Picker

abbrev no_picker : Picker
no_picker = record {
  root_path = [];
  current_path = [];
  parent_path = [];
  entries = [];
  loading = false;
  error = [];
  show_hidden = false;
  is_open = false;
  sent = [];
}

abbrev pub initial : Text → Transfers
initial path = record {
  panel = Panel.initial path;
  active_flow = upload;
  upload_picker = no_picker;
  download_picker = no_picker;
}

-- What a user can do: choose a flow, use the fields of the one that is shown, open its dialog, browse
-- in a dialog, use the folder that it shows, and select the n-th row of the other one. The answers
-- that the dialogs and the panel await are events of theirs.
pub data Event : Type 0 where
  flow_chosen : Flow → Event
  in_panel : Panel.Event → Event
  browse_pressed use_pressed : Event
  select_pressed : ℕ → Event
  in_picker : Flow → Picker.Event → Event

-- The fields of a flow are there while it is shown, and requests end at any time. What a dialog
-- selects is no event of a field.
unfoldable pub is_shown : Flow → Panel.Event → Bool
is_shown upload (file_chosen file) = true
is_shown upload (upload_path_typed path) = true
is_shown upload (upload_filename_typed name) = true
is_shown upload upload_pressed = true
is_shown upload (download_path_typed path) = false
is_shown upload (download_filename_typed name) = false
is_shown upload download_pressed = false
is_shown download (file_chosen file) = false
is_shown download (upload_path_typed path) = false
is_shown download (upload_filename_typed name) = false
is_shown download upload_pressed = false
is_shown download (download_path_typed path) = true
is_shown download (download_filename_typed name) = true
is_shown download download_pressed = true
is_shown flow (upload_path_picked path) = false
is_shown flow (download_path_picked path) = false
is_shown flow (upload_settled result) = true
is_shown flow (download_settled result) = true

-- The controls of a dialog that is not open are not there.
unfoldable pub is_offered : Picker → Picker.Event → Bool
is_offered p (opened path) = false
is_offered p closed = p.is_open
is_offered p (entered path) = true
is_offered p upped = true
is_offered p refreshed = true
is_offered p (toggled next) = true
is_offered p (answered answer) = true

module _ (string_of : ℕ → Text) (session : Option Text) where
  abbrev has_session : Bool
  has_session = not (is_no_session session)

  -- the effect of a dialog on `initialPath`
  unfoldable pub path_changed : Text → Text → Picker → Picker
  unfolding open_changed
  path_changed old new p = if text_eq old new then p else open_changed session p.is_open new p

  unfoldable pub use_panel : Panel.Event → Transfers → Transfers
  unfolding Panel.handle path_changed
  use_panel e s =
      let t = Panel.handle string_of has_session e s.panel in
      record s {
        panel = t;
        upload_picker = path_changed s.panel.upload_path t.upload_path s.upload_picker;
        download_picker = path_changed s.panel.download_path t.download_path s.download_picker;
      }

  abbrev pub open_picker : Text → Picker → Picker
  open_picker path p = if p.is_open then p else Picker.handle session (opened path) p

  -- the buttons that browse on the server
  unfoldable pub press_browse : Flow → Transfers → Transfers
  unfolding may_edit_upload may_edit_download
  press_browse upload s =
      if may_edit_upload has_session s.panel
      then record s { upload_picker = open_picker s.panel.upload_path s.upload_picker }
      else s
  press_browse download s =
      if may_edit_download has_session s.panel
      then record s { download_picker = open_picker s.panel.download_path s.download_picker }
      else s

  -- "Use Current Folder" of the dialog of uploads
  unfoldable pub use_current_folder : Transfers → Transfers
  unfolding Panel.handle
  use_current_folder s =
      let p = s.upload_picker in
      if is_enabled p && not (length p.current_path == 0)
      then record s {
        panel = Panel.handle string_of has_session (upload_path_picked p.current_path) s.panel;
        upload_picker = Picker.handle session closed p;
      }
      else s

  -- "Select" of a row of the dialog of downloads, which rows of directories do not have
  unfoldable pub select_entry : Entry → Transfers → Transfers
  unfolding Panel.handle
  select_entry entry s = if entry.is_directory then s else record s {
    panel = Panel.handle string_of has_session (download_path_picked entry.path) s.panel;
    download_picker = Picker.handle session closed s.download_picker;
  }

  unfoldable pub select_row : ℕ → Transfers → Transfers
  unfolding select_entry
  select_row n s =
      if is_enabled s.download_picker
      then maybe (get_elem? s.download_picker.entries n) s (λ entry. select_entry entry s)
      else s

  abbrev pub use_picker : Picker.Event → Picker → Picker
  use_picker e p = if is_offered p e then Picker.handle session e p else p

  unfoldable pub handle : Event → Transfers → Transfers
  unfolding use_panel press_browse use_current_folder select_row is_shown is_offered
  handle (flow_chosen flow) s = record s { active_flow = flow }
  handle (in_panel e) s = if is_shown s.active_flow e then use_panel e s else s
  handle browse_pressed s = press_browse s.active_flow s
  handle use_pressed s = use_current_folder s
  handle (select_pressed n) s = select_row n s
  handle (in_picker upload e) s = record s { upload_picker = use_picker e s.upload_picker }
  handle (in_picker download e) s = record s { download_picker = use_picker e s.download_picker }

  unfoldable pub run : List Event → Transfers → Transfers
  unfolding handle
  run [] s = s
  run (e ∷ es) s = run es (handle e s)
