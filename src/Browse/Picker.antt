-- ===== src/Browse/Picker.antt =====
-- The file picker of the terminal page: frontend/src/features/terminal/useFileBrowser.ts, with
-- `browsePath` cut at its await, and FilePickerDialog.tsx, which drives it. The session is that of
-- the page, `none` where there is none.
use terminal_hub.Common.{
  Bool, true, false, not, ◌&&◌, Option, none, some, List, [], ◌∷◌, Text, codes, ◌==◌, if◌then◌else◌,
  maybe, length, trim, ◌⊎◌, inl, inr,
}
use terminal_hub.Browse.Query.{
  Entry, Listing, Query, is_blank_text, session_query, target_path, or_no_text,
}

-- `is_open` is the dialog's property; `sent` is the log of the requests, newest first.
pub record Picker : Type 0 where
  pub root_path : Text
  pub current_path : Text
  pub parent_path : Text
  pub entries : List Entry
  pub loading : Bool
  pub error : Text
  pub show_hidden : Bool
  pub is_open : Bool
  pub sent : List Query

unfoldable pub reset : Picker → Picker
reset s = record s {
  root_path = [];
  current_path = [];
  parent_path = [];
  entries = [];
  error = [];
  loading = false;
}

-- `sessionId == null || sessionId.trim() === ""`
abbrev pub is_no_session : Option Text → Bool
is_no_session session = maybe session true is_blank_text

-- `browsePath` behind its await
unfoldable pub path_browsed : Text ⊎ Listing → Picker → Picker
path_browsed (inl message) s = record s { error = message; entries = []; loading = false }
path_browsed (inr listing) s = record s {
  root_path = listing.root;
  current_path = listing.current;
  parent_path = or_no_text listing.parent;
  entries = listing.entries;
  loading = false;
}

-- `initialPath.trim() === "" ? undefined : initialPath.trim()`
abbrev pub initial_target : Text → Option Text
initial_target path = if is_blank_text path then none else some (trim path)

-- The events: the dialog is opened or closed, a directory is opened, a button is pressed, the box
-- is ticked, or a request is answered. The controls are there while the dialog is open, and
-- disabled while it loads.
pub data Event : Type 0 where
  opened : Text → Event
  closed : Event
  entered : Text → Event
  upped refreshed : Event
  toggled : Bool → Event
  answered : Text ⊎ Listing → Event

abbrev pub is_enabled : Picker → Bool
is_enabled s = s.is_open && not s.loading

module _ (session : Option Text) where
  -- `browsePath` up to its await
  unfoldable pub browse_path : Option Text → Option Bool → Picker → Picker
  unfolding session_query
  browse_path path override s =
      if is_no_session session
      then record s { error = codes "No session context available."; entries = [] }
      else record s {
        loading = true;
        error = [];
        sent =
            session_query (or_no_text session) path (maybe override s.show_hidden (λ b. b))
            ∷ s.sent;
      }

  unfoldable pub go_up : Picker → Picker
  unfolding browse_path
  go_up s = if length s.parent_path == 0 then s else browse_path (some s.parent_path) none s

  unfoldable pub refresh : Picker → Picker
  unfolding browse_path
  refresh s = browse_path (target_path s.current_path) none s

  unfoldable pub handle_toggle_hidden : Bool → Picker → Picker
  unfolding browse_path
  handle_toggle_hidden next s =
      browse_path (target_path s.current_path) (some next) (record s { show_hidden = next })

  -- The effect on `open` and `initialPath`.
  unfoldable pub open_changed : Bool → Text → Picker → Picker
  unfolding reset browse_path
  open_changed is_open path s =
      if is_open
      then browse_path (initial_target path) none (record s { is_open = true })
      else reset (record s { is_open = false })

  unfoldable pub handle : Event → Picker → Picker
  unfolding open_changed browse_path go_up refresh handle_toggle_hidden path_browsed
  handle (opened path) s = open_changed true path s
  handle closed s = open_changed false [] s
  handle (entered path) s = if is_enabled s then browse_path (some path) none s else s
  handle upped s = if is_enabled s then go_up s else s
  handle refreshed s = if is_enabled s then refresh s else s
  handle (toggled next) s = if is_enabled s then handle_toggle_hidden next s else s
  handle (answered answer) s = path_browsed answer s

  unfoldable pub run : List Event → Picker → Picker
  unfolding handle
  run [] s = s
  run (e ∷ es) s = run es (handle e s)
