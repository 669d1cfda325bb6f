-- ===== src/Navigation.antt =====
-- frontend/src/features/navigation/Sidebar.tsx, which is shown beside every page: its state, the
-- pages that it leads to, and `handleDeleteSession` cut at its await. `toLowerCase` is the parameter
-- `to_lower`.
pub mod Pages
pub mod Menu
use terminal_hub.Common.{
  ℕ, zero, suc, Bool, true, false, not, ◌&&◌, Option, none, some, List, [], ◌∷◌, ◌++◌, Text, codes,
  ◌==◌, if◌then◌else◌, maybe, length, select, prepend, text_eq,
}
use terminal_hub.Cron.Jobs.{starts_with, contains}
use terminal_hub.Sessions.Store.{SessionInfo}

-- `split("/")`
unfoldable pub split_path : Text → List Text
split_path [] = [] ∷ []
split_path (c ∷ s) = let rest = split_path s in if c == b'/' then [] ∷ rest else prepend c rest

-- `parts[index]`
unfoldable pub part_at : ℕ → List Text → Option Text
part_at n [] = none
part_at zero (p ∷ ps) = some p
part_at (suc n) (p ∷ ps) = part_at n ps

abbrev pub session_prefix : Text
session_prefix = codes "/session/"

unfoldable pub get_current_session_id : Text → Option Text
unfolding starts_with split_path part_at
get_current_session_id pathname =
    if not (starts_with session_prefix pathname) then none else part_at 2 (split_path pathname)

-- A deletion that awaits the server: its session, and the current one of the render that began it.
pub record Deletion : Type 0 where
  pub session_id : Text
  pub shown_id : Option Text

pub record Sidebar : Type 0 where
  pub pathname : Text
  pub show_create_dialog : Bool
  pub rename_session_id : Option Text
  pub collapsed : Bool
  pub search_query : Text
  pub mobile_menu_open : Bool
  pub deletions : List Deletion

abbrev pub initial : Text → Sidebar
initial pathname = record {
  pathname = pathname;
  show_create_dialog = false;
  rename_session_id = none;
  collapsed = false;
  search_query = [];
  mobile_menu_open = false;
  deletions = [];
}

-- `navigateWithHandler`
unfoldable pub navigate_with_handler : Text → Sidebar → Sidebar
navigate_with_handler path s = record s { pathname = path }

unfoldable pub handle_navigate : Text → Sidebar → Sidebar
unfolding navigate_with_handler
handle_navigate session_id s = navigate_with_handler (session_prefix ++ session_id) s

-- the three pages of the workspace
pub data WorkspaceItem : Type 0 where
  dashboard crons files : WorkspaceItem

abbrev pub path_of : WorkspaceItem → Text
path_of dashboard = codes "/"
path_of crons = codes "/crons"
path_of files = codes "/files"

-- `active` of the item
abbrev pub is_active : WorkspaceItem → Sidebar → Bool
is_active item s = text_eq s.pathname (path_of item)

unfoldable pub handle_navigate_to : WorkspaceItem → Sidebar → Sidebar
unfolding navigate_with_handler
handle_navigate_to item s = navigate_with_handler (path_of item) s

-- up to the await; `confirmed` is the answer of `confirm`
unfoldable pub handle_delete_session : Text → Bool → Sidebar → Sidebar
unfolding get_current_session_id
handle_delete_session session_id confirmed s =
    let deletion : Deletion = record {
      session_id = session_id;
      shown_id = get_current_session_id s.pathname;
    } in
    if not confirmed then s else record s { deletions = deletion ∷ s.deletions }

abbrev is_shown : Deletion → Bool
is_shown d = maybe d.shown_id false (λ id. text_eq d.session_id id)

-- the deletion with a number among those that await, newest first, and the others
unfoldable pub pull_deletion : ℕ → List Deletion → Option (Deletion × List Deletion)
pull_deletion n [] = none
pull_deletion zero (d ∷ ds) = some (d, ds)
pull_deletion (suc n) (d ∷ ds) = maybe (pull_deletion n ds) none (λ p. some (p.0, d ∷ p.1))

-- behind the await: whether the session was deleted
unfoldable pub deletion_ended : ℕ → Bool → Sidebar → Sidebar
unfolding pull_deletion navigate_with_handler
deletion_ended n deleted s = maybe (pull_deletion n s.deletions) s (λ p.
    let t = record s { deletions = p.1 } in
    if deleted && is_shown p.0 then navigate_with_handler (codes "/") t else t)

-- `filteredSessions`
unfoldable pub filtered_sessions : (Text → Text) → Text → List SessionInfo → List SessionInfo
unfolding contains
filtered_sessions to_lower search_query sessions =
    select (λ x. contains (to_lower search_query) (to_lower x.metadata.name)) sessions

-- the `currentName` of the dialog that renames
unfoldable pub current_name : Text → List SessionInfo → Text
current_name id [] = []
current_name id (x ∷ xs) =
    let later = current_name id xs in if text_eq x.id id then x.metadata.name else later
