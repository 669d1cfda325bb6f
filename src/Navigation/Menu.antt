-- ===== src/Navigation/Menu.antt =====
-- What can be done in Sidebar.tsx: the side bar of a wide screen, the menu of a narrow one
-- (MobileCommandMenu, in the sheet of components/ui/MobileCommandSheet.tsx), and the shortcut of
-- App.tsx.
use terminal_hub.Common.{
  ℕ, ◌≡◌, Bool, true, false, not, ◌&&◌, ◌||◌, none, some, List, [], ◌∷◌, Text, if◌then◌else◌, arith,
  ◌==◌, codes, text_eq,
}
use terminal_hub.Navigation.{
  Sidebar, WorkspaceItem, handle_navigate, handle_navigate_to, handle_delete_session,
  deletion_ended,
}

-- An entry of the list, with the answer of `confirm` where it deletes, a page, or another button;
-- what is typed into the filter.
pub data Command : Type 0 where
  open_session rename_session : Text → Command
  delete_session : Text → Bool → Command
  open_page : WorkspaceItem → Command
  new_session log_out : Command
  typed : Text → Command

abbrev pub close_menu : Sidebar → Sidebar
close_menu s = record s { mobile_menu_open = false }

-- whether the side bar has the command: a collapsed one shows neither the filter nor the buttons of
-- an entry
abbrev pub is_offered : Command → Sidebar → Bool
is_offered (open_session id) s = true
is_offered (rename_session id) s = not s.collapsed
is_offered (delete_session id confirmed) s = not s.collapsed
is_offered (open_page item) s = true
is_offered new_session s = true
is_offered log_out s = true
is_offered (typed query) s = not s.collapsed

-- the handlers of the side bar; `logout` changes nothing here
unfoldable pub press : Command → Sidebar → Sidebar
unfolding handle_navigate handle_navigate_to handle_delete_session
press (open_session id) s = handle_navigate id s
press (rename_session id) s = record s { rename_session_id = some id }
press (delete_session id confirmed) s = handle_delete_session id confirmed s
press (open_page item) s = handle_navigate_to item s
press new_session s = record s { show_create_dialog = true }
press log_out s = s
press (typed query) s = record s { search_query = query }

-- those of the menu, which is there while it is open
unfoldable pub press_in_menu : Command → Sidebar → Sidebar
unfolding handle_navigate handle_navigate_to handle_delete_session
press_in_menu (open_session id) s = close_menu (handle_navigate id s)
press_in_menu (rename_session id) s = close_menu (record s { rename_session_id = some id })
press_in_menu (delete_session id confirmed) s = handle_delete_session id confirmed s
press_in_menu (open_page item) s = close_menu (handle_navigate_to item s)
press_in_menu new_session s = close_menu (record s { show_create_dialog = true })
press_in_menu log_out s = close_menu s
press_in_menu (typed query) s = record s { search_query = query }

-- the key of the shortcut of `App`, with the two modifiers
unfoldable pub is_shortcut : Bool → Bool → Text → Bool
unfolding text_eq
is_shortcut meta_key ctrl_key key = (meta_key || ctrl_key) && text_eq key (codes "k")

pub data Event : Type 0 where
  in_sidebar in_menu : Command → Event
  menu_opened menu_dismissed collapse_toggled : Event
  key_down : Bool → Bool → Text → Event
  create_closed rename_closed : Event
  deletion_answered : ℕ → Bool → Event

unfoldable pub handle : Event → Sidebar → Sidebar
unfolding press press_in_menu is_shortcut deletion_ended
handle (in_sidebar c) s = if is_offered c s then press c s else s
handle (in_menu c) s = if s.mobile_menu_open then press_in_menu c s else s
handle menu_opened s = record s { mobile_menu_open = true }
handle menu_dismissed s = close_menu s
handle collapse_toggled s = record s { collapsed = not s.collapsed }
handle (key_down meta_key ctrl_key key) s =
    if is_shortcut meta_key ctrl_key key then record s { show_create_dialog = true } else s
handle create_closed s = record s { show_create_dialog = false }
handle rename_closed s = record s { rename_session_id = none }
handle (deletion_answered n deleted) s = deletion_ended n deleted s

unfoldable pub run : List Event → Sidebar → Sidebar
unfolding handle
run [] s = s
run (e ∷ es) s = run es (handle e s)

-- `cronLabel` of the menu, and whether the badge of the side bar is shown
unfoldable pub shows_count : ℕ → Bool
shows_count cron_count = not (cron_count == 0)

-- the commands behind which the menu stays
abbrev pub stays : Command → Bool
stays (delete_session id confirmed) = true
stays (typed query) = true
stays _ = false

-- An open menu and a side bar that is not collapsed do the same for every command, but that the menu
-- is closed by it: by all but the filter and the deletion of a session.
in_menu-in_sidebar :
    (c : Command) (s : Sidebar)
    → s.mobile_menu_open ≡ true
    → s.collapsed ≡ false
    → handle (in_menu c) s ≡ record (handle (in_sidebar c) s) { mobile_menu_open = stays c }
unfolding handle press press_in_menu handle_navigate handle_navigate_to handle_delete_session
in_menu-in_sidebar (open_session id) s h k = ground (arith, h, k)
in_menu-in_sidebar _ s h k = ground (arith, h, k)
