-- ===== src/Navigation/Pages.antt =====
-- The pages of Sidebar.tsx.
use terminal_hub.Common.{
  ℕ, ◌≡◌, ◌≢◌, refl, true, some, [], ◌∷◌, ◌++◌, Text, codes, text_eq_refl, All, arith,
}
use terminal_hub.Cron.Jobs.{starts_with}
use terminal_hub.Navigation.{
  split_path, part_at, get_current_session_id, Sidebar, handle_navigate, navigate_with_handler,
  handle_delete_session, deletion_ended, pull_deletion, session_prefix,
}

abbrev NoSlash : ℕ → Type 0
NoSlash c = c ≢ b'/'

split_path-one : (id : Text) → All NoSlash id → split_path id ≡ id ∷ []
unfolding split_path
split_path-one [] h = refl
split_path-one (c ∷ id) h = ground (arith, h, split_path-one id h.1)

starts_with-append : (p s : Text) → starts_with p (p ++ s) ≡ true
unfolding starts_with
starts_with-append [] s = refl
starts_with-append (c ∷ p) s = ground (arith, starts_with-append p s)

-- The page that a session's entry leads to is one where that session is the current one, where its
-- identifier has no slash.
current-handle_navigate :
    (id : Text) (s : Sidebar)
    → All NoSlash id
    → get_current_session_id (handle_navigate id s).pathname ≡ some id
unfolding get_current_session_id handle_navigate split_path part_at starts_with
current-handle_navigate id s h =
    ground (arith, split_path-one id h, starts_with-append session_prefix id)

-- A deletion that was begun on the page of its session sends the user to the dashboard once the server
-- agrees, also where another session's page is shown by then.
late_deletion :
    (deleted other : Text) (s : Sidebar)
    → All NoSlash deleted
    → let asked = handle_delete_session deleted true (handle_navigate deleted s) in
      let moved = handle_navigate other asked in
      (moved.pathname ≡ session_prefix ++ other)
      × ((deletion_ended 0 true moved).pathname ≡ codes "/")
unfolding handle_delete_session deletion_ended pull_deletion handle_navigate navigate_with_handler
late_deletion deleted other s h =
    (refl, ground (arith, current-handle_navigate deleted s h, text_eq_refl deleted))
