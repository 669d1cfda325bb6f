-- ===== src/Browse/Late.antt =====
-- The file picker and answers that come late.
use terminal_hub.Common.{◌≡◌, true, false, some, [], ◌∷◌, Text, inr, arith}
use terminal_hub.Browse.Query.{Listing, is_blank_text, session_query}
use terminal_hub.Browse.Picker.{
  Picker, opened, closed, answered, browse_path, open_changed, path_browsed, reset, initial_target,
  handle, run,
}

-- The picker has no guard against an answer that is outdated: where it is closed while it loads and
-- opened again at another directory, and the answer to the first request comes last, it ends showing
-- the first directory, with nothing left to wait for, though the second was asked for last.
late_answer :
    (id first second : Text) (one two : Listing) (s : Picker)
    → is_blank_text id ≡ false
    → let t =
        run
          (some id)
          (opened first ∷ closed ∷ opened second ∷ answered (inr two) ∷ answered (inr one) ∷ [])
          s in
      (t.sent
        ≡ session_query id (initial_target second) s.show_hidden
          ∷ session_query id (initial_target first) s.show_hidden
          ∷ s.sent)
      × (t.current_path ≡ one.current)
      × (t.entries ≡ one.entries)
      × (t.is_open ≡ true)
      × (t.loading ≡ false)
unfolding run handle open_changed browse_path path_browsed reset
late_answer id first second one two s h = ground (arith, h)
