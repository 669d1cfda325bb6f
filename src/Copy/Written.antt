-- ===== src/Copy/Written.antt =====
-- What CopyTextModal.tsx writes to the clipboard.
use terminal_hub.Common.{
  ◌≡◌, false, ◌&&◌, Option, none, some, List, [], ◌∷◌, Text, codes, ltb, ◌==◌, length, All, if_elim,
  text_eq, not,
}
use terminal_hub.Snapshot.{Buffer, get_visible_buffer_text_snapshot, end_line}
use terminal_hub.Snapshot.Clean.{IsClean, sanitize-IsClean}
use terminal_hub.Copy.{
  CopyText, initial, get_visible_plain_text_snapshot, open_copy_text_modal, close_copy_text_modal,
  focus_text, handle_key_down, handle_copy_all, copy_ended, Event, opened, dismissed, focus_fired,
  key_down, copy_pressed, copy_answered, handle, run,
}

-- some text, with no control character but newlines and tabs
abbrev pub IsText : Text → Type 0
IsText t = ((length t == 0) ≡ false) × All IsClean t

abbrev IsSafe : CopyText → Type 0
IsSafe s = All IsClean s.copy_modal_content × All IsText s.written

snapshot-IsClean : (buffer : Option Buffer) → All IsClean (get_visible_plain_text_snapshot buffer)
unfolding get_visible_plain_text_snapshot get_visible_buffer_text_snapshot
snapshot-IsClean none = tt
snapshot-IsClean (some b) =
    if_elim (All IsClean) (ltb (end_line b) b.viewport_y) (λ _. tt) (λ _. (sanitize-IsClean _).0)

handle-IsSafe : (e : Event) (s : CopyText) → IsSafe s → IsSafe (handle e s)
unfolding handle open_copy_text_modal close_copy_text_modal focus_text handle_key_down
    handle_copy_all copy_ended
handle-IsSafe (opened buffer) s (h, k) = (snapshot-IsClean buffer, k)
handle-IsSafe dismissed s v = if_elim IsSafe s.copy_modal_open (λ _. v) (λ _. v)
handle-IsSafe focus_fired s v = if_elim IsSafe s.focus_timeout (λ _. v) (λ _. v)
handle-IsSafe (key_down key) s v =
    if_elim IsSafe (s.copy_modal_open && text_eq key (codes "Escape")) (λ _. v) (λ _. v)
handle-IsSafe (copy_pressed available) s (h, k) =
    if_elim IsSafe s.copy_modal_open
      (λ _.
        if_elim IsSafe (length s.copy_modal_content == 0) (λ _. (h, k))
          (λ some_text.
            if_elim IsSafe (not available) (λ _. (h, k)) (λ _. (h, ((some_text, h), k)))))
      (λ _. (h, k))
handle-IsSafe (copy_answered ok) s v = if_elim IsSafe (s.writes == 0) (λ _. v) (λ _. v)

run-IsSafe : (es : List Event) (s : CopyText) → IsSafe s → IsSafe (run es s)
unfolding run
run-IsSafe [] s v = v
run-IsSafe (e ∷ es) s v = run-IsSafe es (handle e s) (handle-IsSafe e s v)

-- Whatever the terminal shows and whatever is pressed, each text that is written to the clipboard is
-- not empty and holds no control character but newlines and tabs.
run-written : (es : List Event) → All IsText (run es initial).written
run-written es = (run-IsSafe es initial (tt, tt)).1
