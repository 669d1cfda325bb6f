-- ===== src/Snapshot/View.antt =====
-- The lines of the buffer that a snapshot of Terminal.tsx is made of.
use terminal_hub.Common.{
  join_lines, ℕ, zero, suc, ◌+◌, ◌-◌, ◌≤◌, ◌<◌, ◌≡◌, refl, sym, ap, ◌∙◌, List, [], ◌∷◌, Text,
  length, arith, take, drop, get_elem?, length-drop, min,
}
use terminal_hub.Snapshot.{
  Buffer, line_text, visible_lines, end_line, get_visible_buffer_text_snapshot,
  sanitize_terminal_snapshot,
}

take-drop :
    (ls : List Text) (start n : ℕ)
    → start < length ls
    → take (suc n) (drop start ls) ≡ line_text (get_elem? ls start) ∷ take n (drop (suc start) ls)
take-drop [] start n h = elim h [ ]
take-drop (l ∷ ls) zero n h = refl
take-drop (l ∷ ls) (suc start) n h = take-drop ls start n (omega arith)

visible-take :
    (b : Buffer) (count start : ℕ)
    → start + count ≤ length b.lines
    → visible_lines b start count ≡ take count (drop start b.lines)
unfolding visible_lines
visible-take b zero start h = refl
visible-take b (suc count) start h =
    ap (λ r. line_text (get_elem? b.lines start) ∷ r)
      (visible-take b count (suc start) (omega arith))
    ∙ sym (take-drop b.lines start count (omega arith))

take_short : (ls : List Text) (m n : ℕ) → m ≡ min (length ls) n → take m ls ≡ take n ls
take_short [] zero zero h = refl
take_short [] zero (suc n) h = refl
take_short [] (suc m) n h = absurd (omega arith)
take_short (l ∷ ls) zero zero h = refl
take_short (l ∷ ls) zero (suc n) h = absurd (omega arith)
take_short (l ∷ ls) (suc m) zero h = absurd (omega arith)
take_short (l ∷ ls) (suc m) (suc n) h = ap (λ r. l ∷ r) (take_short ls m n (omega arith))

-- Where the top of the view lies within the buffer, the snapshot is the sanitized text of the lines
-- from there on, as many as the terminal has rows, or fewer where the buffer ends.
snapshot-take :
    (b : Buffer)
    → b.viewport_y < length b.lines
    → 1 ≤ b.rows
    → get_visible_buffer_text_snapshot b
      ≡ sanitize_terminal_snapshot (join_lines (take b.rows (drop b.viewport_y b.lines)))
unfolding get_visible_buffer_text_snapshot
snapshot-take b h r =
    let count = end_line b + 1 - b.viewport_y in
    let same : visible_lines b b.viewport_y count ≡ take b.rows (drop b.viewport_y b.lines) =
      visible-take b count b.viewport_y (omega arith)
      ∙ take_short (drop b.viewport_y b.lines) count b.rows
          (omega (arith, length-drop b.viewport_y b.lines)) in
    ground (arith, same)
