-- ===== src/Touch/Scroll.antt =====
-- What a touch scrolls: the wheel events that Terminal.tsx makes of it.
use terminal_hub.Common.{
  ℕ, ◌*◌, ◌≡◌, refl, sym, ap, subst, ◌∙◌, Bool, true, false, List, [], ◌∷◌, ltb, if◌then◌else◌,
  arith, inl, inr, Bool-cases,
}
use terminal_hub.Touch.{
  ℤ, pos, negsuc, ◌+ℤ◌, abs, Touch, TouchState, handle_touch_start, last_wheel, handle_touch_end,
  run_moves,
}
use terminal_hub.Touch.Distance.{IsDifference, +ℤ_comm, +ℤ_zero, total}
use terminal_hub.Touch.Moves.{IsStill, IsTouched, is_far, final_y, run-IsTouched}

end-wheels :
    (up : Touch) (others : List Touch) (now : ℕ) (s : TouchState)
    → s.is_tracking ≡ true
    → (handle_touch_end (up ∷ others) now s).wheels ≡ (last_wheel s).wheels
unfolding handle_touch_end
end-wheels up others now s h = ground (arith, h)

zero_pending : (x : ℤ) → ltb 0 (abs x) ≡ false → x ≡ pos 0
zero_pending (pos n) h = ground (arith, h)
zero_pending (negsuc n) h = ground (arith, h)

-- the flush at the end
last_wheel-total :
    (s : TouchState)
    → s.is_scroll ≡ true
    → total (last_wheel s).wheels ≡ total s.wheels +ℤ s.pending_wheel_delta
unfolding total
last_wheel-total s h =
    let p = s.pending_wheel_delta in
    elim (Bool-cases (ltb 0 (abs p))) [
      | inl v ↦
          let sent : (last_wheel s).wheels ≡ p ∷ s.wheels = ground (arith, h, v) in
          ap total sent ∙ +ℤ_comm p (total s.wheels)
      | inr v ↦
          let kept : (last_wheel s).wheels ≡ s.wheels = ground (arith, h, v) in
          ap total kept
          ∙ sym (+ℤ_zero (total s.wheels))
          ∙ ap (λ q. total s.wheels +ℤ q) (sym (zero_pending p v))
    ]

abbrev end_of : Bool → ℕ → ℕ → ℕ
end_of far start end = if far then end else start

end-IsDifference :
    (far : Bool) (start end : ℕ) (s : TouchState)
    → IsTouched far start end s
    → IsDifference (total (last_wheel s).wheels) (3 * start) (3 * end_of far start end)
end-IsDifference true start end s (h, k, l, e, f) =
    subst (λ z. IsDifference z (3 * start) (3 * end)) (sym (last_wheel-total s k))
      (subst (λ y. IsDifference (total s.wheels +ℤ s.pending_wheel_delta) (3 * start) (3 * y)) f
        (subst (λ y. IsDifference (total s.wheels +ℤ s.pending_wheel_delta) (3 * y) (3 * s.last_y))
          e h))
end-IsDifference false start end s (h, k, l, e, f, w) =
    let none_sent : (last_wheel s).wheels ≡ [] = ground (arith, k, w) in
    subst (λ x. IsDifference (total x) (3 * start) (3 * start)) (sym none_sent)
      (unfold total in omega arith)

IsTouched-tracking :
    (far : Bool) (start end : ℕ) (s : TouchState) → IsTouched far start end s → s.is_tracking ≡ true
IsTouched-tracking true start end s (h, k, l, e, f) = l
IsTouched-tracking false start end s (h, k, l, e, f, w) = l

start-IsStill :
    (touch : Touch) (began : ℕ) (s : TouchState)
    → s.wheels ≡ []
    → IsStill touch.page_y (handle_touch_start (touch ∷ []) began s)
unfolding handle_touch_start total ◌+ℤ◌
start-IsStill touch began s h = (rw h (omega arith), refl, refl, refl, refl, h)

-- where the touch has scrolled to: where its last move leads, if one of them led far enough
abbrev pub scrolled_to : ℕ → List (List Touch × ℕ) → ℕ
scrolled_to start moves = if is_far start moves then final_y start moves else start

-- A touch of one finger sends wheel events that add up to three times its way up the page, from where
-- it began to where its last move led, if any of its moves led more than 12 pixels away, and else none:
-- nothing is lost between two flushes, or at the end, whatever the times are.
pub total-touch :
    (touch : Touch) (began : ℕ) (moves : List (List Touch × ℕ)) (up : Touch) (others : List Touch)
    (ended : ℕ) (s : TouchState)
    → s.wheels ≡ []
    → let t =
        handle_touch_end
          (up ∷ others)
          ended
          (run_moves moves (handle_touch_start (touch ∷ []) began s)) in
      IsDifference (total t.wheels) (3 * touch.page_y) (3 * scrolled_to touch.page_y moves)
total-touch touch began moves up others ended s h =
    let begun = handle_touch_start (touch ∷ []) began s in
    let t = run_moves moves begun in
    let end = final_y touch.page_y moves in
    let far = is_far touch.page_y moves in
    let led = run-IsTouched moves touch.page_y begun (start-IsStill touch began s h) in
    subst (λ x. IsDifference (total x) (3 * touch.page_y) (3 * end_of far touch.page_y end))
      (sym (end-wheels up others ended t (IsTouched-tracking far touch.page_y end t led)))
      (end-IsDifference far touch.page_y end t led)
