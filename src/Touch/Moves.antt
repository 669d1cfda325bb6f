-- ===== src/Touch/Moves.antt =====
-- The moves of a touch on a terminal (Terminal.tsx), one after another.
use terminal_hub.Common.{
  ℕ, ◌+◌, ◌-◌, ◌*◌, ◌≡◌, refl, sym, ap, subst, ◌∙◌, Bool, true, false, ◌&&◌, ◌||◌, List, [], ◌∷◌,
  leb, ltb, if◌then◌else◌, arith, inl, inr, Bool-cases,
}
use terminal_hub.Touch.{
  ℤ, pos, negsuc, difference, ◌+ℤ◌, negate, scale, abs, Touch, TouchState, flush, scrolls,
  scroll_to, handle_touch_move, run_moves, wheel_flush_interval_ms, touch_scroll_threshold,
}
use terminal_hub.Touch.Distance.{
  IsDifference, difference-IsDifference, add-IsDifference, negate-IsDifference, scale-IsDifference,
  +ℤ_comm, +ℤ_zero, +ℤ_assoc, total,
}

cancel-IsDifference : (z : ℤ) (a b c : ℕ) → IsDifference z (a + c) (c + b) → IsDifference z a b
cancel-IsDifference (pos n) a b c h = omega (arith, h)
cancel-IsDifference (negsuc n) a b c h = omega (arith, h)

-- What was sent and what is pending are three times the way so far.
abbrev pub IsMeasured : TouchState → Type 0
IsMeasured s = IsDifference (total s.wheels +ℤ s.pending_wheel_delta) (3 * s.start_y) (3 * s.last_y)

scroll-IsMeasured : (t : Touch) (s : TouchState) → IsMeasured s → IsMeasured (scroll_to t s)
scroll-IsMeasured t s h =
    let way = difference t.page_y s.last_y in
    let step =
      scale-IsDifference (negate way) s.last_y t.page_y
        (negate-IsDifference way t.page_y s.last_y (difference-IsDifference t.page_y s.last_y)) in
    let before = total s.wheels +ℤ s.pending_wheel_delta in
    let sum =
      add-IsDifference before (scale 3 (negate way)) (3 * s.start_y) (3 * s.last_y) (3 * s.last_y)
        (3 * t.page_y) h step in
    subst (λ z. IsDifference z (3 * s.start_y) (3 * t.page_y))
      (+ℤ_assoc (total s.wheels) s.pending_wheel_delta (scale 3 (negate way)))
      (cancel-IsDifference (before +ℤ scale 3 (negate way)) (3 * s.start_y) (3 * t.page_y)
        (3 * s.last_y) sum)

flush-IsMeasured : (now : ℕ) (s : TouchState) → IsMeasured s → IsMeasured (flush now s)
unfolding flush total
flush-IsMeasured now s h =
    let p = s.pending_wheel_delta in
    let moved : (p +ℤ total s.wheels) +ℤ pos 0 ≡ total s.wheels +ℤ p =
      +ℤ_zero (p +ℤ total s.wheels) ∙ +ℤ_comm p (total s.wheels) in
    elim (Bool-cases (leb wheel_flush_interval_ms (now - s.last_wheel_sent_at))) [
      | inr u ↦ rw u h
      | inl u ↦ elim (Bool-cases (ltb 0 (abs p))) [
        | inl v ↦ rw (u, v, moved) h
        | inr v ↦ rw (u, v) h
      ]
    ]

-- whether one of the moves of one finger leads further away than a tap may
unfoldable pub is_far : ℕ → List (List Touch × ℕ) → Bool
unfolding difference
is_far start [] = false
is_far start (((t ∷ []), now) ∷ moves) =
    ltb touch_scroll_threshold (abs (difference t.page_y start)) || is_far start moves
is_far start (([], now) ∷ moves) = is_far start moves
is_far start (((t ∷ u ∷ ts), now) ∷ moves) = is_far start moves

-- where the last move of one finger leads
unfoldable pub final_y : ℕ → List (List Touch × ℕ) → ℕ
final_y y [] = y
final_y y (((t ∷ []), now) ∷ moves) = final_y t.page_y moves
final_y y (([], now) ∷ moves) = final_y y moves
final_y y (((t ∷ u ∷ ts), now) ∷ moves) = final_y y moves

flush-last_y :
    (now : ℕ) (s : TouchState)
    → let t = flush now s in
      (t.last_y ≡ s.last_y)
      × (t.start_y ≡ s.start_y)
      × (t.is_scroll ≡ s.is_scroll)
      × (t.is_tracking ≡ s.is_tracking)
unfolding flush
flush-last_y now s = ground arith

far-final_y :
    (start a b : ℕ) (moves : List (List Touch × ℕ))
    → is_far start moves ≡ true
    → final_y a moves ≡ final_y b moves
unfolding is_far final_y
far-final_y start a b [] h = absurd (cc h)
far-final_y start a b (((t ∷ []), now) ∷ moves) h = refl
far-final_y start a b (([], now) ∷ moves) h = far-final_y start a b moves h
far-final_y start a b (((t ∷ u ∷ ts), now) ∷ moves) h = far-final_y start a b moves h

-- What a touch that scrolls comes to, from a state that has begun at `start`.
abbrev pub IsScrolled : ℕ → ℕ → TouchState → Type 0
IsScrolled start end s =
    IsMeasured s
    × (s.is_scroll ≡ true)
    × (s.is_tracking ≡ true)
    × (s.start_y ≡ start)
    × (s.last_y ≡ end)

scroll_move :
    (t : Touch) (now start : ℕ) (s : TouchState)
    → IsMeasured s
    → s.is_tracking ≡ true
    → s.start_y ≡ start
    → IsScrolled start t.page_y (flush now (scroll_to t s))
scroll_move t now start s h k e =
    let moved = scroll_to t s in
    let kept = flush-last_y now moved in
    (
      flush-IsMeasured now moved (scroll-IsMeasured t s h),
      ground (arith, kept),
      ground (arith, kept, k),
      ground (arith, kept, e),
      ground (arith, kept),
    )

abbrev does_scroll : Touch → TouchState → Bool
does_scroll t s = s.is_tracking && scrolls t s

move-scrolls :
    (t : Touch) (now : ℕ) (s : TouchState)
    → does_scroll t s ≡ true
    → handle_touch_move (t ∷ []) now s ≡ flush now (scroll_to t s)
unfolding handle_touch_move
move-scrolls t now s h = ap (λ c. if c then flush now (scroll_to t s) else s) h

move_rests :
    (t : Touch) (now : ℕ) (s : TouchState)
    → does_scroll t s ≡ false
    → handle_touch_move (t ∷ []) now s ≡ s
unfolding handle_touch_move
move_rests t now s h = ap (λ c. if c then flush now (scroll_to t s) else s) h

move_none : (now : ℕ) (s : TouchState) → handle_touch_move [] now s ≡ s
unfolding handle_touch_move
move_none now s = refl

move_many :
    (t u : Touch) (ts : List Touch) (now : ℕ) (s : TouchState)
    → handle_touch_move (t ∷ u ∷ ts) now s ≡ s
unfolding handle_touch_move
move_many t u ts now s = refl

run-IsScrolled :
    (moves : List (List Touch × ℕ)) (start end : ℕ) (s : TouchState)
    → IsScrolled start end s
    → IsScrolled start (final_y end moves) (run_moves moves s)
unfolding run_moves final_y
run-IsScrolled [] start end s h = h
run-IsScrolled (([], now) ∷ moves) start end s h =
    rw (move_none now s) (run-IsScrolled moves start end s h)
run-IsScrolled (((t ∷ u ∷ ts), now) ∷ moves) start end s h =
    rw (move_many t u ts now s) (run-IsScrolled moves start end s h)
run-IsScrolled (((t ∷ []), now) ∷ moves) start end s (h, k, l, e, f) =
    let next = flush now (scroll_to t s) in
    subst (IsScrolled start (final_y t.page_y moves))
      (ap (run_moves moves) (sym (move-scrolls t now s (ground (arith, k, l)))))
      (run-IsScrolled moves start t.page_y next (scroll_move t now start s h l e))

-- a touch that has not moved far
abbrev pub IsStill : ℕ → TouchState → Type 0
IsStill start s =
    IsMeasured s
    × (s.is_scroll ≡ false)
    × (s.is_tracking ≡ true)
    × (s.start_y ≡ start)
    × (s.last_y ≡ start)
    × (s.wheels ≡ [])

abbrev pub IsTouched : Bool → ℕ → ℕ → TouchState → Type 0
IsTouched true start end s = IsScrolled start end s
IsTouched false start end s = IsStill start s

-- How far a touch has led is independent of where it stood while it was still.
move-IsTouched :
    (far : Bool) (start a b : ℕ) (moves : List (List Touch × ℕ)) (s : TouchState)
    → is_far start moves ≡ far
    → IsTouched far start (final_y a moves) s
    → IsTouched far start (final_y b moves) s
move-IsTouched true start a b moves s e h =
    subst (λ y. IsScrolled start y s) (far-final_y start a b moves e) h
move-IsTouched false start a b moves s e h = h

pub run-IsTouched :
    (moves : List (List Touch × ℕ)) (start : ℕ) (s : TouchState)
    → IsStill start s
    → IsTouched (is_far start moves) start (final_y start moves) (run_moves moves s)
unfolding run_moves is_far final_y
run-IsTouched [] start s h = h
run-IsTouched (([], now) ∷ moves) start s h =
    subst (λ t. IsTouched (is_far start moves) start (final_y start moves) (run_moves moves t))
      (sym (move_none now s)) (run-IsTouched moves start s h)
run-IsTouched (((t ∷ u ∷ ts), now) ∷ moves) start s h =
    subst (λ t. IsTouched (is_far start moves) start (final_y start moves) (run_moves moves t))
      (sym (move_many t u ts now s)) (run-IsTouched moves start s h)
run-IsTouched (((t ∷ []), now) ∷ moves) start s (h, k, l, e, f, w) =
    let leads = ltb touch_scroll_threshold (abs (difference t.page_y start)) in
    let end = final_y t.page_y moves in
    elim (Bool-cases leads) [
      | inl u ↦
          let far : does_scroll t s ≡ true = ground (arith, k, l, e, u) in
          let next = flush now (scroll_to t s) in
          let led = run-IsScrolled moves start t.page_y next (scroll_move t now start s h l e) in
          subst
            (λ c.
              IsTouched (c || is_far start moves) start end
                (run_moves moves (handle_touch_move (t ∷ []) now s)))
            (sym u)
            (subst (λ m. IsScrolled start end (run_moves moves m)) (sym (move-scrolls t now s far))
              led)
      | inr u ↦
          let near : does_scroll t s ≡ false = ground (arith, k, l, e, u) in
          let rest = run-IsTouched moves start s (h, k, l, e, f, w) in
          let moved =
            move-IsTouched (is_far start moves) start start t.page_y moves (run_moves moves s) refl
              rest in
          subst
            (λ c.
              IsTouched (c || is_far start moves) start end
                (run_moves moves (handle_touch_move (t ∷ []) now s)))
            (sym u)
            (subst (λ m. IsTouched (is_far start moves) start end (run_moves moves m))
              (sym (move_rests t now s near)) moved)
    ]
