-- ===== src/Touch.antt =====
-- frontend/src/features/terminal/Terminal.tsx: scrolling a terminal by touch. Positions on the page
-- are whole pixels, times are milliseconds; a distance may be negative.
pub mod Distance
pub mod Moves
pub mod Scroll
use terminal_hub.Common.{
  ℕ, zero, suc, ◌+◌, ◌-◌, ◌*◌, Bool, true, false, not, ◌&&◌, ◌||◌, Option, none, some, List, [],
  ◌∷◌, ltb, leb, ◌==◌, if◌then◌else◌, maybe,
}

-- `negsuc n` is -(n + 1)
pub data ℤ : Type 0 where
  pos negsuc : ℕ → ℤ

-- the difference of two positions
unfoldable pub difference : ℕ → ℕ → ℤ
difference a b = if leb b a then pos (a - b) else negsuc (b - a - 1)

infixl 50 ◌+ℤ◌
unfoldable pub ◌+ℤ◌ : ℤ → ℤ → ℤ
unfolding difference
pos a +ℤ pos b = pos (a + b)
pos a +ℤ negsuc b = difference a (b + 1)
negsuc a +ℤ pos b = difference b (a + 1)
negsuc a +ℤ negsuc b = negsuc (a + b + 1)

unfoldable pub negate : ℤ → ℤ
negate (pos n) = if n == 0 then pos 0 else negsuc (n - 1)
negate (negsuc n) = pos (n + 1)

-- a multiple
unfoldable pub scale : ℕ → ℤ → ℤ
scale k (pos n) = pos (k * n)
scale k (negsuc n) = if k == 0 then pos 0 else negsuc (k * (n + 1) - 1)

-- `Math.abs`
abbrev pub abs : ℤ → ℕ
abs (pos n) = n
abs (negsuc n) = n + 1

abbrev pub touch_scroll_threshold : ℕ
touch_scroll_threshold = 12

abbrev pub wheel_flush_interval_ms : ℕ
wheel_flush_interval_ms = 16

abbrev pub wheel_delta_multiplier : ℕ
wheel_delta_multiplier = 3

pub record Touch : Type 0 where
  pub page_x : ℕ
  pub page_y : ℕ

-- `touchStateRef`; `wheels` are the deltas of the calls of `dispatchSyntheticWheel`, newest first,
-- and `focuses` counts the taps that focus the terminal.
pub record TouchState : Type 0 where
  pub is_tracking : Bool
  pub start_x : ℕ
  pub start_y : ℕ
  pub last_y : ℕ
  pub start_time : ℕ
  pub is_scroll : Bool
  pub pending_wheel_delta : ℤ
  pub last_wheel_sent_at : ℕ
  pub wheels : List ℤ
  pub focuses : ℕ

-- `handleTouchStart`, given the touches and the time
unfoldable pub handle_touch_start : List Touch → ℕ → TouchState → TouchState
handle_touch_start (touch ∷ []) now s = record s {
  is_tracking = true;
  start_x = touch.page_x;
  start_y = touch.page_y;
  last_y = touch.page_y;
  start_time = now;
  is_scroll = false;
  pending_wheel_delta = pos 0;
  last_wheel_sent_at = 0;
}
handle_touch_start [] now s = s
handle_touch_start (t ∷ u ∷ touches) now s = s

abbrev pub dispatch : ℤ → TouchState → TouchState
dispatch delta s = record s { wheels = delta ∷ s.wheels }

-- the flush, at most once in the interval
unfoldable pub flush : ℕ → TouchState → TouchState
flush now s =
    let sent =
      if ltb 0 (abs s.pending_wheel_delta)
      then record (dispatch s.pending_wheel_delta s) { pending_wheel_delta = pos 0 }
      else s in
    if leb wheel_flush_interval_ms (now - s.last_wheel_sent_at)
    then record sent { last_wheel_sent_at = now }
    else s

-- whether the touch scrolls from here on
abbrev pub scrolls : Touch → TouchState → Bool
scrolls touch s =
    s.is_scroll || ltb touch_scroll_threshold (abs (difference touch.page_y s.start_y))

abbrev pub scroll_to : Touch → TouchState → TouchState
scroll_to touch s =
    let delta_y = difference touch.page_y s.last_y in
    record s {
      is_scroll = true;
      pending_wheel_delta = s.pending_wheel_delta +ℤ scale wheel_delta_multiplier (negate delta_y);
      last_y = touch.page_y;
    }

-- `handleTouchMove`
unfoldable pub handle_touch_move : List Touch → ℕ → TouchState → TouchState
unfolding flush difference negate scale ◌+ℤ◌
handle_touch_move (touch ∷ []) now s =
    if s.is_tracking && scrolls touch s then flush now (scroll_to touch s) else s
handle_touch_move [] now s = s
handle_touch_move (t ∷ u ∷ touches) now s = s

-- the tap, given the first of the changed touches
abbrev pub tap : Touch → ℕ → TouchState → TouchState
tap touch now s =
    if not s.is_scroll
      && ltb (now - s.start_time) 300
      && ltb (abs (difference touch.page_x s.start_x)) 10
      && ltb (abs (difference touch.page_y s.start_y)) 10
    then record s { focuses = s.focuses + 1 }
    else s

abbrev pub last_wheel : TouchState → TouchState
last_wheel s =
    if s.is_scroll && ltb 0 (abs s.pending_wheel_delta) then dispatch s.pending_wheel_delta s else s

-- `handleTouchEnd`, given the changed touches: those of a touch that ends are never none
unfoldable pub handle_touch_end : List Touch → ℕ → TouchState → TouchState
unfolding difference
handle_touch_end changed now s =
    if not s.is_tracking
    then s
    else record (elim changed [ [] ↦ s | t ∷ touches ↦ tap t now (last_wheel s) ]) {
      is_tracking = false;
    }

-- the moves of a touch, each with its touches and its time
unfoldable pub run_moves : List (List Touch × ℕ) → TouchState → TouchState
unfolding handle_touch_move
run_moves [] s = s
run_moves ((touches, now) ∷ moves) s = run_moves moves (handle_touch_move touches now s)
