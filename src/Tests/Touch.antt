-- ===== src/Tests/Touch.antt =====
-- A finger that scrolls a terminal.
use terminal_hub.Common.{ℕ, ◌*◌, refl, false, List, [], ◌∷◌}
use terminal_hub.Touch.{Touch, TouchState, pos, handle_touch_start, run_moves, handle_touch_end}
use terminal_hub.Touch.Distance.{IsDifference, total}
use terminal_hub.Touch.Scroll.{scrolled_to, total-touch}

abbrev touch_at : ℕ → Touch
touch_at y = record { page_x = 40; page_y = y }

abbrev idle : TouchState
idle = record {
  is_tracking = false;
  start_x = 0;
  start_y = 0;
  last_y = 0;
  start_time = 0;
  is_scroll = false;
  pending_wheel_delta = pos 0;
  last_wheel_sent_at = 0;
  wheels = [];
  focuses = 0;
}

-- three moves, the last two of which are flushed together at the end
abbrev moves : List (List Touch × ℕ)
moves = ((touch_at 95 ∷ []), 5) ∷ ((touch_at 80 ∷ []), 30) ∷ ((touch_at 70 ∷ []), 35) ∷ []

total-touch_example :
    let t =
      handle_touch_end
        (touch_at 70 ∷ [])
        40
        (run_moves moves (handle_touch_start (touch_at 100 ∷ []) 0 idle)) in
    IsDifference (total t.wheels) (3 * 100) (3 * scrolled_to 100 moves)
total-touch_example = total-touch (touch_at 100) 0 moves (touch_at 70) [] 40 idle refl
