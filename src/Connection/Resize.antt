-- ===== src/Connection/Resize.antt =====
-- Terminal.tsx: the size of the terminal, which follows that of its container behind a timer.
-- `proposeDimensions` is an argument: `none` where it throws, `some none` where it gives nothing.
use terminal_hub.Common.{
  ℕ, ◌+◌, Bool, true, false, ◌&&◌, ◌||◌, Option, none, some, List, [], ◌∷◌, leb, ◌==◌,
  if◌then◌else◌,
}
use terminal_hub.Connection.Handlers.{Dimensions}

-- What is called: `fit`, `resize` of the terminal, and a message with a size.
pub data Call : Type 0 where
  fitted : Call
  resized sent : ℕ → ℕ → Call

-- `pending` are the timers of the resizes that are set, newest first, `initial_fit` is that of the
-- first one; `socket_open` is `ws && ws.readyState === WebSocket.OPEN` of the current socket.
pub record Surface : Type 0 where
  pub resize_timeout : Option ℕ
  pub next_timer : ℕ
  pub pending : List ℕ
  pub initial_fit : Bool
  pub observing : Bool
  pub socket_open : Bool
  pub calls : List Call

abbrev pub is_large : ℕ × ℕ → Bool
is_large (cols, rows) = leb 2 cols && leb 2 rows

-- `fit`, where the size is not too small
unfoldable pub fit_if_large : Option Dimensions → Surface → Surface
fit_if_large none s = s
fit_if_large (some none) s = s
fit_if_large (some (some dims)) s =
    if is_large dims then record s { calls = fitted ∷ s.calls } else s

-- `sendResize` of the current socket
unfoldable pub send_resize : Dimensions → Surface → Surface
send_resize none s = s
send_resize (some (cols, rows)) s =
    if s.socket_open
    then record s { calls = sent cols rows ∷ resized cols rows ∷ s.calls }
    else record s { calls = resized cols rows ∷ s.calls }

-- the effect, up to the observer
unfoldable pub mounted : Option Dimensions → Surface
unfolding fit_if_large
mounted proposed = fit_if_large proposed (record {
  resize_timeout = none;
  next_timer = 0;
  pending = [];
  initial_fit = true;
  observing = true;
  socket_open = false;
  calls = [];
})

-- `clearTimeout`
unfoldable pub clear_timer : Option ℕ → List ℕ → List ℕ
clear_timer none timers = timers
clear_timer (some i) [] = []
clear_timer (some i) (t ∷ timers) =
    let rest = clear_timer (some i) timers in if t == i then rest else t ∷ rest

-- the callback of the observer
unfoldable pub observed : Surface → Surface
unfolding clear_timer
observed s =
    if s.observing
    then record s {
      resize_timeout = some s.next_timer;
      next_timer = s.next_timer + 1;
      pending = s.next_timer ∷ clear_timer s.resize_timeout s.pending;
    }
    else s

unfoldable pub has_timer : ℕ → List ℕ → Bool
has_timer i [] = false
has_timer i (t ∷ timers) = t == i || has_timer i timers

abbrev pub fit_and_send : Option Dimensions → Dimensions → Surface → Surface
fit_and_send none again s = s
fit_and_send (some none) again s = s
fit_and_send (some (some dims)) again s =
    if is_large dims then send_resize again (record s { calls = fitted ∷ s.calls }) else s

-- the timer, given what is proposed before the fit and behind it
unfoldable pub resize_fired : ℕ → Option Dimensions → Dimensions → Surface → Surface
unfolding has_timer clear_timer send_resize
resize_fired i proposed again s =
    if has_timer i s.pending
    then fit_and_send proposed again (record s { pending = clear_timer (some i) s.pending })
    else s

unfoldable pub initial_fit_fired : Dimensions → Surface → Surface
unfolding send_resize
initial_fit_fired proposed s =
    if s.initial_fit then send_resize proposed (record s { initial_fit = false }) else s

-- what the cleanup does of it
unfoldable pub cleaned_up : Surface → Surface
unfolding clear_timer
cleaned_up s = record s {
  initial_fit = false;
  pending = clear_timer s.resize_timeout s.pending;
  observing = false;
}

pub data Event : Type 0 where
  container_resized : Event
  resize_timer : ℕ → Option Dimensions → Dimensions → Event
  initial_timer : Dimensions → Event
  socket_changed : Bool → Event
  unmounted : Event

unfoldable pub handle : Event → Surface → Surface
unfolding observed resize_fired initial_fit_fired cleaned_up
handle container_resized s = observed s
handle (resize_timer i proposed again) s = resize_fired i proposed again s
handle (initial_timer proposed) s = initial_fit_fired proposed s
handle (socket_changed open_now) s = record s { socket_open = open_now }
handle unmounted s = cleaned_up s

unfoldable pub run : List Event → Surface → Surface
unfolding handle
run [] s = s
run (e ∷ es) s = run es (handle e s)
