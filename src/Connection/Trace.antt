-- ===== src/Connection/Trace.antt =====
-- The events of a terminal's life, in any order that the browser can deliver them. An event that
-- cannot happen (a timer that is not set, a socket that is closed already) changes nothing.
use terminal_hub.Common.{ℕ, ◌+◌, Bool, false, none, ◌∷◌, [], Text, if◌then◌else◌, maybe}
use terminal_hub.Connection.State.{
  Timer, Connection, opened, closed, reconnect, error_grace, tui_refresh, focus_later, update,
  is_connecting, is_closed, set_ready,
}
use terminal_hub.Connection.Flow.{
  StatusReply, should_redirect_to_login, after_auth_check, close_socket_after_error_grace,
  connect_web_socket,
}
use terminal_hub.Connection.Handlers.{
  Dimensions, finish_tui_refresh, focus_terminal, on_open, on_close, on_error, handle_hidden,
  handle_visible, handle_resume, send_input, cleanup, run_effect, initial,
}
use mathlib.Core.List.{List}

pub data Event : Type 0 where
  socket_opened : ℕ → Dimensions → Event
  socket_closed socket_failed : ℕ → Event
  timer_fired : ℕ → Event
  auth_replied : ℕ → StatusReply → Event
  page_hidden : ℕ → Event
  page_visible page_resumed : ℕ → Bool → Event
  typed : Text → Event
  unmounted url_changed : Event

-- the callbacks that `setTimeout` was given; the timer is no longer set
unfoldable pub fire : Timer → Connection → Connection
fire (reconnect k delay) s =
    connect_web_socket k
      (record s { reconnect_timeout = none; reconnect_attempts = s.reconnect_attempts + 1 })
fire (error_grace i) s = close_socket_after_error_grace i s
fire (tui_refresh i cols rows) s = finish_tui_refresh i cols rows s
fire (focus_later i) s = focus_terminal i s

unfoldable pub handle : Event → Connection → Connection
handle (socket_opened i dims) s =
    if is_connecting (s.sockets i).ready then on_open i dims (set_ready i opened s) else s
handle (socket_closed i) s =
    if is_closed (s.sockets i).ready then s else on_close i (set_ready i closed s)
handle (socket_failed i) s = if is_closed (s.sockets i).ready then s else on_error i s
handle (timer_fired h) s =
    maybe (s.timers h) s (λ t. fire t (record s { timers = update s.timers h none }))
handle (auth_replied i r) s =
    if s.checking i
    then after_auth_check (s.sockets i).maker (should_redirect_to_login r)
        (record s { checking = update s.checking i false })
    else s
handle (page_hidden now) s = if s.listening then handle_hidden now s else s
handle (page_visible now throws) s = if s.listening then handle_visible now throws s else s
handle (page_resumed now throws) s = if s.listening then handle_resume now throws s else s
handle (typed text) s = send_input text s
handle unmounted s = if s.listening then cleanup s else s
handle url_changed s = if s.listening then run_effect (cleanup s) else s

unfoldable pub run : List Event → Connection → Connection
run [] s = s
run (e ∷ es) s = run es (handle e s)

-- a new component, mounted
unfoldable pub mounted : Connection
unfolding run_effect initial
mounted = run_effect initial
