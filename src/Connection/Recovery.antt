-- ===== src/Connection/Recovery.antt =====
-- What Terminal.tsx does about a socket that is lost, or that is not the current one.
use terminal_hub.Common.{ℕ, ◌+◌, ◌<◌, ◌≡◌, true, false, none, some, [], ◌∷◌, arith, All}
use terminal_hub.Connection.State.{
  Connection, connecting, closed, reconnect, is_current, is_closed, set_timeout, emit, set_ready,
  close_web_socket,
}
use terminal_hub.Connection.Flow.{
  max_reconnect_attempts, calculate_backoff_delay, connect_web_socket, schedule_reconnect,
  begin_reconnect_flow, clear_error_close_grace_timeout, after_close, handle_socket_close,
}
use terminal_hub.Connection.Handlers.{Dimensions, on_open, on_close, on_error}
use terminal_hub.Connection.Trace.{
  fire, handle, run, socket_opened, socket_closed, socket_failed, timer_fired,
}

-- The current socket and the state of the reconnection are the same.
abbrev pub IsQuiet : Connection → Connection → Type 0
IsQuiet s t =
    (t.ws ≡ s.ws)
    × (t.reconnect_attempts ≡ s.reconnect_attempts)
    × (t.reconnect_timeout ≡ s.reconnect_timeout)
    × (t.is_reconnecting ≡ s.is_reconnecting)
    × (t.next_socket ≡ s.next_socket)

on_close-scheduled :
    (i : ℕ) (s : Connection)
    → s.ws ≡ some i
    → s.is_manually_closed ≡ false
    → (s.sockets i).did_open ≡ true
    → s.reconnect_attempts < max_reconnect_attempts
    → let t = on_close i s in
      (t.ws ≡ none)
      × (t.reconnect_attempts ≡ s.reconnect_attempts)
      × (t.next_socket ≡ s.next_socket)
      × (t.reconnect_timeout ≡ some s.next_handle)
      × (t.timers s.next_handle
          ≡ some (reconnect (s.sockets i).maker (calculate_backoff_delay s.reconnect_attempts)))
unfolding on_close handle_socket_close after_close begin_reconnect_flow schedule_reconnect emit
    set_timeout clear_error_close_grace_timeout
on_close-scheduled i s w m o r = ground arith

fire-connects :
    (h k d : ℕ) (s : Connection)
    → s.ws ≡ none
    → s.timers h ≡ some (reconnect k d)
    → let t = handle (timer_fired h) s in
      (t.ws ≡ some s.next_socket)
      × ((t.sockets s.next_socket).ready ≡ connecting)
      × (t.reconnect_attempts ≡ s.reconnect_attempts + 1)
      × (t.reconnect_timeout ≡ none)
unfolding handle fire connect_web_socket emit
fire-connects h k d s w e = ground arith

-- A socket that was open and is lost, while fewer than ten attempts were made in a row and the
-- terminal was not closed, is replaced: the close sets a timer, and when it fires a new socket
-- connects, as one more attempt and with no other one pending.
pub lost-connects :
    (i : ℕ) (s : Connection)
    → s.ws ≡ some i
    → is_closed (s.sockets i).ready ≡ false
    → s.is_manually_closed ≡ false
    → (s.sockets i).did_open ≡ true
    → s.reconnect_attempts < max_reconnect_attempts
    → let t = run (socket_closed i ∷ timer_fired s.next_handle ∷ []) s in
      (t.ws ≡ some s.next_socket)
      × ((t.sockets s.next_socket).ready ≡ connecting)
      × (t.reconnect_attempts ≡ s.reconnect_attempts + 1)
      × (t.reconnect_timeout ≡ none)
unfolding run handle set_ready
lost-connects i s w c m o r =
    let u = set_ready i closed s in
    let closing = on_close-scheduled i u w m (ground (arith, o)) r in
    let next = fire-connects s.next_handle _ _ (on_close i u) closing.0 closing.4 in
    ground (arith, next, closing)

-- An event of a socket that is not the current one any more (its opening, its error or its
-- close) changes neither the current socket nor the state of the reconnection.
stale_event :
    (i : ℕ) (dims : Dimensions) (s : Connection)
    → is_current i s.ws ≡ false
    → All
        (λ e. IsQuiet s (handle e s))
        (socket_opened i dims ∷ socket_closed i ∷ socket_failed i ∷ [])
unfolding handle on_open on_close on_error handle_socket_close clear_error_close_grace_timeout
    close_web_socket set_ready emit
stale_event i dims s h = (ground arith, (ground arith, (ground arith, tt)))

-- With ten attempts made, a lost socket is not tried again: nothing is scheduled.
lost_after_ten :
    (i : ℕ) (s : Connection)
    → s.ws ≡ some i
    → s.is_manually_closed ≡ false
    → (s.sockets i).did_open ≡ true
    → s.reconnect_attempts ≡ max_reconnect_attempts
    → let t = on_close i s in
      (t.ws ≡ none)
      × (t.is_reconnecting ≡ false)
      × (t.next_handle ≡ s.next_handle)
      × (t.next_socket ≡ s.next_socket)
unfolding on_close handle_socket_close after_close begin_reconnect_flow schedule_reconnect emit
    set_timeout clear_error_close_grace_timeout
lost_after_ten i s w m o r = ground arith
