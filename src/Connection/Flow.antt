-- ===== src/Connection/Flow.antt =====
-- Terminal.tsx, the reconnection: backoff, connecting, scheduling, the grace period after an error
-- and the close handler.
use terminal_hub.Common.{
  ℕ, ◌+◌, ◌*◌, ◌^◌, min, Bool, true, false, not, ◌||◌, Option, none, some, leb, if◌then◌else◌,
  maybe,
}
use terminal_hub.Connection.State.{
  Connection, connecting, reconnect, error_grace, new_socket, write_lost, toast_loading,
  toast_failed, toast_dismiss, session_invalid, update, is_current, is_live, clear_handle,
  set_timeout, emit, close_web_socket,
}

abbrev pub max_reconnect_attempts : ℕ
max_reconnect_attempts = 10

abbrev pub base_reconnect_delay : ℕ
base_reconnect_delay = 1000

abbrev pub max_reconnect_delay : ℕ
max_reconnect_delay = 30000

abbrev pub stale_socket_hidden_ms : ℕ
stale_socket_hidden_ms = 30000

abbrev pub resume_reconnect_cooldown_ms : ℕ
resume_reconnect_cooldown_ms = 5000

unfoldable pub calculate_backoff_delay : ℕ → ℕ
calculate_backoff_delay attempt = min (base_reconnect_delay * 2 ^ attempt) max_reconnect_delay

-- `connectWebSocket` of the effect run `k`
unfoldable pub connect_web_socket : ℕ → Connection → Connection
unfolding emit
connect_web_socket k s =
    let t = emit (new_socket k) (record s {
      ws = some s.next_socket;
      sockets =
          update s.sockets s.next_socket
            (record { ready = connecting; did_open = false; maker = k });
      next_socket = s.next_socket + 1;
    }) in
    maybe s.ws t (λ i. if is_live (s.sockets i).ready then s else t)

unfoldable pub schedule_reconnect : ℕ → Connection → Connection
unfolding emit set_timeout
schedule_reconnect k s =
    let attempt = s.reconnect_attempts in
    let t =
      emit (toast_loading (attempt + 1))
        (record s { timers = clear_handle s.reconnect_timeout s.timers }) in
    if leb max_reconnect_attempts attempt
    then emit toast_failed (record s { is_reconnecting = false })
    else record (set_timeout (reconnect k (calculate_backoff_delay attempt)) t) {
      reconnect_timeout = some s.next_handle;
    }

unfoldable pub begin_reconnect_flow : ℕ → Connection → Connection
unfolding schedule_reconnect emit
begin_reconnect_flow k s =
    if s.is_reconnecting
    then schedule_reconnect k s
    else schedule_reconnect k (emit write_lost (record s { is_reconnecting = true }))

unfoldable pub clear_error_close_grace_timeout : Connection → Connection
clear_error_close_grace_timeout s = record s {
  timers = clear_handle s.error_close_grace_timeout s.timers;
  error_close_grace_timeout = none;
}

unfoldable pub close_socket_after_error_grace : ℕ → Connection → Connection
unfolding close_web_socket
close_socket_after_error_grace i s =
    if s.is_manually_closed || not (is_current i s.ws)
    then s
    else if is_live (s.sockets i).ready
    then close_web_socket i s
    else s

unfoldable pub schedule_error_close_fallback : ℕ → Connection → Connection
unfolding clear_error_close_grace_timeout set_timeout
schedule_error_close_fallback i s =
    let t = clear_error_close_grace_timeout s in
    record (set_timeout (error_grace i) t) { error_close_grace_timeout = some s.next_handle }

-- The answer of /auth/status, as `shouldRedirectToLogin` meets it: an exception of `fetch` or
-- `json`, an HTTP error, or the field `authenticated`, if there is one.
pub data StatusReply : Type 0 where
  thrown http_error : StatusReply
  reply : Option Bool → StatusReply

unfoldable pub should_redirect_to_login : StatusReply → Bool
should_redirect_to_login (reply (some false)) = true
should_redirect_to_login _ = false

-- `handleSocketClose` behind its `await`
unfoldable pub after_close : ℕ → Connection → Connection
unfolding begin_reconnect_flow
after_close k s = maybe s.ws (begin_reconnect_flow k s) (λ _. s)

unfoldable pub redirect_to_login : Connection → Connection
unfolding emit
redirect_to_login s = emit session_invalid (
    emit toast_dismiss (record s {
      is_reconnecting = false;
      timers = clear_handle s.reconnect_timeout s.timers;
      reconnect_timeout = none;
    }))

unfoldable pub after_auth_check : ℕ → Bool → Connection → Connection
unfolding after_close redirect_to_login
after_auth_check k redirect s = if redirect then redirect_to_login s else after_close k s

-- `handleSocketClose` up to its `await`, which it reaches only for a socket that never opened
unfoldable pub handle_socket_close : ℕ → Connection → Connection
unfolding after_close
handle_socket_close i s =
    if s.is_manually_closed || not (is_current i s.ws)
    then s
    else if (s.sockets i).did_open
    then after_close (s.sockets i).maker (record s { ws = none })
    else record s { ws = none; checking = update s.checking i true }
