-- ===== src/Connection/Handlers.antt =====
-- Terminal.tsx, the handlers: of a socket, of window and document, of typed input, and the effect
-- with its cleanup.
use terminal_hub.Common.{
  ℕ, ◌+◌, ◌-◌, Bool, true, false, not, ◌||◌, Option, none, some, [], Text, ltb, leb, if◌then◌else◌,
  maybe,
}
use terminal_hub.Connection.State.{
  Connection, closed, tui_refresh, focus_later, resize, send_resize, send_data, toast_reconnected,
  toast_dismiss, focused, update, is_current, is_open, is_closed, is_closing, clear_handle,
  set_timeout, emit, close_web_socket,
}
use terminal_hub.Connection.Flow.{
  stale_socket_hidden_ms, resume_reconnect_cooldown_ms, connect_web_socket, begin_reconnect_flow,
  clear_error_close_grace_timeout, schedule_error_close_fallback, handle_socket_close,
}

abbrev pub Dimensions : Type 0
Dimensions = Option (ℕ × ℕ)

-- `sendResize` for a given socket
unfoldable pub send_resize_to : ℕ → Dimensions → Connection → Connection
unfolding emit
send_resize_to i none s = s
send_resize_to i (some (cols, rows)) s =
    let t = emit (resize cols rows) s in
    if is_open (s.sockets i).ready then emit (send_resize i cols rows) t else t

unfoldable pub trigger_tui_refresh : ℕ → Dimensions → Connection → Connection
unfolding emit set_timeout
trigger_tui_refresh i none s = s
trigger_tui_refresh i (some (cols, rows)) s =
    if ltb cols 2 || ltb rows 2
    then s
    else set_timeout (tui_refresh i cols rows)
        (emit (send_resize i (cols - 1) rows) (emit (resize (cols - 1) rows) s))

-- the callback of the 75 ms timer of `triggerTUIRefresh`
unfoldable pub finish_tui_refresh : ℕ → ℕ → ℕ → Connection → Connection
unfolding emit
finish_tui_refresh i cols rows s =
    if s.is_manually_closed || not (is_current i s.ws) || not (is_open (s.sockets i).ready)
    then s
    else emit (send_resize i cols rows) (emit (resize cols rows) s)

unfoldable pub focus_terminal : ℕ → Connection → Connection
unfolding emit
focus_terminal i s = if s.is_manually_closed || not (is_current i s.ws) then s else emit focused s

-- what `onopen` ends with
unfoldable pub announce : ℕ → Bool → Connection → Connection
unfolding emit set_timeout
announce i was_reconnecting s =
    if was_reconnecting then set_timeout (focus_later i) (emit toast_reconnected s) else s

unfoldable pub on_open : ℕ → Dimensions → Connection → Connection
unfolding announce clear_error_close_grace_timeout send_resize_to trigger_tui_refresh
    close_web_socket emit set_timeout
on_open i dims s =
    let t = record (clear_error_close_grace_timeout s) {
      sockets = update s.sockets i (record (s.sockets i) { did_open = true });
      is_reconnecting = false;
      reconnect_attempts = 0;
    } in
    if is_current i s.ws
    then announce i s.is_reconnecting (trigger_tui_refresh i dims (send_resize_to i dims t))
    else close_web_socket i s

unfoldable pub on_close : ℕ → Connection → Connection
unfolding handle_socket_close clear_error_close_grace_timeout
on_close i s = handle_socket_close i (clear_error_close_grace_timeout s)

unfoldable pub on_error : ℕ → Connection → Connection
unfolding schedule_error_close_fallback
on_error i s = if is_current i s.ws then schedule_error_close_fallback i s else s

-- the last part of `forceReconnectForReason`: the current socket is live, and `close` may throw
unfoldable pub force_close : ℕ → ℕ → Bool → Connection → Connection
unfolding close_web_socket begin_reconnect_flow
force_close k i throws s =
    if throws then begin_reconnect_flow k (record s { ws = none }) else close_web_socket i s

unfoldable pub force_reconnect_for_reason : ℕ → Bool → Connection → Connection
unfolding force_close begin_reconnect_flow close_web_socket
force_reconnect_for_reason now throws s =
    let t = record s { last_resume_reconnect_at = now } in
    if s.is_manually_closed || ltb now (s.last_resume_reconnect_at + resume_reconnect_cooldown_ms)
    then s
    else maybe s.ws (begin_reconnect_flow s.effect_run t) (λ i.
      if is_closed (s.sockets i).ready
      then begin_reconnect_flow s.effect_run t
      else if is_closing (s.sockets i).ready
      then t
      else force_close s.effect_run i throws t)

-- `activeSocket == null || activeSocket.readyState !== WebSocket.OPEN`
abbrev pub is_down : Connection → Bool
is_down s = maybe s.ws true (λ i. not (is_open (s.sockets i).ready))

unfoldable pub handle_hidden : ℕ → Connection → Connection
handle_hidden now s = record s { last_hidden_at = some now }

-- `now - hiddenSince >= STALE_SOCKET_HIDDEN_MS`
unfoldable pub handle_visible : ℕ → Bool → Connection → Connection
unfolding force_reconnect_for_reason
handle_visible now throws s =
    let t = record s { last_hidden_at = none } in
    maybe s.last_hidden_at t (λ since.
      if leb (since + stale_socket_hidden_ms) now || is_down s
      then force_reconnect_for_reason now throws t
      else t)

-- `handlePageShow` and `handleOnline`
unfoldable pub handle_resume : ℕ → Bool → Connection → Connection
unfolding force_reconnect_for_reason
handle_resume now throws s = if is_down s then force_reconnect_for_reason now throws s else s

unfoldable pub send_input : Text → Connection → Connection
unfolding emit
send_input text s = maybe s.ws s (λ i.
    if is_open (s.sockets i).ready
    then emit (send_data i text) (record s { is_reconnecting = false })
    else s)

-- the function that the effect returns, up to its last line but one
unfoldable pub detach : Connection → Connection
unfolding clear_error_close_grace_timeout emit
detach s =
    let t = emit toast_dismiss (
      clear_error_close_grace_timeout (record s {
        is_manually_closed = true;
        listening = false;
        timers = clear_handle s.reconnect_timeout s.timers;
      })) in
    record t { ws = none }

unfoldable pub cleanup : Connection → Connection
unfolding detach close_web_socket
cleanup s = maybe s.ws (detach s) (λ i. close_web_socket i (detach s))

-- the refs of a new component
unfoldable pub initial : Connection
initial = record {
  ws = none;
  sockets = λ _. record { ready = closed; did_open = false; maker = 0 };
  next_socket = 0;
  reconnect_attempts = 0;
  reconnect_timeout = none;
  is_reconnecting = false;
  is_manually_closed = false;
  error_close_grace_timeout = none;
  last_hidden_at = none;
  last_resume_reconnect_at = 0;
  timers = λ _. none;
  next_handle = 0;
  checking = λ _. false;
  effect_run = 0;
  listening = false;
  log = [];
}

-- a run of the effect: the first, or one for a new `wsUrl`
unfoldable pub run_effect : Connection → Connection
unfolding connect_web_socket
run_effect s =
    connect_web_socket (s.effect_run + 1)
      (record s { effect_run = s.effect_run + 1; listening = true })
