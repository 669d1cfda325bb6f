-- ===== src/Connection/Closed.antt =====
-- Terminal.tsx behind the cleanup of its effect.
use terminal_hub.Common.{
  ℕ, ◌≡◌, Bool, true, false, none, some, List, [], ◌∷◌, arith, maybe, inl, inr, Option-cases,
}
use terminal_hub.Connection.State.{
  Timer, Connection, opened, reconnect, error_grace, tui_refresh, focus_later, update, set_timeout,
  emit, set_ready, close_web_socket,
}
use terminal_hub.Connection.Flow.{
  connect_web_socket, schedule_reconnect, begin_reconnect_flow, clear_error_close_grace_timeout,
  close_socket_after_error_grace, schedule_error_close_fallback, after_close, redirect_to_login,
  after_auth_check, handle_socket_close,
}
use terminal_hub.Connection.Handlers.{
  Dimensions, send_resize_to, trigger_tui_refresh, finish_tui_refresh, focus_terminal, announce,
  on_open, on_close, on_error, force_reconnect_for_reason, handle_hidden, handle_visible,
  handle_resume, send_input, detach, cleanup, run_effect,
}
use terminal_hub.Connection.Trace.{
  Event, fire, handle, run, socket_opened, socket_closed, socket_failed, timer_fired, auth_replied,
  page_hidden, page_visible, page_resumed, typed, unmounted, url_changed,
}
use terminal_hub.Connection.Recovery.{IsQuiet}

abbrev IsShut : Connection → Type 0
IsShut s = s.is_manually_closed ≡ true

begin_reconnect_flow-IsShut :
    (k : ℕ) (s : Connection) → IsShut s → IsShut (begin_reconnect_flow k s)
unfolding begin_reconnect_flow schedule_reconnect emit set_timeout
begin_reconnect_flow-IsShut k s h = ground (arith, h)

open-IsShut : (i : ℕ) (dims : Dimensions) (s : Connection) → IsShut s → IsShut (on_open i dims s)
unfolding on_open announce trigger_tui_refresh send_resize_to clear_error_close_grace_timeout
    close_web_socket set_ready emit set_timeout
open-IsShut i none s h = ground (arith, h)
open-IsShut i (some (cols, rows)) s h = ground (arith, h)

fire-IsShut : (t : Timer) (s : Connection) → IsShut s → IsShut (fire t s)
unfolding fire connect_web_socket close_socket_after_error_grace finish_tui_refresh focus_terminal
    close_web_socket set_ready emit
fire-IsShut (reconnect k delay) s h = ground (arith, h)
fire-IsShut (error_grace i) s h = ground (arith, h)
fire-IsShut (tui_refresh i cols rows) s h = ground (arith, h)
fire-IsShut (focus_later i) s h = ground (arith, h)

force-IsShut :
    (now : ℕ) (throws : Bool) (s : Connection)
    → IsShut s
    → IsShut (force_reconnect_for_reason now throws s)
unfolding force_reconnect_for_reason
force-IsShut now throws s h = ground (arith, h)

handle-IsShut : (e : Event) (s : Connection) → IsShut s → IsShut (handle e s)
unfolding handle set_ready
handle-IsShut (socket_opened i dims) s h =
    ground (arith, open-IsShut i dims (set_ready i opened s) h)
handle-IsShut (socket_closed i) s h =
    unfold on_close handle_socket_close clear_error_close_grace_timeout in ground (arith, h)
handle-IsShut (socket_failed i) s h =
    unfold on_error schedule_error_close_fallback clear_error_close_grace_timeout set_timeout in
    ground (arith, h)
handle-IsShut (timer_fired n) s h = elim (Option-cases (s.timers n)) [
  | inl unset ↦ rw unset h
  | inr (t, set) ↦ rw set (fire-IsShut t (record s { timers = update s.timers n none }) h)
]
handle-IsShut (auth_replied i r) s h =
    unfold after_auth_check after_close redirect_to_login emit in
    ground (
      arith,
      h,
      begin_reconnect_flow-IsShut (s.sockets i).maker
          (record s { checking = update s.checking i false }),
    )
handle-IsShut (page_hidden now) s h = unfold handle_hidden in ground (arith, h)
handle-IsShut (page_visible now throws) s h =
    unfold handle_visible in
    ground (arith, h, force-IsShut now throws (record s { last_hidden_at = none }))
handle-IsShut (page_resumed now throws) s h =
    unfold handle_resume in ground (arith, h, force-IsShut now throws s)
handle-IsShut (typed text) s h = unfold send_input emit in ground (arith, h)
handle-IsShut unmounted s h =
    unfold cleanup detach clear_error_close_grace_timeout close_web_socket set_ready emit in
    ground (arith, h)
handle-IsShut url_changed s h =
    unfold run_effect connect_web_socket cleanup detach clear_error_close_grace_timeout
      close_web_socket set_ready emit in
    ground (arith, h)

run-IsShut : (es : List Event) (s : Connection) → IsShut s → IsShut (run es s)
unfolding run
run-IsShut [] s h = h
run-IsShut (e ∷ es) s h = run-IsShut es (handle e s) (handle-IsShut e s h)

close-IsQuiet : (i : ℕ) (s : Connection) → IsShut s → IsQuiet s (handle (socket_closed i) s)
unfolding handle set_ready on_close handle_socket_close clear_error_close_grace_timeout
close-IsQuiet i s h = ground (arith, h)

-- the flag, the reconnection that is pending and the current socket behind the cleanup
cleanup-closes :
    (s : Connection)
    → let t = cleanup s in
      (t.is_manually_closed ≡ true)
      × (t.ws ≡ none)
      × (t.listening ≡ false)
      × (maybe s.reconnect_timeout none t.timers ≡ none)
unfolding cleanup detach clear_error_close_grace_timeout close_web_socket set_ready emit
cleanup-closes s = ground (
  arith,
  Option-cases s.reconnect_timeout,
  Option-cases s.error_close_grace_timeout,
  Option-cases s.ws,
)

-- the events that clean the effect up
abbrev pub is_cleanup : Event → Bool
is_cleanup unmounted = true
is_cleanup url_changed = true
is_cleanup _ = false

-- A reconnection that was pending is cleared by the cleanup, which a new address does not undo.
cleaned :
    (e : Event) (s : Connection)
    → is_cleanup e ≡ true
    → s.listening ≡ true
    → IsShut (handle e s) × (maybe s.reconnect_timeout none (handle e s).timers ≡ none)
unfolding handle run_effect connect_web_socket close_web_socket set_ready emit
cleaned unmounted s c h = ground (arith, h, cleanup-closes s)
cleaned url_changed s c h = ground (arith, h, cleanup-closes s)
cleaned _ s c h = cc c

-- An unmount or a change of the address of a terminal that listens clears the reconnection that was
-- pending and marks the terminal as closed; that mark stays, and whatever follows, a close of a
-- socket then changes no current socket and starts no reconnection, the socket of a later address
-- included. It does not speak of a close that came before and still awaits its check of the session.
pub closed-IsQuiet :
    (e : Event) (es : List Event) (s : Connection) (i : ℕ)
    → is_cleanup e ≡ true
    → s.listening ≡ true
    → let t = run (e ∷ es) s in
      (t.is_manually_closed ≡ true)
      × IsQuiet t (handle (socket_closed i) t)
      × (maybe s.reconnect_timeout none (handle e s).timers ≡ none)
unfolding run
closed-IsQuiet e es s i c h =
    let (shut, cleared) = cleaned e s c h in
    let stays = run-IsShut es (handle e s) shut in
    (stays, close-IsQuiet i (run es (handle e s)) stays, cleared)
