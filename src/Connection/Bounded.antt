-- ===== src/Connection/Bounded.antt =====
-- The timers of Terminal.tsx under every event.
use terminal_hub.Common.{
  ℕ, ◌+◌, ◌≤◌, ◌<◌, ◌≡◌, refl, Bool, true, not, ◌||◌, Option, none, some, ◌∷◌, [], List, ltb, leb,
  if◌then◌else◌, arith, if_elim, maybe_elim,
}
use terminal_hub.Connection.State.{
  Timer, Connection, reconnect, error_grace, tui_refresh, focus_later, update, is_current, is_open,
  is_connecting, is_closed, is_closing, is_live, set_timeout, emit, set_ready, close_web_socket,
}
use terminal_hub.Connection.Flow.{
  max_reconnect_attempts, connect_web_socket, schedule_reconnect, begin_reconnect_flow,
  close_socket_after_error_grace, should_redirect_to_login, after_close, after_auth_check,
  handle_socket_close,
}
use terminal_hub.Connection.Handlers.{
  Dimensions, send_resize_to, trigger_tui_refresh, announce, force_close,
  force_reconnect_for_reason, finish_tui_refresh, focus_terminal, on_open, on_close, on_error,
  handle_hidden, handle_visible, handle_resume, send_input, detach, cleanup, run_effect, is_down,
}
use terminal_hub.Connection.Trace.{
  Event, fire, handle, run, mounted, socket_opened, socket_closed, socket_failed, timer_fired,
  auth_replied, page_hidden, page_visible, page_resumed, typed, unmounted, url_changed,
}
use terminal_hub.Connection.Timing.{
  IsTimed, Timing-clear, Timing-clear_timeout, Timing-schedule, Timing-fire, Timing-reset,
  Timing-set_other,
}

close_web_socket-IsTimed : (i : ℕ) (s : Connection) → IsTimed s → IsTimed (close_web_socket i s)
unfolding close_web_socket set_ready emit
close_web_socket-IsTimed i s v = if_elim IsTimed (is_live (s.sockets i).ready) (λ _. v) (λ _. v)

connect_web_socket-IsTimed : (k : ℕ) (s : Connection) → IsTimed s → IsTimed (connect_web_socket k s)
unfolding connect_web_socket
connect_web_socket-IsTimed k s v =
    maybe_elim IsTimed s.ws (λ _. v)
      (λ i _. if_elim IsTimed (is_live (s.sockets i).ready) (λ _. v) (λ _. v))

schedule_reconnect-IsTimed : (k : ℕ) (s : Connection) → IsTimed s → IsTimed (schedule_reconnect k s)
unfolding schedule_reconnect
schedule_reconnect-IsTimed k s v =
    if_elim IsTimed (leb max_reconnect_attempts s.reconnect_attempts) (λ _. v)
      (λ room. Timing-schedule v k (ground arith))

begin_reconnect_flow-IsTimed :
    (k : ℕ) (s : Connection) → IsTimed s → IsTimed (begin_reconnect_flow k s)
unfolding begin_reconnect_flow
begin_reconnect_flow-IsTimed k s v =
    if_elim IsTimed s.is_reconnecting (λ _. schedule_reconnect-IsTimed k s v)
      (λ _. schedule_reconnect-IsTimed k _ v)

after_close-IsTimed : (k : ℕ) (s : Connection) → IsTimed s → IsTimed (after_close k s)
unfolding after_close
after_close-IsTimed k s v =
    maybe_elim IsTimed s.ws (λ _. begin_reconnect_flow-IsTimed k s v) (λ _ _. v)

after_auth_check-IsTimed :
    (k : ℕ) (b : Bool) (s : Connection) → IsTimed s → IsTimed (after_auth_check k b s)
unfolding after_auth_check
after_auth_check-IsTimed k b s v =
    if_elim IsTimed b (λ _. Timing-clear_timeout v) (λ _. after_close-IsTimed k s v)

handle_socket_close-IsTimed :
    (i : ℕ) (s : Connection) → IsTimed s → IsTimed (handle_socket_close i s)
unfolding handle_socket_close
handle_socket_close-IsTimed i s v =
    if_elim IsTimed (s.is_manually_closed || not (is_current i s.ws)) (λ _. v)
      (λ _.
        if_elim IsTimed (s.sockets i).did_open
          (λ _. after_close-IsTimed (s.sockets i).maker (record s { ws = none }) v) (λ _. v))

on_close-IsTimed : (i : ℕ) (s : Connection) → IsTimed s → IsTimed (on_close i s)
unfolding on_close
on_close-IsTimed i s v =
    handle_socket_close-IsTimed i _ (Timing-clear v s.error_close_grace_timeout)

on_error-IsTimed : (i : ℕ) (s : Connection) → IsTimed s → IsTimed (on_error i s)
unfolding on_error
on_error-IsTimed i s v =
    if_elim IsTimed (is_current i s.ws)
      (λ _. Timing-set_other (error_grace i) refl (Timing-clear v s.error_close_grace_timeout))
      (λ _. v)

trigger_tui_refresh-IsTimed :
    (i : ℕ) (dims : Dimensions) (s : Connection)
    → IsTimed s
    → IsTimed (trigger_tui_refresh i dims s)
unfolding trigger_tui_refresh
trigger_tui_refresh-IsTimed i none s v = v
trigger_tui_refresh-IsTimed i (some (cols, rows)) s v =
    if_elim IsTimed (ltb cols 2 || ltb rows 2) (λ _. v)
      (λ _. Timing-set_other (tui_refresh i cols rows) refl v)

send_resize_to-IsTimed :
    (i : ℕ) (dims : Dimensions) (s : Connection) → IsTimed s → IsTimed (send_resize_to i dims s)
unfolding send_resize_to
send_resize_to-IsTimed i none s v = v
send_resize_to-IsTimed i (some (cols, rows)) s v =
    if_elim IsTimed (is_open (s.sockets i).ready) (λ _. v) (λ _. v)

announce-IsTimed : (i : ℕ) (b : Bool) (s : Connection) → IsTimed s → IsTimed (announce i b s)
unfolding announce set_timeout emit
announce-IsTimed i b s v = if_elim IsTimed b (λ _. Timing-set_other (focus_later i) refl v) (λ _. v)

on_open-IsTimed :
    (i : ℕ) (dims : Dimensions) (s : Connection) → IsTimed s → IsTimed (on_open i dims s)
unfolding on_open
on_open-IsTimed i dims s v =
    if_elim IsTimed (is_current i s.ws)
      (λ _. announce-IsTimed i s.is_reconnecting _ (
        trigger_tui_refresh-IsTimed i dims _ (
          send_resize_to-IsTimed i dims _
            (Timing-reset (Timing-clear v s.error_close_grace_timeout)))))
      (λ _. close_web_socket-IsTimed i s v)

force_close-IsTimed :
    (k i : ℕ) (b : Bool) (s : Connection) → IsTimed s → IsTimed (force_close k i b s)
unfolding force_close
force_close-IsTimed k i b s v =
    if_elim IsTimed b (λ _. begin_reconnect_flow-IsTimed k (record s { ws = none }) v)
      (λ _. close_web_socket-IsTimed i s v)

force_reconnect-IsTimed :
    (now : ℕ) (b : Bool) (s : Connection) → IsTimed s → IsTimed (force_reconnect_for_reason now b s)
unfolding force_reconnect_for_reason
force_reconnect-IsTimed now b s v =
    let t = record s { last_resume_reconnect_at = now } in
    if_elim IsTimed (s.is_manually_closed || ltb now (s.last_resume_reconnect_at + 5000)) (λ _. v)
      (λ _.
        maybe_elim IsTimed s.ws (λ _. begin_reconnect_flow-IsTimed s.effect_run t v)
          (λ i _.
            if_elim IsTimed (is_closed (s.sockets i).ready)
              (λ _. begin_reconnect_flow-IsTimed s.effect_run t v)
              (λ _.
                if_elim IsTimed (is_closing (s.sockets i).ready) (λ _. v)
                  (λ _. force_close-IsTimed s.effect_run i b t v))))

detach-IsTimed : (s : Connection) → IsTimed s → IsTimed (detach s)
unfolding detach
detach-IsTimed s v = Timing-clear (Timing-clear v s.reconnect_timeout) s.error_close_grace_timeout

cleanup-IsTimed : (s : Connection) → IsTimed s → IsTimed (cleanup s)
unfolding cleanup
cleanup-IsTimed s v =
    maybe_elim IsTimed s.ws (λ _. detach-IsTimed s v)
      (λ i _. close_web_socket-IsTimed i (detach s) (detach-IsTimed s v))

fire-IsTimed :
    (h : ℕ) (t : Timer) (s : Connection)
    → IsTimed s
    → s.timers h ≡ some t
    → IsTimed (fire t (record s { timers = update s.timers h none }))
unfolding fire close_socket_after_error_grace finish_tui_refresh focus_terminal
fire-IsTimed h (reconnect k d) s v e = connect_web_socket-IsTimed k _ (Timing-fire v h k d e)
fire-IsTimed h (error_grace i) s v e =
    if_elim IsTimed (s.is_manually_closed || not (is_current i s.ws)) (λ _. Timing-clear v (some h))
      (λ _.
        if_elim IsTimed (is_live (s.sockets i).ready)
          (λ _.
            close_web_socket-IsTimed i (record s { timers = update s.timers h none })
              (Timing-clear v (some h)))
          (λ _. Timing-clear v (some h)))
fire-IsTimed h (tui_refresh i cols rows) s v e =
    if_elim IsTimed
      (s.is_manually_closed || not (is_current i s.ws) || not (is_open (s.sockets i).ready))
      (λ _. Timing-clear v (some h)) (λ _. Timing-clear v (some h))
fire-IsTimed h (focus_later i) s v e =
    if_elim IsTimed (s.is_manually_closed || not (is_current i s.ws)) (λ _. Timing-clear v (some h))
      (λ _. Timing-clear v (some h))

resume-IsTimed :
    (b : Bool) (now : ℕ) (c : Bool) (s t : Connection)
    → IsTimed s
    → IsTimed t
    → IsTimed (if b then force_reconnect_for_reason now c s else t)
resume-IsTimed b now c s t v w = if_elim IsTimed b (λ _. force_reconnect-IsTimed now c s v) (λ _. w)

run_effect-IsTimed : (s : Connection) → IsTimed s → IsTimed (run_effect s)
unfolding run_effect
run_effect-IsTimed s v =
    connect_web_socket-IsTimed (s.effect_run + 1)
      (record s { effect_run = s.effect_run + 1; listening = true }) v

handle-IsTimed : (e : Event) (s : Connection) → IsTimed s → IsTimed (handle e s)
unfolding handle handle_visible handle_hidden handle_resume send_input run_effect set_ready
handle-IsTimed (socket_opened i dims) s v =
    if_elim IsTimed (is_connecting (s.sockets i).ready) (λ _. on_open-IsTimed i dims _ v) (λ _. v)
handle-IsTimed (socket_closed i) s v =
    if_elim IsTimed (is_closed (s.sockets i).ready) (λ _. v) (λ _. on_close-IsTimed i _ v)
handle-IsTimed (socket_failed i) s v =
    if_elim IsTimed (is_closed (s.sockets i).ready) (λ _. v) (λ _. on_error-IsTimed i _ v)
handle-IsTimed (timer_fired h) s v =
    maybe_elim IsTimed (s.timers h) (λ _. v) (λ t e. fire-IsTimed h t s v e)
handle-IsTimed (auth_replied i r) s v =
    if_elim IsTimed (s.checking i)
      (λ _. after_auth_check-IsTimed (s.sockets i).maker (should_redirect_to_login r) _ v) (λ _. v)
handle-IsTimed (page_hidden now) s v = if_elim IsTimed s.listening (λ _. v) (λ _. v)
handle-IsTimed (page_visible now b) s v =
    if_elim IsTimed s.listening
      (λ _.
        maybe_elim IsTimed s.last_hidden_at (λ _. v)
          (λ since _.
            let t = record s { last_hidden_at = none } in
            resume-IsTimed (leb (since + 30000) now || is_down s) now b t t v v))
      (λ _. v)
handle-IsTimed (page_resumed now b) s v =
    if_elim IsTimed s.listening (λ _. resume-IsTimed (is_down s) now b s s v v) (λ _. v)
handle-IsTimed (typed text) s v =
    maybe_elim IsTimed s.ws (λ _. v)
      (λ i _. if_elim IsTimed (is_open (s.sockets i).ready) (λ _. v) (λ _. v))
handle-IsTimed unmounted s v = if_elim IsTimed s.listening (λ _. cleanup-IsTimed s v) (λ _. v)
handle-IsTimed url_changed s v =
    if_elim IsTimed s.listening (λ _. run_effect-IsTimed (cleanup s) (cleanup-IsTimed s v)) (λ _. v)

run-IsTimed : (es : List Event) (s : Connection) → IsTimed s → IsTimed (run es s)
unfolding run
run-IsTimed [] s v = v
run-IsTimed (e ∷ es) s v = run-IsTimed es (handle e s) (handle-IsTimed e s v)

mounted-IsTimed : IsTimed mounted
unfolding mounted run_effect connect_web_socket
mounted-IsTimed = record {
  fresh = λ h l. refl;
  unique = λ h k d e. cc;
  capped = omega arith;
  pending = λ h k d e. cc;
  delays = λ h k d e. cc;
}

-- What holds of a callback that is set, if it is a reconnection.
pub IsBacked : Option ℕ → ℕ → ℕ → Option Timer → Type 0
IsBacked timeout attempts h (some (reconnect k d)) =
    (timeout ≡ some h) × (attempts < max_reconnect_attempts) × (1000 ≤ d) × (d ≤ 30000)
IsBacked timeout attempts h _ = attempts ≤ max_reconnect_attempts

backed :
    (s : Connection) (h : ℕ) (o : Option Timer)
    → IsTimed s
    → s.timers h ≡ o
    → IsBacked s.reconnect_timeout s.reconnect_attempts h o
unfolding IsBacked
backed s h none v e = v.capped
backed s h (some (reconnect k d)) v e =
    (v.unique h k d e, v.pending h k d e, (v.delays h k d e).0, (v.delays h k d e).1)
backed s h (some (error_grace _)) v e = v.capped
backed s h (some (tui_refresh _ _ _)) v e = v.capped
backed s h (some (focus_later _)) v e = v.capped

-- Whatever happens to a mounted terminal, in whatever order: at most ten reconnection attempts are
-- counted; a reconnection is pending only while fewer than ten are, at most one is pending (the one
-- in the ref), and its delay is at least a second and at most thirty.
pub run-IsBacked-mounted :
    (es : List Event) (h : ℕ)
    → let s = run es mounted in IsBacked s.reconnect_timeout s.reconnect_attempts h (s.timers h)
run-IsBacked-mounted es h =
    backed (run es mounted) h _ (run-IsTimed es mounted mounted-IsTimed) refl
