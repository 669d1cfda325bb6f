-- ===== src/Connection/Single.antt =====
-- The live sockets of Terminal.tsx.
use terminal_hub.Common.{
  ℕ, ◌+◌, ◌≡◌, true, false, Option, none, some, List, [], ◌∷◌, arith, inl, inr, Option-cases,
  Bool-cases, All,
}
use terminal_hub.Connection.State.{
  Timer, Connection, opened, closed, reconnect, error_grace, tui_refresh, focus_later, update,
  is_current, is_connecting, is_live, set_timeout, emit, set_ready, close_web_socket,
}
use terminal_hub.Connection.Flow.{
  connect_web_socket, schedule_reconnect, begin_reconnect_flow, clear_error_close_grace_timeout,
  close_socket_after_error_grace, schedule_error_close_fallback, after_close, redirect_to_login,
  after_auth_check, handle_socket_close,
}
use terminal_hub.Connection.Handlers.{
  Dimensions, send_resize_to, trigger_tui_refresh, finish_tui_refresh, focus_terminal, announce,
  on_open, on_close, on_error, force_close, force_reconnect_for_reason, handle_hidden,
  handle_visible, handle_resume, send_input, detach, cleanup, run_effect, initial,
}
use terminal_hub.Connection.Trace.{
  Event, fire, handle, run, mounted, socket_opened, socket_closed, socket_failed, timer_fired,
  auth_replied, page_hidden, page_visible, page_resumed, typed, unmounted, url_changed,
}

abbrev pub IsSingle : Connection → Type 0
IsSingle s = (j : ℕ) → is_live (s.sockets j).ready ≡ true → is_current j s.ws ≡ true

connect-IsSingle : (k : ℕ) (s : Connection) → IsSingle s → IsSingle (connect_web_socket k s)
unfolding connect_web_socket emit
connect-IsSingle k s v j l = ground (arith, v j)

close-IsSingle : (i : ℕ) (s : Connection) → IsSingle s → IsSingle (close_web_socket i s)
unfolding close_web_socket set_ready emit
close-IsSingle i s v j l = ground (arith, v j)

begin-IsSingle : (k : ℕ) (s : Connection) → IsSingle s → IsSingle (begin_reconnect_flow k s)
unfolding begin_reconnect_flow schedule_reconnect emit set_timeout
begin-IsSingle k s v j l = ground (arith, v j)

-- A socket that opens was connecting, and so it is the current one.
open-IsSingle :
    (i : ℕ) (dims : Dimensions) (s : Connection)
    → is_connecting (s.sockets i).ready ≡ true
    → IsSingle s
    → IsSingle (on_open i dims (set_ready i opened s))
unfolding on_open announce trigger_tui_refresh send_resize_to clear_error_close_grace_timeout
    close_web_socket set_ready emit set_timeout
open-IsSingle i none s c v j l = ground (arith, v j, v i)
open-IsSingle i (some (cols, rows)) s c v j l = ground (arith, v j, v i)

closed-IsSingle :
    (i : ℕ) (s : Connection) → IsSingle s → IsSingle (on_close i (set_ready i closed s))
unfolding on_close handle_socket_close after_close begin_reconnect_flow schedule_reconnect emit
    set_timeout clear_error_close_grace_timeout set_ready
closed-IsSingle i s v j l = ground (arith, v j)

fire-IsSingle : (t : Timer) (s : Connection) → IsSingle s → IsSingle (fire t s)
unfolding fire close_socket_after_error_grace finish_tui_refresh focus_terminal emit
fire-IsSingle (reconnect k delay) s v j l =
    connect-IsSingle k
      (record s { reconnect_timeout = none; reconnect_attempts = s.reconnect_attempts + 1 }) v j l
fire-IsSingle (error_grace i) s v j l = ground (arith, v j, close-IsSingle i s v j)
fire-IsSingle (tui_refresh i cols rows) s v j l = ground (arith, v j)
fire-IsSingle (focus_later i) s v j l = ground (arith, v j)

force-IsSingle :
    (now : ℕ) (s : Connection) → IsSingle s → IsSingle (force_reconnect_for_reason now false s)
unfolding force_reconnect_for_reason force_close close_web_socket begin_reconnect_flow
    schedule_reconnect set_ready emit set_timeout
force-IsSingle now s v j l = ground (arith, v j)

cleanup-IsSingle : (s : Connection) → IsSingle s → IsSingle (cleanup s)
unfolding cleanup detach clear_error_close_grace_timeout close_web_socket set_ready emit
cleanup-IsSingle s v j l = ground (arith, v j)

-- An event in which no `close` throws.
abbrev pub IsCalm : Event → Type 0
IsCalm (page_visible _ throws) = throws ≡ false
IsCalm (page_resumed _ throws) = throws ≡ false
IsCalm _ = Unit

pub handle-IsSingle : (e : Event) (s : Connection) → IsCalm e → IsSingle s → IsSingle (handle e s)
unfolding handle
handle-IsSingle (socket_opened i dims) s c v j l =
    elim (Bool-cases (is_connecting (s.sockets i).ready)) [
      | inl connects ↦ ground (arith, open-IsSingle i dims s connects v j)
      | inr other ↦ ground (arith, v j)
    ]
handle-IsSingle (socket_closed i) s c v j l = ground (arith, v j, closed-IsSingle i s v j)
handle-IsSingle (socket_failed i) s c v j l =
    unfold on_error schedule_error_close_fallback clear_error_close_grace_timeout set_timeout in
    ground (arith, v j)
handle-IsSingle (timer_fired n) s c v j l = elim (Option-cases (s.timers n)) [
  | inl unset ↦ ground (arith, v j)
  | inr (t, set) ↦
      ground (arith, fire-IsSingle t (record s { timers = update s.timers n none }) v j)
]
handle-IsSingle (auth_replied i r) s c v j l =
    unfold after_auth_check after_close redirect_to_login emit in
    ground (
      arith,
      v j,
      begin-IsSingle (s.sockets i).maker (record s { checking = update s.checking i false }) v j,
    )
handle-IsSingle (page_hidden now) s c v j l = unfold handle_hidden in ground (arith, v j)
handle-IsSingle (page_visible now throws) s c v j l =
    unfold handle_visible in
    ground (arith, v j, c, force-IsSingle now (record s { last_hidden_at = none }) v j)
handle-IsSingle (page_resumed now throws) s c v j l =
    unfold handle_resume in ground (arith, v j, c, force-IsSingle now s v j)
handle-IsSingle (typed text) s c v j l = unfold send_input emit in ground (arith, v j)
handle-IsSingle unmounted s c v j l = ground (arith, v j, cleanup-IsSingle s v j)
handle-IsSingle url_changed s c v j l =
    let t = cleanup s in
    unfold run_effect in
    ground (
      arith,
      v j,
      connect-IsSingle (t.effect_run + 1)
          (record t { effect_run = t.effect_run + 1; listening = true }) (cleanup-IsSingle s v) j,
    )

run-IsSingle : (es : List Event) (s : Connection) → All IsCalm es → IsSingle s → IsSingle (run es s)
unfolding run
run-IsSingle [] s c v = v
run-IsSingle (e ∷ es) s c v = run-IsSingle es (handle e s) c.1 (handle-IsSingle e s c.0 v)

is_current-some : (j : ℕ) (o : Option ℕ) → is_current j o ≡ true → o ≡ some j
is_current-some j none h = cc
is_current-some j (some i) h = ground (arith, h)

pub mounted-IsSingle : IsSingle mounted
unfolding mounted run_effect
mounted-IsSingle =
    connect-IsSingle 1 (record initial { effect_run = 1; listening = true })
      (unfold initial in λ i e. cc)

-- Whatever happens to a mounted terminal, a change of its address included, every socket that
-- connects or is open is the current one, so that there is one at most, where no call of `close`
-- throws.
pub run-live :
    (es : List Event) (j : ℕ)
    → All IsCalm es
    → is_live ((run es mounted).sockets j).ready ≡ true
    → (run es mounted).ws ≡ some j
run-live es j c l =
    is_current-some j (run es mounted).ws (run-IsSingle es mounted c mounted-IsSingle j l)
