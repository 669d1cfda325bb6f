-- ===== src/Connection/State.antt =====
-- The state that frontend/src/features/terminal/Terminal.tsx keeps in its refs, and what of the
-- browser it works on: sockets, timers, and the calls that it makes, newest first, as a log.
use terminal_hub.Common.{
  ℕ, ◌+◌, Bool, true, false, Option, none, some, List, ◌∷◌, Text, ◌==◌, if◌then◌else◌,
}

-- `WebSocket.readyState`
pub data ReadyState : Type 0 where
  connecting opened closing closed : ReadyState

-- A socket, the effect run (one for each `wsUrl`) that made it, and the `didOpen` of its closure.
pub record Socket : Type 0 where
  pub ready : ReadyState
  pub did_open : Bool
  pub maker : ℕ

-- A callback that `setTimeout` keeps, with what its closure holds: the effect run and the delay, or
-- the socket.
pub data Timer : Type 0 where
  reconnect : ℕ → ℕ → Timer
  error_grace : ℕ → Timer
  tui_refresh : ℕ → ℕ → ℕ → Timer
  focus_later : ℕ → Timer

-- What the handlers do outside their refs.
pub data Effect : Type 0 where
  new_socket : ℕ → Effect
  close_socket : ℕ → Effect
  resize : ℕ → ℕ → Effect
  send_resize : ℕ → ℕ → ℕ → Effect
  send_data : ℕ → Text → Effect
  write_lost : Effect
  toast_loading : ℕ → Effect
  toast_failed toast_reconnected toast_dismiss session_invalid focused : Effect

-- `checking i` holds while the close handler of socket `i` awaits the answer of /auth/status.
-- `effect_run` counts the runs of the effect, and `listening` holds while the latest one has its
-- handlers on window and document.
pub record Connection : Type 0 where
  pub ws : Option ℕ
  pub sockets : ℕ → Socket
  pub next_socket : ℕ
  pub reconnect_attempts : ℕ
  pub reconnect_timeout : Option ℕ
  pub is_reconnecting : Bool
  pub is_manually_closed : Bool
  pub error_close_grace_timeout : Option ℕ
  pub last_hidden_at : Option ℕ
  pub last_resume_reconnect_at : ℕ
  pub timers : ℕ → Option Timer
  pub next_handle : ℕ
  pub checking : ℕ → Bool
  pub effect_run : ℕ
  pub listening : Bool
  pub log : List Effect

abbrev pub update {ℓ} : {A : Type ℓ} → (ℕ → A) → ℕ → A → ℕ → A
update f i v j = if i == j then v else f j

-- `x === wsRef.current` for a socket `x`
abbrev pub is_current : ℕ → Option ℕ → Bool
is_current i none = false
is_current i (some j) = i == j

abbrev pub is_open : ReadyState → Bool
is_open opened = true
is_open _ = false

abbrev pub is_connecting : ReadyState → Bool
is_connecting connecting = true
is_connecting _ = false

abbrev pub is_closing : ReadyState → Bool
is_closing closing = true
is_closing _ = false

abbrev pub is_closed : ReadyState → Bool
is_closed closed = true
is_closed _ = false

-- `readyState === OPEN || readyState === CONNECTING`
abbrev pub is_live : ReadyState → Bool
is_live connecting = true
is_live opened = true
is_live _ = false

-- `clearTimeout(ref.current)` if the ref holds a handle
abbrev pub clear_handle : Option ℕ → (ℕ → Option Timer) → ℕ → Option Timer
clear_handle none timers = timers
clear_handle (some h) timers = update timers h none

-- `setTimeout`: the new handle is `next_handle`.
unfoldable pub set_timeout : Timer → Connection → Connection
set_timeout t s = record s {
  timers = update s.timers s.next_handle (some t);
  next_handle = s.next_handle + 1;
}

unfoldable pub emit : Effect → Connection → Connection
emit e s = record s { log = e ∷ s.log }

unfoldable pub set_ready : ℕ → ReadyState → Connection → Connection
set_ready i r s = record s { sockets = update s.sockets i (record (s.sockets i) { ready = r }) }

-- `socket.close()`: a live socket begins to close.
unfoldable pub close_web_socket : ℕ → Connection → Connection
unfolding emit set_ready
close_web_socket i s =
    let t = emit (close_socket i) s in
    if is_live (s.sockets i).ready then set_ready i closing t else t
