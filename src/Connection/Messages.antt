-- ===== src/Connection/Messages.antt =====
-- `onmessage` of Terminal.tsx: what the sockets of a terminal write to it. `written` are the
-- messages that were written, newest first.
use terminal_hub.Common.{ℕ, ◌≡◌, refl, sym, subst, true, List, [], ◌∷◌, Text, if◌then◌else◌, arith}
use terminal_hub.Connection.State.{Connection, is_current, is_open}
use terminal_hub.Connection.Trace.{Event, mounted}
use terminal_hub.Connection.Trace
use terminal_hub.Connection.Single.{IsCalm, IsSingle, handle-IsSingle, mounted-IsSingle}

pub record Screen : Type 0 where
  pub connection : Connection
  pub written : List Text

abbrev pub blank : Screen
blank = record { connection = mounted; written = [] }

-- an event of the terminal's life, or a message of a socket
pub data Step : Type 0 where
  happened : Event → Step
  received : ℕ → Text → Step

unfoldable pub on_message : ℕ → Text → Screen → Screen
on_message i message s =
    if is_current i s.connection.ws then record s { written = message ∷ s.written } else s

unfoldable pub handle : Step → Screen → Screen
unfolding Trace.handle on_message
handle (happened e) s = record s { connection = Trace.handle e s.connection }
handle (received i message) s = on_message i message s

unfoldable pub run : List Step → Screen → Screen
unfolding handle
run [] s = s
run (e ∷ es) s = run es (handle e s)

-- all that the server sends, on top of what was written
abbrev pub messages : List Step → List Text → List Text
messages [] texts = texts
messages (happened e ∷ es) texts = messages es texts
messages (received i message ∷ es) texts = messages es (message ∷ texts)

-- A browser delivers a message from a socket that is open; no `close` throws.
abbrev pub AreDelivered : List Step → Connection → Type 0
AreDelivered [] s = Unit
AreDelivered (happened e ∷ es) s = IsCalm e × AreDelivered es (Trace.handle e s)
AreDelivered (received i message ∷ es) s = (is_open (s.sockets i).ready ≡ true) × AreDelivered es s

on_message-written :
    (i : ℕ) (message : Text) (s : Screen)
    → is_open (s.connection.sockets i).ready ≡ true
    → IsSingle s.connection
    → on_message i message s ≡ record s { written = message ∷ s.written }
unfolding on_message
on_message-written i message s o v =
    let current : is_current i s.connection.ws ≡ true = v i (ground (arith, o)) in rw current refl

written-messages :
    (es : List Step) (s : Screen)
    → AreDelivered es s.connection
    → IsSingle s.connection
    → (run es s).written ≡ messages es s.written
unfolding run handle
written-messages [] s d v = refl
written-messages (happened e ∷ es) s (c, d) v =
    written-messages es (handle (happened e) s) d (handle-IsSingle e s.connection c v)
written-messages (received i message ∷ es) s (o, d) v =
    subst (λ t. (run es t).written ≡ messages es (message ∷ s.written))
      (sym (on_message-written i message s o v))
      (written-messages es (record s { written = message ∷ s.written }) d v)

-- No output is lost or out of order: through any number of reconnections, a mounted terminal writes
-- every message that the browser delivers from a socket that is open, in the order of their arrival,
-- where no call of `close` throws.
pub run-messages :
    (es : List Step) → AreDelivered es mounted → (run es blank).written ≡ messages es []
run-messages es d = written-messages es blank d mounted-IsSingle
