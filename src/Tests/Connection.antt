-- ===== src/Tests/Connection.antt =====
-- Lives of a terminal's connection.
use terminal_hub.Common.{◌+◌, ◌≡◌, refl, true, none, arith, some, List, [], ◌∷◌, codes, maybe}
use terminal_hub.Connection.Flow.{thrown}
use terminal_hub.Connection.Trace.{
  Event, run, mounted, fire, socket_opened, socket_closed, timer_fired, auth_replied, url_changed,
  handle,
}
use terminal_hub.Connection.State.{Connection, connecting}
use terminal_hub.Connection.Handlers.{on_open, on_close}
use terminal_hub.Connection.Recovery.{IsQuiet, lost-connects}
use terminal_hub.Connection.Closed.{closed-IsQuiet}
use terminal_hub.Connection.Single.{run-live}
use terminal_hub.Connection.Messages.{Step, happened, received, blank, run-messages}
use terminal_hub.Connection.Messages
use terminal_hub.Connection.Resize
use terminal_hub.Connection.Bounded.{IsBacked, run-IsBacked-mounted}

-- opened, lost, tried again, refused, checked
abbrev lost_twice : List Event
lost_twice =
    socket_opened 0 (some (80, 24))
    ∷ socket_closed 0
    ∷ timer_fired 1
    ∷ socket_closed 1
    ∷ auth_replied 1 thrown
    ∷ []

run-IsBacked-mounted_example :
    let s = run lost_twice mounted in
    IsBacked s.reconnect_timeout s.reconnect_attempts 4 (s.timers 4)
run-IsBacked-mounted_example = run-IsBacked-mounted lost_twice 4

abbrev live : Connection
live = run (socket_opened 0 (some (80, 24)) ∷ []) mounted

lost-connects_example :
    let t = run (socket_closed 0 ∷ timer_fired live.next_handle ∷ []) live in
    (t.ws ≡ some live.next_socket)
    × ((t.sockets live.next_socket).ready ≡ connecting)
    × (t.reconnect_attempts ≡ live.reconnect_attempts + 1)
    × (t.reconnect_timeout ≡ none)
unfolding run handle mounted on_open
lost-connects_example = lost-connects 0 live refl refl refl refl (omega arith)

abbrev tired : Connection
tired = record live { reconnect_attempts = 10 }

-- The address changes, and the new socket opens and is lost.
closed-IsQuiet_example :
    let t = run (url_changed ∷ socket_opened 1 none ∷ []) live in
    (t.is_manually_closed ≡ true)
    × IsQuiet t (handle (socket_closed 1) t)
    × (maybe live.reconnect_timeout none (handle url_changed live).timers ≡ none)
unfolding run handle mounted on_open
closed-IsQuiet_example = closed-IsQuiet url_changed (socket_opened 1 none ∷ []) live 1 refl refl

-- opened, lost, tried again
abbrev lost_once : List Event
lost_once = socket_opened 0 (some (80, 24)) ∷ socket_closed 0 ∷ timer_fired 1 ∷ []

run-live_example : (run lost_once mounted).ws ≡ some 1
unfolding run handle mounted on_open on_close fire
run-live_example = run-live lost_once 1 (tt, (tt, (tt, tt))) refl

abbrev dragged : List Resize.Event
dragged =
    Resize.container_resized
    ∷ Resize.container_resized
    ∷ Resize.resize_timer 1 (some (some (80, 24))) (some (80, 24))
    ∷ Resize.container_resized
    ∷ []

-- a message of each of two sockets, with a loss in between
abbrev steps : List Step
steps =
    happened (socket_opened 0 (some (80, 24)))
    ∷ received 0 (codes "one")
    ∷ happened (socket_closed 0)
    ∷ happened (timer_fired 1)
    ∷ happened (socket_opened 1 none)
    ∷ received 1 (codes "two")
    ∷ []

run-messages_example : (Messages.run steps blank).written ≡ codes "two" ∷ codes "one" ∷ []
run-messages_example =
    run-messages steps
      (unfold handle mounted on_open on_close fire in (tt, (refl, (tt, (tt, (tt, (refl, tt)))))))
