-- ===== src/Tests/Auth.antt =====
-- A user who is logged in, refused, and logged in again.
use terminal_hub.Common.{◌++◌, ◌≡◌, ◌≤◌, ◌+◌, true, false, some, none, List, [], ◌∷◌, codes, refl}
use terminal_hub.Auth.Provider.{
  Auth, at, initial, rendered, run, api_fetch, Event, status_answered, session_invalid, render,
}
use terminal_hub.Auth.Provider
use terminal_hub.Auth.Redirects.{IsRedirected, redirects, renewals, run-redirects}
use terminal_hub.Auth.Refused.{IsOut, session_events, refused-IsOut}
use terminal_hub.Connection.State.{Connection}
use terminal_hub.Connection.State
use terminal_hub.Connection.Flow.{reply, handle_socket_close}
use terminal_hub.Connection.Handlers.{on_close}
use terminal_hub.Connection.Trace.{auth_replied, socket_closed, mounted}
use terminal_hub.Connection.Trace

abbrev refused_twice : List Event
refused_twice =
    status_answered (some (true, some (codes "u")))
    ∷ session_invalid
    ∷ render
    ∷ session_invalid
    ∷ []

abbrev files_page : Auth
files_page = record (initial (at (codes "/files"))) { is_authenticated = true; loading = false }

run-redirects_example :
    let s = run at refused_twice (initial (at (codes "/crons"))) in
    (redirects s.log ≤ 1 + renewals refused_twice)
    × IsRedirected at s (Provider.handle at session_invalid s)
run-redirects_example = run-redirects at refused_twice (at (codes "/crons"))

abbrev never_opened : Connection
never_opened = Trace.run (socket_closed 0 ∷ []) mounted

refused-IsOut_example :
    let closed = Trace.handle (auth_replied 0 (reply (some false))) never_opened in
    IsOut (rendered at (run at (api_fetch 401 false) files_page))
    × (closed.reconnect_timeout ≡ none)
    × ((calls : List State.Effect) × (closed.log ≡ calls ++ never_opened.log)
        × IsOut (rendered at (run at (session_events calls) files_page)))
refused-IsOut_example =
    refused-IsOut at files_page never_opened 0
      (unfold Trace.run Trace.handle mounted on_close handle_socket_close State.set_ready in refl)
