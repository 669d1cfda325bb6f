-- ===== src/Auth/Refused.antt =====
-- Both ways to the session event: apiFetch of shared/http/client.ts, and a terminal's socket whose
-- check of the session fails (features/terminal/Terminal.tsx).
use terminal_hub.Common.{ℕ, ◌≡◌, true, false, none, some, List, [], ◌∷◌, ◌++◌, Text, arith}
use terminal_hub.Connection.State.{Connection}
use terminal_hub.Connection.State
use terminal_hub.Connection.Flow.{
  reply, should_redirect_to_login, after_auth_check, redirect_to_login,
}
use terminal_hub.Connection.Trace.{auth_replied}
use terminal_hub.Connection.Trace
use terminal_hub.Auth.Provider.{
  Location, Auth, is_login, rendered, run, Event, session_invalid, api_fetch,
}
use terminal_hub.Auth.Redirects.{unauthorized-at_login}

-- the session events among the calls that a terminal makes, newest first
unfoldable pub session_events : List State.Effect → List Event
session_events [] = []
session_events (State.Effect.session_invalid ∷ log) = session_events log ++ (session_invalid ∷ [])
session_events (_ ∷ log) = session_events log

-- logged out, at the login, with no page that waits
abbrev pub IsOut : Auth → Type 0
IsOut t =
    (is_login t.location ≡ true)
    × (t.is_authenticated ≡ false)
    × (t.username ≡ none)
    × (t.loading ≡ false)

module _ (parse_path : Text → Location) where
  -- Wherever the user is, both a response with status 401 to a call that does not ask to be left alone,
  -- and a terminal's socket that never opened and whose check of the session finds none, end at the
  -- login, once it is rendered: the user is logged out there and no page waits for the server. The
  -- terminal has no reconnection pending then.
  pub refused-IsOut :
      (s : Auth) (c : Connection) (i : ℕ)
      → c.checking i ≡ true
      → let closed = Trace.handle (auth_replied i (reply (some false))) c in
        IsOut (rendered parse_path (run parse_path (api_fetch 401 false) s))
        × (closed.reconnect_timeout ≡ none)
        × ((calls : List State.Effect) × (closed.log ≡ calls ++ c.log)
            × IsOut (rendered parse_path (run parse_path (session_events calls) s)))
  unfolding Trace.handle should_redirect_to_login after_auth_check redirect_to_login session_events
      api_fetch
  refused-IsOut s c i h = (
    unauthorized-at_login parse_path s,
    ground (arith, h),
    (
      State.Effect.session_invalid ∷ State.Effect.toast_dismiss ∷ [],
      ground (arith, h),
      unauthorized-at_login parse_path s,
    ),
  )
