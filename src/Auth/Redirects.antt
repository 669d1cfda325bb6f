-- ===== src/Auth/Redirects.antt =====
-- The session event of frontend/src/features/auth/sessionEvents.ts and the redirects of
-- AuthProvider.tsx.
use terminal_hub.Common.{
  ℕ, ◌+◌, ◌≡◌, ◌≤◌, Bool, true, false, Option, none, some, List, [], ◌∷◌, Text, codes,
  if◌then◌else◌, text_eq_refl, arith, not, ◌&&◌, ◌++◌,
}
use terminal_hub.Auth.Provider.{
  Location, at, Effect, redirected, login_failed, Auth, initial, check_auth, login_answered,
  login_checked, went_home, is_login, handle_session_invalid, protected_route, login_page, rendered,
  Event, status_answered, status_of_login, login_ended, login_goes_home, logout_ended,
  session_invalid, render, opened, handle, run, logged_out, api_fetch,
}

abbrev is_redirect : Effect → ℕ
is_redirect redirected = 1
is_redirect (login_failed message) = 0

-- the redirects of the session event
unfoldable pub redirects : List Effect → ℕ
redirects [] = 0
redirects (e ∷ log) = is_redirect e + redirects log

-- an answer that says that the user is logged in
abbrev pub admits : Option (Bool × Option Text) → ℕ
admits none = 0
admits (some (true, name)) = 1
admits (some (false, name)) = 0

-- the events that end a session of the user or begin one
unfoldable pub renewals : List Event → ℕ
renewals [] = 0
renewals (status_answered answer ∷ es) = admits answer + renewals es
renewals (status_of_login answer ∷ es) = admits answer + renewals es
renewals (logout_ended ∷ es) = 1 + renewals es
renewals (login_ended ok message ∷ es) = renewals es
renewals (login_goes_home ∷ es) = renewals es
renewals (session_invalid ∷ es) = renewals es
renewals (render ∷ es) = renewals es
renewals (opened location ∷ es) = renewals es

abbrev pub flag : Bool → ℕ
flag b = if b then 1 else 0

renewals-cons : (e : Event) (es : List Event) → renewals (e ∷ es) ≡ renewals (e ∷ []) + renewals es
unfolding renewals
renewals-cons (status_answered answer) es = omega arith
renewals-cons (status_of_login answer) es = omega arith
renewals-cons logout_ended es = omega arith
renewals-cons (login_ended ok message) es = omega arith
renewals-cons login_goes_home es = omega arith
renewals-cons session_invalid es = omega arith
renewals-cons render es = omega arith
renewals-cons (opened location) es = omega arith

module _ (parse_path : Text → Location) where
  handle-redirects :
      (e : Event) (s : Auth) (n : ℕ)
      → redirects s.log ≤ n + flag s.has_redirected
      → redirects (handle parse_path e s).log
        ≤ n + renewals (e ∷ []) + flag (handle parse_path e s).has_redirected
  unfolding handle renewals redirects check_auth login_answered login_checked went_home logged_out
      handle_session_invalid rendered protected_route login_page
  handle-redirects (status_answered none) s n h = ground (arith, h)
  handle-redirects (status_answered (some (true, name))) s n h = ground (arith, h)
  handle-redirects (status_answered (some (false, name))) s n h = ground (arith, h)
  handle-redirects (status_of_login none) s n h = ground (arith, h)
  handle-redirects (status_of_login (some (true, name))) s n h = ground (arith, h)
  handle-redirects (status_of_login (some (false, name))) s n h = ground (arith, h)
  handle-redirects (login_ended true message) s n h = ground (arith, h)
  handle-redirects (login_ended false message) s n h = ground (arith, h)
  handle-redirects login_goes_home s n h = ground (arith, h)
  handle-redirects logout_ended s n h = ground (arith, h)
  handle-redirects session_invalid s n h = ground (arith, h)
  handle-redirects render s n h = ground (arith, h)
  handle-redirects (opened location) s n h = ground (arith, h)

  redirects-run :
      (es : List Event) (s : Auth) (n : ℕ)
      → redirects s.log ≤ n + flag s.has_redirected
      → redirects (run parse_path es s).log
        ≤ n + renewals es + flag (run parse_path es s).has_redirected
  unfolding run renewals
  redirects-run [] s n h = omega arith
  redirects-run (e ∷ es) s n h =
      let rest =
        redirects-run es (handle parse_path e s) (n + renewals (e ∷ []))
          (handle-redirects e s n h) in
      ground (arith, rest, renewals-cons e es)

  upper :
      (es : List Event) (location : Location)
      → redirects (run parse_path es (initial location)).log ≤ 1 + renewals es
  upper es location =
      ground (arith, redirects-run es (initial location) 0 (unfold redirects in omega arith))

  -- whether the next session event redirects
  abbrev pub is_due : Auth → Bool
  is_due s = not (is_login s.location) && not s.has_redirected

  -- what a session event makes of the state: one redirect, with the page that was left, or none
  abbrev pub IsRedirected : Auth → Auth → Type 0
  IsRedirected s t =
      (redirects t.log ≡ flag (is_due s) + redirects s.log)
      × (is_due t ≡ false)
      × (t.location ≡ (if is_due s then at (codes "/login") else s.location))
      × (t.from ≡ (
          if is_due s
          then some (s.location.pathname ++ s.location.search ++ s.location.hash)
          else s.from))
      × (t.is_authenticated ≡ false)

  invalid-IsRedirected : (s : Auth) → IsRedirected s (handle parse_path session_invalid s)
  unfolding handle handle_session_invalid redirects
  invalid-IsRedirected s = ground arith

  -- However many requests are refused, by the server or by a socket, and whatever the user does, the
  -- session event redirects to the login at most once, and once more for every answer that says that
  -- the user is logged in and for every logout. A session event logs the user out, and it does
  -- redirect, once, keeping the page that was left, if the user is not at the login and was not
  -- redirected since; the next one then does not.
  pub run-redirects :
      (es : List Event) (location : Location)
      → let s = run parse_path es (initial location) in
        (redirects s.log ≤ 1 + renewals es) × IsRedirected s (handle parse_path session_invalid s)
  run-redirects es location =
      (upper es location, invalid-IsRedirected (run parse_path es (initial location)))

  -- A response with status 401 to a call that does not ask to be left alone ends at the login,
  -- whatever page is shown, once it is rendered: the user is logged out, and no page waits.
  pub unauthorized-at_login :
      (s : Auth)
      → let t = rendered parse_path (run parse_path (api_fetch 401 false) s) in
        (is_login t.location ≡ true)
        × (t.is_authenticated ≡ false)
        × (t.username ≡ none)
        × (t.loading ≡ false)
  unfolding run handle api_fetch handle_session_invalid rendered protected_route login_page
  unauthorized-at_login s = ground (arith, text_eq_refl (codes "/login"))
