-- ===== src/Auth/Form.antt =====
-- The form of frontend/src/features/auth/LoginPage.tsx with the provider whose `login` it awaits:
-- `handleSubmit` is cut at the three awaits of `login`. One form is followed: what a login does to the
-- form of a page that was left has no effect.
use terminal_hub.Common.{
  ℕ, ◌+◌, ◌-◌, ◌≡◌, refl, Bool, true, false, ◌||◌, Option, none, some, List, [], ◌∷◌, Text, ◌==◌,
  if◌then◌else◌, is_nil, arith,
}
use terminal_hub.Auth.Provider.{
  Location, Auth, Event, status_answered, status_of_login, login_ended, login_goes_home,
  logout_ended, session_invalid, render, opened, check_auth, login_answered, login_checked,
  went_home, logged_out, handle_session_invalid, protected_route, login_page, rendered,
}
use terminal_hub.Auth.Provider

-- `asked` is the number of logins that await the server, `requests` the log of what they sent.
pub record LoginForm : Type 0 where
  pub auth : Auth
  pub username : Text
  pub password : Text
  pub error : Text
  pub loading : Bool
  pub asked : ℕ
  pub requests : List (Text × Text)

abbrev pub new_form : Auth → LoginForm
new_form auth = record {
  auth = auth;
  username = [];
  password = [];
  error = [];
  loading = false;
  asked = 0;
  requests = [];
}

-- `handleSubmit` up to its await
unfoldable pub handle_submit : LoginForm → LoginForm
handle_submit s = record s {
  error = [];
  loading = true;
  asked = s.asked + 1;
  requests = (s.username, s.password) ∷ s.requests;
}

-- The fields are required and the button is disabled while `loading`.
unfoldable pub press_login : LoginForm → LoginForm
unfolding handle_submit
press_login s = if s.loading || is_nil s.username || is_nil s.password then s else handle_submit s

-- `authApi.login` throws, with the message of the error
unfoldable pub login_refused : Text → LoginForm → LoginForm
unfolding login_answered
login_refused message s = if s.asked == 0 then s else record s {
  auth = login_answered false (some message) s.auth;
  asked = s.asked - 1;
  error = message;
  loading = false;
}

-- it does not, and `login` awaits `checkAuth`
unfoldable pub login_accepted : LoginForm → LoginForm
unfolding login_answered
login_accepted s =
    if s.asked == 0
    then s
    else record s { auth = login_answered true none s.auth; asked = s.asked - 1 }

-- `login` goes home and ends
unfoldable pub login_done : LoginForm → LoginForm
unfolding went_home
login_done s =
    if s.auth.homes == 0 then s else record s { auth = went_home s.auth; loading = false }

-- What the user does, how a login goes on, and the other events of the provider.
pub data FormEvent : Type 0 where
  username_typed password_typed refused : Text → FormEvent
  login_pressed accepted done : FormEvent
  checked : Option (Bool × Option Text) → FormEvent
  in_provider : Event → FormEvent

-- the events of the provider that are no steps of a login
unfoldable pub is_other : Event → Bool
is_other (status_answered answer) = true
is_other (status_of_login answer) = false
is_other (login_ended ok message) = false
is_other login_goes_home = false
is_other logout_ended = true
is_other session_invalid = true
is_other render = true
is_other (opened location) = true

module _ (parse_path : Text → Location) where
  unfoldable pub handle_form : FormEvent → LoginForm → LoginForm
  unfolding press_login login_refused login_accepted login_done login_checked Provider.handle
      is_other
  handle_form (username_typed text) s = record s { username = text }
  handle_form (password_typed text) s = record s { password = text }
  handle_form login_pressed s = press_login s
  handle_form (refused message) s = login_refused message s
  handle_form accepted s = login_accepted s
  handle_form (checked answer) s = record s { auth = login_checked answer s.auth }
  handle_form done s = login_done s
  handle_form (in_provider e) s =
      if is_other e then record s { auth = Provider.handle parse_path e s.auth } else s

  unfoldable pub run_form : List FormEvent → LoginForm → LoginForm
  unfolding handle_form
  run_form [] s = s
  run_form (e ∷ es) s = run_form es (handle_form e s)

  -- the logins that run, at whichever await
  abbrev running : LoginForm → ℕ
  running s = s.asked + (s.auth.checks + s.auth.homes)

  abbrev IsLoading : LoginForm → Type 0
  IsLoading s = running s ≡ (if s.loading then 1 else 0)

  other-running :
      (e : Event) (s : Auth)
      → is_other e ≡ true
      → let t = Provider.handle parse_path e s in (t.checks ≡ s.checks) × (t.homes ≡ s.homes)
  unfolding Provider.handle is_other check_auth logged_out handle_session_invalid rendered
      protected_route login_page
  other-running (status_answered none) s h = (refl, refl)
  other-running (status_answered (some (ok, name))) s h = (refl, refl)
  other-running (status_of_login answer) s h = ground (arith, h)
  other-running (login_ended ok message) s h = ground (arith, h)
  other-running login_goes_home s h = ground (arith, h)
  other-running logout_ended s h = (refl, refl)
  other-running session_invalid s h = ground arith
  other-running render s h = ground arith
  other-running (opened location) s h = (refl, refl)

  handle_form-IsLoading :
      (e : FormEvent) (s : LoginForm) → IsLoading s → IsLoading (handle_form e s)
  unfolding handle_form press_login handle_submit login_refused login_accepted login_done
      login_answered login_checked went_home check_auth
  handle_form-IsLoading (username_typed text) s h = h
  handle_form-IsLoading (password_typed text) s h = h
  handle_form-IsLoading login_pressed s h = ground (arith, h)
  handle_form-IsLoading (refused message) s h = ground (arith, h)
  handle_form-IsLoading accepted s h = ground (arith, h)
  handle_form-IsLoading (checked none) s h = ground (arith, h)
  handle_form-IsLoading (checked (some (ok, name))) s h = ground (arith, h)
  handle_form-IsLoading done s h = ground (arith, h)
  handle_form-IsLoading (in_provider e) s h = ground (arith, h, other-running e s.auth)

  run_form-IsLoading :
      (es : List FormEvent) (s : LoginForm) → IsLoading s → IsLoading (run_form es s)
  unfolding run_form
  run_form-IsLoading [] s h = h
  run_form-IsLoading (e ∷ es) s h =
      run_form-IsLoading es (handle_form e s) (handle_form-IsLoading e s h)

  -- Whatever the user does with a form, however its logins are answered and whatever else happens
  -- to the session, one login runs at a time, and the button is disabled exactly while it does.
  run_form-IsLoading_new :
      (auth : Auth) (es : List FormEvent)
      → auth.checks + auth.homes ≡ 0
      → IsLoading (run_form es (new_form auth))
  run_form-IsLoading_new auth es h = run_form-IsLoading es (new_form auth) (ground (arith, h))
