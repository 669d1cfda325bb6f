-- ===== src/Auth/Login.antt =====
-- Where a login of frontend/src/features/auth leads.
use terminal_hub.Common.{
  ◌≡◌, Bool, true, false, Option, none, some, List, [], ◌∷◌, ◌++◌, Text, codes, if◌then◌else◌,
  text_eq, arith,
}
use terminal_hub.Auth.Provider.{
  Location, at, Auth, check_auth, login_answered, login_checked, went_home, protected_route,
  login_page, rendered, Event, status_of_login, login_ended, login_goes_home, render, handle, run,
}

-- the events of a login that the server accepts, with a render in between or not
abbrev pub login_events : Option Text → Option Text → Bool → List Event
login_events message name between =
    login_ended true message
    ∷ status_of_login (some (true, name))
    ∷ ((if between then render ∷ [] else []) ++ (login_goes_home ∷ render ∷ []))

module _ (parse_path : Text → Location) where
  -- A login that the server accepts ends at the home page with the user logged in, whether the login
  -- page is rendered before its last step or not, and whatever page sent the user to the login.
  login-goes_home :
      (message name : Option Text) (between : Bool) (s : Auth)
      → let t = run parse_path (login_events message name between) s in
        (t.location ≡ at (codes "/"))
        × (t.is_authenticated ≡ true)
        × (t.username ≡ name)
        × (t.from ≡ none)
  unfolding run handle check_auth login_answered login_checked went_home rendered protected_route
      login_page text_eq
  login-goes_home message name true s = ground arith
  login-goes_home message name false s = ground arith
