-- ===== src/Auth/Provider.antt =====
-- AuthProvider.tsx, ProtectedRoute.tsx, LoginPage.tsx and api.ts of frontend/src/features/auth, with
-- apiFetch of shared/http/client.ts. A call of the server is cut at its await: an event is its
-- answer. The router is the location that it holds; how it reads a path that is given as one text
-- is the parameter `parse_path`.
use terminal_hub.Common.{
  ℕ, ◌+◌, ◌-◌, Bool, true, false, not, ◌&&◌, ◌||◌, Option, none, some, List, [], ◌∷◌, ◌++◌, Text,
  codes, ◌==◌, if◌then◌else◌, maybe, text_eq,
}

pub record Location : Type 0 where
  pub pathname : Text
  pub search : Text
  pub hash : Text

abbrev pub at : Text → Location
at path = record { pathname = path; search = []; hash = [] }

-- What is called outside: a redirect of the session event, and the end of a `login` that throws.
pub data Effect : Type 0 where
  redirected : Effect
  login_failed : Option Text → Effect

-- The state of the provider, and the router's location with the `from` of its state. `checks` are
-- the calls of `checkAuth` that a `login` awaits, `homes` the calls of `login` behind them.
pub record Auth : Type 0 where
  pub is_authenticated : Bool
  pub username : Option Text
  pub loading : Bool
  pub has_redirected : Bool
  pub location : Location
  pub from : Option Text
  pub checks : ℕ
  pub homes : ℕ
  pub log : List Effect

abbrev pub initial : Location → Auth
initial location = record {
  is_authenticated = false;
  username = none;
  loading = true;
  has_redirected = false;
  location = location;
  from = none;
  checks = 0;
  homes = 0;
  log = [];
}

-- `checkAuth` behind its await: `none` where the request throws
unfoldable pub check_auth : Option (Bool × Option Text) → Auth → Auth
check_auth none s = record s { is_authenticated = false; username = none; loading = false }
check_auth (some (authenticated, username)) s = record s {
  is_authenticated = authenticated;
  username = username;
  has_redirected = if authenticated then false else s.has_redirected;
  loading = false;
}

-- `login` behind its first await: whether the response is ok, and the message of its body, if any
unfoldable pub login_answered : Bool → Option Text → Auth → Auth
login_answered true message s = record s { checks = s.checks + 1 }
login_answered false message s = record s { log = login_failed message ∷ s.log }

-- the `checkAuth` that a `login` awaits
unfoldable pub login_checked : Option (Bool × Option Text) → Auth → Auth
unfolding check_auth
login_checked answer s =
    if s.checks == 0
    then s
    else record (check_auth answer s) { checks = s.checks - 1; homes = s.homes + 1 }

-- the rest of `login`
unfoldable pub went_home : Auth → Auth
went_home s =
    if s.homes == 0
    then s
    else record s { homes = s.homes - 1; location = at (codes "/"); from = none }

-- `logout` behind its await
unfoldable pub logged_out : Auth → Auth
logged_out s = record s {
  is_authenticated = false;
  username = none;
  has_redirected = false;
  location = at (codes "/login");
  from = none;
}

abbrev pub is_login : Location → Bool
is_login location = text_eq location.pathname (codes "/login")

abbrev pub invalidate : Auth → Auth
invalidate s = record s { is_authenticated = false; username = none; loading = false }

-- `handleSessionInvalid`
unfoldable pub handle_session_invalid : Auth → Auth
handle_session_invalid s =
    if is_login s.location || s.has_redirected then invalidate s else record (invalidate s) {
      has_redirected = true;
      location = at (codes "/login");
      from = some (s.location.pathname ++ s.location.search ++ s.location.hash);
      log = redirected ∷ s.log;
    }

-- `ProtectedRoute`, on any page but that of the login
unfoldable pub protected_route : Auth → Auth
protected_route s =
    if s.loading || s.is_authenticated
    then s
    else record s { location = at (codes "/login"); from = some s.location.pathname }

-- The events: an answer to a call, a page that is opened, a session event, or a render.
pub data Event : Type 0 where
  status_answered status_of_login : Option (Bool × Option Text) → Event
  login_ended : Bool → Option Text → Event
  login_goes_home logout_ended session_invalid render : Event
  opened : Location → Event

-- `apiFetch`: the session events of a response, given its status and `skipAuthRedirect`
unfoldable pub api_fetch : ℕ → Bool → List Event
api_fetch status skip_auth_redirect =
    if status == 401 && not skip_auth_redirect then session_invalid ∷ [] else []

module _ (parse_path : Text → Location) where
  -- the effect of `LoginPage`
  unfoldable pub login_page : Auth → Auth
  login_page s =
      if s.is_authenticated
      then record s { location = maybe s.from (at (codes "/")) parse_path; from = none }
      else s

  -- what a render of the page at the location does
  unfoldable pub rendered : Auth → Auth
  unfolding protected_route login_page
  rendered s = if is_login s.location then login_page s else protected_route s

  unfoldable pub handle : Event → Auth → Auth
  unfolding check_auth login_answered login_checked went_home logged_out handle_session_invalid
      rendered
  handle (status_answered answer) s = check_auth answer s
  handle (status_of_login answer) s = login_checked answer s
  handle (login_ended ok message) s = login_answered ok message s
  handle login_goes_home s = went_home s
  handle logout_ended s = logged_out s
  handle session_invalid s = handle_session_invalid s
  handle render s = rendered s
  handle (opened location) s = record s { location = location; from = none }

  unfoldable pub run : List Event → Auth → Auth
  unfolding handle
  run [] s = s
  run (e ∷ es) s = run es (handle e s)
