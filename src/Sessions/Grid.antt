-- ===== src/Sessions/Grid.antt =====
-- frontend/src/features/sessions/SessionGrid.tsx: the dashboard. A date is its time in milliseconds,
-- `none` where it is invalid; reading one is the parameter `time`, and writing one `show_time`.
use terminal_hub.Common.{
  ℕ, ◌+◌, ◌*◌, Bool, false, Option, none, some, List, [], ◌∷◌, ◌++◌, Text, codes, max, ltb, ◌==◌,
  if◌then◌else◌, length, maybe,
}
use terminal_hub.Sessions.Store.{SessionInfo, SessionBackend, tmux, pty}
use terminal_hub.Sessions.Dialogs.{is_blank}

-- the path of the socket of a session, in the grid and on its page
unfoldable pub ws_path : Text → Text
ws_path session_id = codes "/ws/" ++ session_id

-- `wsUrl`, given `window.location`
unfoldable pub ws_url : Bool → Text → Text → Text
unfolding ws_path
ws_url secure host session_id =
    (if secure then codes "wss://" else codes "ws://") ++ (host ++ ws_path session_id)

abbrev backend_name : SessionBackend → Text
backend_name tmux = codes "tmux"
backend_name pty = codes "pty"

-- the text where it is there and not empty
unfoldable pub shown_fallback : Option Text → Option Text
shown_fallback none = none
shown_fallback (some t) = if length t == 0 then none else some t

unfoldable pub shown_directory : Option Text → Option Text
shown_directory none = none
shown_directory (some t) = if is_blank t then none else some t

pub record Card : Type 0 where
  pub id : Text
  pub name : Text
  pub delay_ms : ℕ
  pub url : Text
  pub has_terminal : Bool
  pub clients : ℕ
  pub backend : Text
  pub fallback : Option Text
  pub created : Text
  pub active : Text
  pub directory : Option Text

pub record Totals : Type 0 where
  pub total_clients : ℕ
  pub last_activity_timestamp : ℕ

module _ (time : Text → Option ℕ) where
  -- a round of the loop over the sessions
  unfoldable pub count_session : SessionInfo → Totals → Totals
  count_session x t = record {
    total_clients = t.total_clients + x.metadata.client_count;
    last_activity_timestamp =
        maybe (time x.metadata.last_activity_at) t.last_activity_timestamp
          (λ at. max t.last_activity_timestamp at);
  }

  unfoldable pub count_sessions : List SessionInfo → Totals → Totals
  unfolding count_session
  count_sessions [] t = t
  count_sessions (x ∷ xs) t = count_sessions xs (count_session x t)

  unfoldable pub totals : List SessionInfo → Totals
  unfolding count_sessions
  totals sessions =
      count_sessions sessions (record { total_clients = 0; last_activity_timestamp = 0 })

  -- whether the comparison of two sessions is positive; that with an invalid date is NaN
  unfoldable pub is_older : SessionInfo → SessionInfo → Bool
  is_older a b =
      maybe (time a.metadata.created_at) false
        (λ x. maybe (time b.metadata.created_at) false (λ y. ltb x y))

  -- a stable sort, as `sort` is
  unfoldable pub insert_session : SessionInfo → List SessionInfo → List SessionInfo
  unfolding is_older
  insert_session x [] = x ∷ []
  insert_session x (y ∷ ys) =
      let later = y ∷ insert_session x ys in if is_older x y then later else x ∷ y ∷ ys

  unfoldable pub sorted_sessions : List SessionInfo → List SessionInfo
  unfolding insert_session
  sorted_sessions [] = []
  sorted_sessions (x ∷ xs) = insert_session x (sorted_sessions xs)

  module _ (show_time : Text → Text) (secure : Bool) (host : Text) (is_desktop : Bool) where
    unfoldable pub card_of : ℕ → SessionInfo → Card
    unfolding ws_url shown_fallback shown_directory
    card_of index x = record {
      id = x.id;
      name = x.metadata.name;
      delay_ms = 60 * index;
      url = ws_url secure host x.id;
      has_terminal = is_desktop;
      clients = x.metadata.client_count;
      backend = backend_name x.metadata.backend;
      fallback = shown_fallback x.metadata.backend_fallback;
      created = show_time x.metadata.created_at;
      active = show_time x.metadata.last_activity_at;
      directory = shown_directory x.metadata.working_directory;
    }

    unfoldable pub cards_from : ℕ → List SessionInfo → List Card
    unfolding card_of
    cards_from index [] = []
    cards_from index (x ∷ xs) = card_of index x ∷ cards_from (index + 1) xs

    -- the cards, none of which gives a page of its own
    unfoldable pub cards : List SessionInfo → List Card
    unfolding cards_from sorted_sessions
    cards sessions = cards_from 0 (sorted_sessions sessions)
