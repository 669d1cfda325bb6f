-- ===== src/Sessions/Store.antt =====
-- frontend/src/features/sessions/SessionContext.tsx over the data of api.ts: the list of sessions on
-- the client. A call of the server is cut at its await: an event is its answer, on the left the
-- message of the error that it throws.
use terminal_hub.Common.{
  ℕ, Bool, true, false, Option, none, some, List, [], ◌∷◌, ◌++◌, Text, codes, ◌⊎◌, inl, inr,
}
use terminal_hub.Cron.Env.{Vars}

pub data SessionBackend : Type 0 where
  tmux pty : SessionBackend

pub record SessionMetadata : Type 0 where
  pub name : Text
  pub created_at : Text
  pub last_activity_at : Text
  pub client_count : ℕ
  pub working_directory : Option Text
  pub command : Option Text
  pub env_vars : Option Vars
  pub backend : SessionBackend
  pub backend_fallback : Option Text

pub record SessionInfo : Type 0 where
  pub id : Text
  pub metadata : SessionMetadata

pub data Effect : Type 0 where
  toast_error toast_success : Text → Effect

pub record SessionStore : Type 0 where
  pub sessions : List SessionInfo
  pub loading : Bool
  pub error : Option Text
  pub log : List Effect

abbrev pub toast : Effect → SessionStore → SessionStore
toast e s = record s { log = e ∷ s.log }

-- `refreshSessions` up to its await
unfoldable pub refresh_begun : SessionStore → SessionStore
refresh_begun s = record s { loading = true; error = none }

-- `refreshSessions` behind its await
unfoldable pub refreshed : Text ⊎ List SessionInfo → SessionStore → SessionStore
refreshed (inl message) s =
    toast (toast_error message) (record s { error = some message; loading = false })
refreshed (inr sessions) s = record s { sessions = sessions; loading = false }

-- the actions, up to the await of the refresh that follows them
abbrev acted : Text → Option Text → SessionStore → SessionStore
acted done (some message) s = toast (toast_error message) s
acted done none s = refresh_begun (toast (toast_success done) s)

-- `createSession`, `deleteSession` and `updateSessionName`, given the message of their error
unfoldable pub created : Text → Option Text → SessionStore → SessionStore
unfolding refresh_begun
created name failure s =
    acted (codes "Session \"" ++ (name ++ codes "\" created successfully")) failure s

unfoldable pub deleted : Option Text → SessionStore → SessionStore
unfolding refresh_begun
deleted failure s = acted (codes "Session deleted successfully") failure s

unfoldable pub renamed : Option Text → SessionStore → SessionStore
unfolding refresh_begun
renamed failure s = acted (codes "Session renamed successfully") failure s

-- The interval starts a refresh, as do the mount and every action that succeeds.
pub data Event : Type 0 where
  interval_fired : Event
  refresh_answered : Text ⊎ List SessionInfo → Event
  create_answered : Text → Option Text → Event
  delete_answered rename_answered : Option Text → Event

unfoldable pub handle : Event → SessionStore → SessionStore
unfolding refresh_begun refreshed created deleted renamed
handle interval_fired s = refresh_begun s
handle (refresh_answered answer) s = refreshed answer s
handle (create_answered name failure) s = created name failure s
handle (delete_answered failure) s = deleted failure s
handle (rename_answered failure) s = renamed failure s

unfoldable pub run : List Event → SessionStore → SessionStore
unfolding handle
run [] s = s
run (e ∷ es) s = run es (handle e s)

-- the state of a new provider, behind the effect of its mount
unfoldable pub mounted : SessionStore
unfolding refresh_begun
mounted = refresh_begun (record { sessions = []; loading = true; error = none; log = [] })
