-- ===== src/Sessions/Listing.antt =====
-- What the list of frontend/src/features/sessions/SessionContext.tsx shows.
use terminal_hub.Common.{◌≡◌, refl, sym, ◌∙◌, none, some, List, [], ◌∷◌, inl, inr}
use terminal_hub.Sessions.Store.{
  SessionInfo, SessionStore, Event, interval_fired, refresh_answered, create_answered,
  delete_answered, rename_answered, refresh_begun, refreshed, created, deleted, renamed, handle,
  run,
}

-- the listing that arrives last, or the one that was there
unfoldable pub last_listing : List SessionInfo → List Event → List SessionInfo
last_listing shown [] = shown
last_listing shown (refresh_answered (inr listing) ∷ es) = last_listing listing es
last_listing shown (refresh_answered (inl message) ∷ es) = last_listing shown es
last_listing shown (interval_fired ∷ es) = last_listing shown es
last_listing shown (create_answered name failure ∷ es) = last_listing shown es
last_listing shown (delete_answered failure ∷ es) = last_listing shown es
last_listing shown (rename_answered failure ∷ es) = last_listing shown es

shown-handle :
    (e : Event) (es : List Event) (s : SessionStore)
    → last_listing s.sessions (e ∷ es) ≡ last_listing (handle e s).sessions es
unfolding last_listing handle refresh_begun refreshed created deleted renamed
shown-handle interval_fired es s = refl
shown-handle (refresh_answered (inl message)) es s = refl
shown-handle (refresh_answered (inr listing)) es s = refl
shown-handle (create_answered name none) es s = refl
shown-handle (create_answered name (some message)) es s = refl
shown-handle (delete_answered none) es s = refl
shown-handle (delete_answered (some message)) es s = refl
shown-handle (rename_answered none) es s = refl
shown-handle (rename_answered (some message)) es s = refl

-- Whatever is done and in whatever order the server answers, the list shows the listing that arrived
-- last: creating, deleting and renaming a session do not touch it, nor does an error.
run-last_listing :
    (es : List Event) (s : SessionStore) → (run es s).sessions ≡ last_listing s.sessions es
unfolding run last_listing
run-last_listing [] s = refl
run-last_listing (e ∷ es) s = run-last_listing es (handle e s) ∙ sym (shown-handle e es s)
