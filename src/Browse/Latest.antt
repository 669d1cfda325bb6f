-- ===== src/Browse/Latest.antt =====
-- The page of files shows the answer to its latest request.
use terminal_hub.Common.{
  ℕ, zero, suc, not, ◌≡◌, refl, Bool, true, false, Option, none, some, List, [], ◌∷◌, map, Text,
  ◌==◌, if◌then◌else◌, maybe, ◌⊎◌, inl, inr, arith,
}
use terminal_hub.Browse.Query.{Listing, target_path}
use terminal_hub.Browse.Page.{
  Page, load_directory, settle, directory_loaded, refresh_current_directory, go_up, refresh,
  toggle_hidden, Event, entered, clicked, upped, refreshed, toggled, uploads_ended, answered,
  handle, run, initial,
}

-- An answer with the number of its request.
abbrev pub Answer : Type 0
Answer = ℕ × (Text ⊎ Listing)

abbrev pub arrivals : List Answer → List Event
arrivals es = map (λ e. answered e.0 e.1) es

-- The first answer to a request.
unfoldable pub answer_to : ℕ → List Answer → Option (Text ⊎ Listing)
answer_to n [] = none
answer_to n ((m, a) ∷ es) = let later = answer_to n es in if m == n then some a else later

-- A request is answered once, if at all.
unfoldable pub is_answered_once : ℕ → List Answer → Bool
is_answered_once n [] = true
is_answered_once n ((m, a) ∷ es) =
    let later = is_answered_once n es in
    if m == n then maybe (answer_to n es) true (λ _. false) else later

-- the numbers from a number down to one
unfoldable pub down_from : ℕ → List ℕ
down_from zero = []
down_from (suc n) = suc n ∷ down_from n

abbrev pub numbers : Page → List ℕ
numbers s = map (λ r. r.0) s.sent

load-numbers :
    (path : Option Text) (override : Option Bool) (s : Page)
    → numbers s ≡ down_from s.browse_request_id
    → numbers (load_directory path override s)
      ≡ down_from (load_directory path override s).browse_request_id
unfolding load_directory down_from
load-numbers path override s h = ground (arith, h)

abbrev IsNumbered : Page → Type 0
IsNumbered s = numbers s ≡ down_from s.browse_request_id

settle-numbers : (a : Text ⊎ Listing) (s : Page) → IsNumbered s → IsNumbered (settle a s)
unfolding settle
settle-numbers (inl message) s h = h
settle-numbers (inr listing) s h = h

handle-numbers : (e : Event) (s : Page) → IsNumbered s → IsNumbered (handle e s)
unfolding handle go_up refresh refresh_current_directory toggle_hidden directory_loaded
handle-numbers entered s h = load-numbers none none s h
handle-numbers (clicked path) s h = load-numbers (some path) none s h
handle-numbers upped s h = ground (arith, h, load-numbers (some s.parent_path) none s)
handle-numbers refreshed s h = ground (arith, h, load-numbers (target_path s.current_path) none s)
handle-numbers toggled s h = ground (
  arith,
  h,
  load-numbers (target_path s.current_path) (some (not s.show_hidden))
      (record s { show_hidden = not s.show_hidden }),
)
handle-numbers (uploads_ended path) s h = load-numbers (target_path path) none s h
handle-numbers (answered m a) s h = ground (arith, h, settle-numbers a s)

run-IsNumbered : (es : List Event) (s : Page) → IsNumbered s → IsNumbered (run es s)
unfolding run
run-IsNumbered [] s h = h
run-IsNumbered (e ∷ es) s h = run-IsNumbered es (handle e s) (handle-numbers e s h)

-- However the page is used, every request that it sends has a number of its own, the latest one the
-- number that is kept.
run-numbers :
    (es : List Event) → numbers (run es initial) ≡ down_from (run es initial).browse_request_id
run-numbers es = run-IsNumbered es initial (unfold down_from in refl)
