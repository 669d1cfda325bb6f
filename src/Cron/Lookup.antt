-- ===== src/Cron/Lookup.antt =====
-- The list of jobs of CronContext.tsx as a map from identifiers to jobs.
use terminal_hub.Common.{
  ◌≡◌, refl, ◌∙◌, Bool, true, false, Option, none, some, List, [], ◌∷◌, Text, All, if◌then◌else◌,
  maybe, text_eq, text_eq_sound, text_eq_refl, inl, inr, arith, Option-cases,
}
use terminal_hub.Cron.Api.{CronJob}
use terminal_hub.Cron.Store.{
  CronStore, replace_cron_job, set_enabled, without_job, begin_refresh, refreshed, refreshed_after,
  created, updated, deleted, ran, switched, history_read, Event, refresh_begun, refresh_answered,
  action_refresh_answered, create_answered, update_answered, delete_answered, run_answered,
  switch_answered, history_answered, handle, run, initial,
}

-- The job with an identifier: the first in the list.
unfoldable pub find_job : Text → List CronJob → Option CronJob
find_job id [] = none
find_job id (x ∷ xs) = let rest = find_job id xs in if text_eq x.id id then some x else rest

abbrev pub Jobs : Type 0
Jobs = Text → Option CronJob

-- What the answer to a request does to the map of jobs.
unfoldable pub answer_jobs : Event → Jobs → Jobs
answer_jobs (refresh_answered _ (inr jobs)) f id = find_job id jobs
answer_jobs (action_refresh_answered (inr jobs)) f id = find_job id jobs
answer_jobs (create_answered _ (inr job)) f id = if text_eq job.id id then some job else f id
answer_jobs (update_answered (inr job)) f id =
    if text_eq job.id id then maybe (f id) none (λ _. some job) else f id
answer_jobs (delete_answered gone none) f id = if text_eq gone id then none else f id
answer_jobs (switch_answered picked flag none) f id =
    if text_eq picked id then maybe (f id) none (λ x. some (record x { enabled = flag })) else f id
answer_jobs _ f id = f id

text_eq_sub : (a b c : Text) → text_eq a b ≡ true → text_eq a c ≡ text_eq b c
text_eq_sub a b c h = rw (text_eq_sound a b h) refl

text_eq_sym : (a b : Text) → text_eq a b ≡ text_eq b a
unfolding text_eq
text_eq_sym [] [] = refl
text_eq_sym [] (y ∷ ys) = refl
text_eq_sym (x ∷ xs) [] = refl
text_eq_sym (x ∷ xs) (y ∷ ys) = ground (arith, text_eq_sym xs ys)

-- Of three texts, how the first compares with two of them and these with each other.
text_eq_three :
    (a b c : Text)
    → (text_eq a b ≡ true → text_eq a c ≡ text_eq b c)
      × (text_eq a c ≡ true → text_eq a b ≡ text_eq b c)
text_eq_three a b c = (text_eq_sub a b c, λ h. text_eq_sub a c b h ∙ text_eq_sym c b)

find-without :
    (gone id : Text) (xs : List CronJob)
    → find_job id (without_job gone xs) ≡ (if text_eq gone id then none else find_job id xs)
unfolding find_job without_job
find-without gone id [] = ground arith
find-without gone id (x ∷ xs) = ground (arith, find-without gone id xs, text_eq_three x.id gone id)

find-replace :
    (job : CronJob) (id : Text) (xs : List CronJob)
    → find_job id (replace_cron_job xs job)
      ≡ (if text_eq job.id id then maybe (find_job id xs) none (λ _. some job) else find_job id xs)
unfolding find_job replace_cron_job
find-replace job id [] = ground arith
find-replace job id (x ∷ xs) = ground (arith, find-replace job id xs, text_eq_three x.id job.id id)

find-set_enabled :
    (picked id : Text) (flag : Bool) (xs : List CronJob)
    → find_job id (set_enabled picked flag xs) ≡ (
        if text_eq picked id
        then maybe (find_job id xs) none (λ x. some (record x { enabled = flag }))
        else find_job id xs)
unfolding find_job set_enabled
find-set_enabled picked id flag [] = ground arith
find-set_enabled picked id flag (x ∷ xs) =
    ground (arith, find-set_enabled picked id flag xs, text_eq_three x.id picked id)

-- Behind any event, what the list holds for an identifier is what the map of jobs holds: an answer
-- replaces, adds, removes or switches the job that it names and no other, a listing replaces all of
-- them, and an error changes none.
pub handle-answer_jobs :
    (e : Event) (s : CronStore) (id : Text)
    → find_job id (handle e s).crons ≡ answer_jobs e (λ j. find_job j s.crons) id
unfolding handle begin_refresh refreshed refreshed_after created updated deleted ran switched
    history_read answer_jobs find_job
handle-answer_jobs (refresh_begun silent) s id = ground arith
handle-answer_jobs (refresh_answered silent (inl message)) s id = ground arith
handle-answer_jobs (refresh_answered silent (inr jobs)) s id = ground arith
handle-answer_jobs (action_refresh_answered (inl message)) s id = ground arith
handle-answer_jobs (action_refresh_answered (inr jobs)) s id = ground arith
handle-answer_jobs (create_answered name (inl message)) s id = refl
handle-answer_jobs (create_answered name (inr job)) s id =
    ground (arith, find-without job.id id s.crons)
handle-answer_jobs (update_answered (inl message)) s id = refl
handle-answer_jobs (update_answered (inr job)) s id = find-replace job id s.crons
handle-answer_jobs (delete_answered gone none) s id = find-without gone id s.crons
handle-answer_jobs (delete_answered gone (some message)) s id = refl
handle-answer_jobs (run_answered none) s id = refl
handle-answer_jobs (run_answered (some message)) s id = refl
handle-answer_jobs (switch_answered picked flag none) s id = find-set_enabled picked id flag s.crons
handle-answer_jobs (switch_answered picked flag (some message)) s id = refl
handle-answer_jobs (history_answered none) s id = refl
handle-answer_jobs (history_answered (some message)) s id = refl

-- No identifier twice: no job is listed again behind itself.
unfoldable pub is_distinct : List CronJob → Bool
is_distinct [] = true
is_distinct (x ∷ xs) = let rest = is_distinct xs in maybe (find_job x.id xs) rest (λ _. false)

distinct-without :
    (id : Text) (xs : List CronJob) → is_distinct xs ≡ true → is_distinct (without_job id xs) ≡ true
unfolding is_distinct without_job
distinct-without id [] h = refl
distinct-without id (x ∷ xs) h =
    ground (arith, distinct-without id xs, find-without id x.id xs, Option-cases (find_job x.id xs))

distinct-replace :
    (job : CronJob) (xs : List CronJob)
    → is_distinct xs ≡ true
    → is_distinct (replace_cron_job xs job) ≡ true
unfolding is_distinct replace_cron_job
distinct-replace job [] h = refl
distinct-replace job (x ∷ xs) h = ground (
  arith,
  distinct-replace job xs,
  find-replace job x.id xs,
  find-replace job job.id xs,
  text_eq_sound x.id job.id,
  Option-cases (find_job x.id xs),
)

distinct-set_enabled :
    (id : Text) (flag : Bool) (xs : List CronJob)
    → is_distinct xs ≡ true
    → is_distinct (set_enabled id flag xs) ≡ true
unfolding is_distinct set_enabled
distinct-set_enabled id flag [] h = refl
distinct-set_enabled id flag (x ∷ xs) h = ground (
  arith,
  distinct-set_enabled id flag xs,
  find-set_enabled id x.id flag xs,
  Option-cases (find_job x.id xs),
)

-- An answer of the server that lists no identifier twice, if it lists jobs.
abbrev pub IsListing : Event → Type 0
IsListing (refresh_answered _ (inr jobs)) = is_distinct jobs ≡ true
IsListing (action_refresh_answered (inr jobs)) = is_distinct jobs ≡ true
IsListing _ = Unit

distinct-handle :
    (e : Event) (s : CronStore)
    → IsListing e
    → is_distinct s.crons ≡ true
    → is_distinct (handle e s).crons ≡ true
unfolding handle begin_refresh refreshed refreshed_after created updated deleted ran switched
    history_read is_distinct
distinct-handle (refresh_begun silent) s l h = ground (arith, h)
distinct-handle (refresh_answered silent (inl message)) s l h = ground (arith, h)
distinct-handle (refresh_answered silent (inr jobs)) s l h = ground (arith, l)
distinct-handle (action_refresh_answered (inl message)) s l h = ground (arith, h)
distinct-handle (action_refresh_answered (inr jobs)) s l h = ground (arith, l)
distinct-handle (create_answered name (inl message)) s l h = h
distinct-handle (create_answered name (inr job)) s l h = ground (
  arith,
  find-without job.id job.id s.crons,
  text_eq_refl job.id,
  distinct-without job.id s.crons h,
)
distinct-handle (update_answered (inl message)) s l h = h
distinct-handle (update_answered (inr job)) s l h = distinct-replace job s.crons h
distinct-handle (delete_answered gone none) s l h = distinct-without gone s.crons h
distinct-handle (delete_answered gone (some message)) s l h = h
distinct-handle (run_answered none) s l h = h
distinct-handle (run_answered (some message)) s l h = h
distinct-handle (switch_answered picked flag none) s l h =
    distinct-set_enabled picked flag s.crons h
distinct-handle (switch_answered picked flag (some message)) s l h = h
distinct-handle (history_answered none) s l h = h
distinct-handle (history_answered (some message)) s l h = h

distinct-run_from :
    (es : List Event) (s : CronStore)
    → All IsListing es
    → is_distinct s.crons ≡ true
    → is_distinct (run es s).crons ≡ true
unfolding run
distinct-run_from [] s l h = h
distinct-run_from (e ∷ es) s l h = distinct-run_from es (handle e s) l.1 (distinct-handle e s l.0 h)

-- However the answers of the server follow each other, no identifier is ever in the list twice,
-- where no listing of the server has one twice.
pub distinct-run : (es : List Event) → All IsListing es → is_distinct (run es initial).crons ≡ true
distinct-run es l = distinct-run_from es initial l (unfold is_distinct in refl)
