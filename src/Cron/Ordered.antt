-- ===== src/Cron/Ordered.antt =====
-- What the list of CronPage.tsx is to hold, and in which order, apart from the code that compares and
-- filters.
use terminal_hub.Common.{
  ℕ, zero, suc, ◌<◌, ◌≤◌, ◌≡◌, ◌≢◌, ◌↔◌, ◌⊎◌, inl, inr, refl, ap, sym, ◌∙◌, Bool, true, false, ◌&&◌,
  List, [], ◌∷◌, ◌++◌, Text, codes, length, select, trim, ltb, ◌==◌, if◌then◌else◌, text_eq,
  text_eq_iff, arith, Bool-cases, subst,
}
use terminal_hub.Cron.Api.{CronJob}
use terminal_hub.Cron.Labels.{get_status_label, label_at, label-rank, rank_bound}
use terminal_hub.Cron.Jobs.{
  Sign, positive, CronSortKey, name, schedule, next_run, last_run, status, runs, failures,
  CronSortDirection, asc, desc, CronStatusFilter, all_jobs, enabled_jobs, disabled_jobs,
  failing_jobs, sign_of, opposite, get_status_rank, compare_by, compare_jobs, is_after, is_listed,
  filtered_and_sorted_crons, contains, starts_with, matches_status_filter, is_failing_job,
}
use terminal_hub.Cron.Sorted.{IsSorted, filtered-IsSorted, compare_jobs_turned}

-- the place of a status in the order by status
abbrev pub place : Text → ℕ
place label =
    if text_eq label (codes "Failing")
    then 0
    else if text_eq label (codes "Running")
    then 1
    else if text_eq label (codes "Healthy")
    then 2
    else if text_eq label (codes "Scheduled")
    then 3
    else 4

-- a job that is disabled, or has no next run, is due after all others
abbrev pub due : CronJob → ℕ
due job =
    if job.enabled && ltb 0 job.metadata.next_run_at
    then job.metadata.next_run_at
    else 9007199254740991

-- a text occurs in another
abbrev pub Occurs : Text → Text → Type 0
Occurs query text = (before : Text) × (after : Text) × (text ≡ before ++ (query ++ after))

abbrev pub IsKept : CronStatusFilter → CronJob → Type 0
IsKept all_jobs job = Unit
IsKept enabled_jobs job = job.enabled ≡ true
IsKept disabled_jobs job = job.enabled ≡ false
IsKept failing_jobs job =
    (job.metadata.last_run_status ≡ codes "failed") ⊎ (1 ≤ job.metadata.failure_count)

place-label : (n : ℕ) → n < 5 → place (label_at n) ≡ n
unfolding text_eq
place-label zero h = refl
place-label (suc zero) h = refl
place-label (suc (suc zero)) h = refl
place-label (suc (suc (suc zero))) h = refl
place-label (suc (suc (suc (suc zero)))) h = refl
place-label (suc (suc (suc (suc (suc n))))) h = absurd (omega (arith, h))

place-rank : (job : CronJob) → place (get_status_label job) ≡ get_status_rank job
place-rank job = ap place (label-rank job) ∙ place-label (get_status_rank job) (rank_bound job)

IsKept-matches :
    (filter : CronStatusFilter) (job : CronJob)
    → (matches_status_filter job filter ≡ true) ↔ IsKept filter job
unfolding matches_status_filter is_failing_job
IsKept-matches all_jobs job = ground arith
IsKept-matches enabled_jobs job = ground arith
IsKept-matches disabled_jobs job = ground arith
IsKept-matches failing_jobs job =
    ground (arith, text_eq_iff job.metadata.last_run_status (codes "failed"))

starts_with_sound : (q s : Text) → starts_with q s ≡ true → (after : Text) × (s ≡ q ++ after)
unfolding starts_with
starts_with_sound [] s h = (s, refl)
starts_with_sound (p ∷ q) [] h = cc
starts_with_sound (p ∷ q) (c ∷ s) h =
    let (after, e) = starts_with_sound q s (ground (arith, h)) in (after, ground (arith, h, e))

starts_with-append : (q after : Text) → starts_with q (q ++ after) ≡ true
unfolding starts_with
starts_with-append [] after = refl
starts_with-append (p ∷ q) after = ground (arith, starts_with-append q after)

contains-starts : (q s : Text) → starts_with q s ≡ true → contains q s ≡ true
unfolding contains
contains-starts q [] h = h
contains-starts q (c ∷ s) h = ground (arith, h)

contains_sound : (q s : Text) → contains q s ≡ true → Occurs q s
unfolding contains
contains_sound q [] h = let (after, e) = starts_with_sound q [] h in ([], after, e)
contains_sound q (c ∷ s) h = elim (Bool-cases (starts_with q (c ∷ s))) [
  | inl u ↦ let (after, e) = starts_with_sound q (c ∷ s) u in ([], after, e)
  | inr u ↦
      let (before, after, e) = contains_sound q s (ground (arith, h, u)) in
      (c ∷ before, after, ap (λ r. c ∷ r) e)
]

contains_complete : (q before after : Text) → contains q (before ++ (q ++ after)) ≡ true
unfolding contains
contains_complete q [] after = contains-starts q (q ++ after) (starts_with-append q after)
contains_complete q (c ∷ before) after = ground (arith, contains_complete q before after)

contains-Occurs : (q s : Text) → (contains q s ≡ true) ↔ Occurs q s
contains-Occurs q s = (
  contains_sound q s,
  λ (before, after, e). subst (λ t. contains q t ≡ true) (sym e) (contains_complete q before after),
)

contains_blank : (q s : Text) → (length q == 0) ≡ true → contains q s ≡ true
unfolding contains starts_with
contains_blank [] [] h = refl
contains_blank [] (c ∷ s) h = refl
contains_blank (p ∷ q) s h = absurd (ground (arith, h))

sign-order : (a b : ℕ) → is_after (sign_of a b) ≡ false → a ≤ b
sign-order a b h = ground (arith, h)

module _ (locale_compare : Text → Text → Sign) (to_lower : Text → Text) where
  -- a job may stand before another one in ascending order
  abbrev pub IsBefore : CronSortKey → CronJob → CronJob → Type 0
  IsBefore name x y = locale_compare (to_lower x.name) (to_lower y.name) ≢ positive
  IsBefore schedule x y = locale_compare x.schedule y.schedule ≢ positive
  IsBefore next_run x y = due x ≤ due y
  IsBefore last_run x y = x.metadata.last_run_at ≤ y.metadata.last_run_at
  IsBefore status x y = place (get_status_label x) ≤ place (get_status_label y)
  IsBefore runs x y = x.metadata.total_runs ≤ y.metadata.total_runs
  IsBefore failures x y = x.metadata.failure_count ≤ y.metadata.failure_count

  -- in descending order it is the other way round
  abbrev pub IsOrdered : CronSortKey → CronSortDirection → List CronJob → Type 0
  IsOrdered key direction [] = Unit
  IsOrdered key direction (x ∷ []) = Unit
  IsOrdered key asc (x ∷ y ∷ ys) = IsBefore key x y × IsOrdered key asc (y ∷ ys)
  IsOrdered key desc (x ∷ y ∷ ys) = IsBefore key y x × IsOrdered key desc (y ∷ ys)

  -- what a job has to have to be listed
  abbrev pub Passes : Text → CronStatusFilter → CronJob → Type 0
  Passes search filter job =
      let query = to_lower (trim search) in
      IsKept filter job
      × (Occurs query (to_lower job.name)
          ⊎ Occurs query (to_lower job.command)
          ⊎ Occurs query (to_lower job.schedule))

  listed-Passes :
      (search : Text) (filter : CronStatusFilter) (job : CronJob)
      → (is_listed locale_compare to_lower search filter job ≡ true) ↔ Passes search filter job
  unfolding is_listed
  listed-Passes search filter job =
      let query = to_lower (trim search) in
      ground (
        arith,
        IsKept-matches filter job,
        contains-Occurs query (to_lower job.name),
        contains-Occurs query (to_lower job.command),
        contains-Occurs query (to_lower job.schedule),
        contains_blank query (to_lower job.name),
      )

  module _ (swapped : (a b : Text) → locale_compare b a ≡ opposite (locale_compare a b)) where
    before :
        (key : CronSortKey) (x y : CronJob)
        → is_after (compare_jobs locale_compare to_lower key asc x y) ≡ false
        → IsBefore key x y
    unfolding compare_jobs compare_by
    before name x y h = λ e. ground (arith, h, e)
    before schedule x y h = λ e. ground (arith, h, e)
    before next_run x y h = sign-order (due x) (due y) h
    before last_run x y h = sign-order x.metadata.last_run_at y.metadata.last_run_at h
    before status x y h =
        rw (place-rank x, place-rank y) (sign-order (get_status_rank x) (get_status_rank y) h)
    before runs x y h = sign-order x.metadata.total_runs y.metadata.total_runs h
    before failures x y h = sign-order x.metadata.failure_count y.metadata.failure_count h

    before_turned :
        (key : CronSortKey) (x y : CronJob)
        → is_after (compare_jobs locale_compare to_lower key desc x y) ≡ false
        → IsBefore key y x
    before_turned key x y h =
        before key y x (compare_jobs_turned locale_compare to_lower swapped key x y h)

    sorted-IsOrdered :
        (key : CronSortKey) (direction : CronSortDirection) (jobs : List CronJob)
        → IsSorted locale_compare to_lower key direction jobs
        → IsOrdered key direction jobs
    sorted-IsOrdered key asc [] h = tt
    sorted-IsOrdered key desc [] h = tt
    sorted-IsOrdered key asc (x ∷ []) h = tt
    sorted-IsOrdered key desc (x ∷ []) h = tt
    sorted-IsOrdered key asc (x ∷ y ∷ ys) (h, k) =
        (before key x y h, sorted-IsOrdered key asc (y ∷ ys) k)
    sorted-IsOrdered key desc (x ∷ y ∷ ys) (h, k) =
        (before_turned key x y h, sorted-IsOrdered key desc (y ∷ ys) k)

    -- Each job of the list may stand right before the next one: in ascending order its name, in
    -- lower case, or its schedule is not after the other's for `localeCompare`, or its next run, last
    -- run, status (Failing, Running, Healthy, Scheduled, Disabled), runs or failures are no greater,
    -- where a job that is disabled or has no next run is due last; in descending order the other way
    -- round. Turning the arguments of `localeCompare` turns its sign. The list holds the jobs that
    -- pass, each as often as it occurs: those that the filter keeps and that have the text that is
    -- searched, in lower case, in their name, command or schedule.
    pub filtered-IsOrdered :
        (search : Text) (filter : CronStatusFilter) (key : CronSortKey)
        (direction : CronSortDirection) (crons : List CronJob) (p : CronJob → Bool) (job : CronJob)
        → let listed =
            filtered_and_sorted_crons locale_compare to_lower search filter key direction crons in
          IsOrdered key direction listed
          × (length (select p listed)
              ≡ length
                  (select (λ x. is_listed locale_compare to_lower search filter x && p x) crons))
          × ((is_listed locale_compare to_lower search filter job ≡ true)
              ↔ Passes search filter job)
    filtered-IsOrdered search filter key direction crons p job =
        let (sorted, counted) =
          filtered-IsSorted locale_compare to_lower swapped search filter key direction crons in
        (sorted-IsOrdered key direction _ sorted, counted p, listed-Passes search filter job)
