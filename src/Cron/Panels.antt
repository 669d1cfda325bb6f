-- ===== src/Cron/Panels.antt =====
-- What CronPage.tsx shows: the panel below its filters, and the figures above.
use mathlib.Core.Path.{fun_ext}
use terminal_hub.Common.{
  ℕ, ◌+◌, ◌≤◌, ◌≡◌, refl, sym, ap, ◌∙◌, ◌≢◌, Bool, true, false, not, ◌&&◌, List, [], ◌∷◌, Text,
  ◌==◌, length, select, trim, arith, ◌⊎◌, inl, inr, Bool-cases,
}
use terminal_hub.Cron.Api.{CronJob}
use terminal_hub.Cron.Jobs.{
  Sign, CronSortKey, CronSortDirection, CronStatusFilter, all_jobs, enabled_jobs, disabled_jobs,
  failing_jobs, is_listed, matches_status_filter, filtered_and_sorted_crons, sort_jobs,
}
use terminal_hub.Cron.Sorted.{count-filtered}
use terminal_hub.Cron.Page.{
  CronPage, total_jobs, enabled_count, disabled_count, failing_count, Panel, loading_panel,
  global_empty, filtered_empty, table, listed, show_global_empty_state, show_filtered_empty_state,
  panels,
}

-- the figure that is shown for a filter
abbrev pub figure : CronStatusFilter → List CronJob → ℕ
figure all_jobs crons = total_jobs crons
figure enabled_jobs crons = enabled_count crons
figure disabled_jobs crons = disabled_count crons
figure failing_jobs crons = failing_count crons

select_all {ℓ} : {A : Type ℓ} (xs : List A) → select (λ x. true) xs ≡ xs
unfolding select
select_all [] = refl
select_all (x ∷ xs) = ap (λ r. x ∷ r) (select_all xs)

enabled-le : (crons : List CronJob) → enabled_count crons ≤ length crons
unfolding enabled_count select
enabled-le [] = omega arith
enabled-le (x ∷ xs) = ground (arith, enabled-le xs)

List-cases {ℓ} :
    {A : Type ℓ} (xs : List A) → (xs ≡ []) ⊎ ((x : A) × (rest : List A) × (xs ≡ x ∷ rest))
List-cases [] = inl refl
List-cases (x ∷ xs) = inr (x, xs, refl)

nil_of : (crons : List CronJob) → (length crons == 0) ≡ true → crons ≡ []
nil_of [] h = refl
nil_of (x ∷ xs) h = ground (arith, h)

both_counts :
    (crons : List CronJob)
    → length (select (λ job. not job.enabled) crons) + length (select (λ job. job.enabled) crons)
      ≡ length crons
unfolding select
both_counts [] = refl
both_counts (x ∷ xs) = ground (arith, both_counts xs)

select_same :
    (p q : CronJob → Bool) (xs : List CronJob)
    → ((job : CronJob) → p job ≡ q job)
    → select p xs ≡ select q xs
select_same p q xs h = ap (λ r. select r xs) (fun_ext h)

count-matches :
    (filter : CronStatusFilter) (crons : List CronJob)
    → length (select (λ job. matches_status_filter job filter) crons) ≡ figure filter crons
unfolding matches_status_filter total_jobs enabled_count disabled_count failing_count
count-matches all_jobs crons = ap length (select_all crons)
count-matches enabled_jobs crons = refl
count-matches failing_jobs crons = refl
count-matches disabled_jobs crons = omega (arith, both_counts crons)

module _ (locale_compare : Text → Text → Sign) (to_lower : Text → Text) where
  listed-blank :
      (query : Text) (filter : CronStatusFilter) (job : CronJob)
      → length (to_lower (trim query)) ≡ 0
      → is_listed locale_compare to_lower query filter job ≡ matches_status_filter job filter
  unfolding is_listed
  listed-blank query filter job h = ground (arith, h)

  -- With nothing searched for, the list under each filter is as long as the figure that is shown for
  -- it.
  length-figure :
      (query : Text) (filter : CronStatusFilter) (key : CronSortKey) (direction : CronSortDirection)
      (crons : List CronJob)
      → length (to_lower (trim query)) ≡ 0
      → length (filtered_and_sorted_crons locale_compare to_lower query filter key direction crons)
        ≡ figure filter crons
  length-figure query filter key direction crons h =
      let list =
        filtered_and_sorted_crons locale_compare to_lower query filter key direction crons in
      ap length (sym (select_all list))
      ∙ count-filtered locale_compare to_lower (λ x. true) query filter key direction crons
      ∙ ap length (
          select_same (λ x. is_listed locale_compare to_lower query filter x && true)
            (λ x. matches_status_filter x filter) crons
            (λ x. ground (arith, listed-blank query filter x h)))
      ∙ count-matches filter crons

  -- What is shown below the filters, in each case.
  pub data IsShown (s : CronPage) (shown : List Panel) : Type 0 where
    loads :
        s.store.loading ≡ true → s.store.crons ≡ [] → shown ≡ loading_panel ∷ [] → IsShown s shown
    none_yet :
        s.store.loading ≡ false → s.store.crons ≡ [] → shown ≡ global_empty ∷ [] → IsShown s shown
    none_match :
        s.store.loading ≡ false
        → listed locale_compare to_lower s ≡ []
        → shown ≡ filtered_empty ∷ []
        → IsShown s shown
    lists :
        listed locale_compare to_lower s ≢ []
        → shown ≡ table (listed locale_compare to_lower s) ∷ []
        → IsShown s shown
    reloads :
        s.store.loading ≡ true
        → s.store.crons ≢ []
        → listed locale_compare to_lower s ≡ []
        → shown ≡ []
        → IsShown s shown

  listed_none : (s : CronPage) → s.store.crons ≡ [] → listed locale_compare to_lower s ≡ []
  unfolding filtered_and_sorted_crons select sort_jobs
  listed_none s h = rw h refl

  kept :
      (s : CronPage) (x : CronJob) (xs : List CronJob)
      → listed locale_compare to_lower s ≡ x ∷ xs
      → (length s.store.crons == 0) ≡ false
  kept s x xs e = elim (List-cases s.store.crons) [
    | inl none_left ↦ cc (e, listed_none s none_left)
    | inr (y, ys, f) ↦ ground (arith, f)
  ]

  -- One panel is shown: the list exactly if a job passes the filters, and else that the jobs are being
  -- loaded, that there are none, or that none matches; and nothing only while jobs that none of the
  -- filters lets through are being loaded again.
  panels-IsShown : (s : CronPage) → IsShown s (panels locale_compare to_lower s)
  unfolding panels show_global_empty_state show_filtered_empty_state total_jobs
  panels-IsShown s =
      let jobs = listed locale_compare to_lower s in
      elim (List-cases jobs) [
        | inl empty ↦ elim (Bool-cases s.store.loading) [
          | inl busy ↦ elim (List-cases s.store.crons) [
            | inl new ↦ loads busy new (ground (arith, busy, empty, new))
            | inr (x, xs, e) ↦ reloads busy (λ h. cc) empty (ground (arith, busy, empty, e))
          ]
          | inr done ↦ elim (Bool-cases (show_global_empty_state s)) [
            | inl g ↦
                none_yet done (ground (arith, g, nil_of s.store.crons))
                  (ground (arith, done, g, empty))
            | inr g ↦ none_match done empty (ground (arith, done, g, empty))
          ]
        ]
        | inr (x, xs, e) ↦ lists (λ h. cc) (ground (arith, e, kept s x xs e))
      ]
