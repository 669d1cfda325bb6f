-- ===== src/Cron/Sorted.antt =====
-- The order and the members of the list of CronPage.tsx.
use terminal_hub.Common.{
  ℕ, ◌≡◌, refl, ap, ◌∙◌, Bool, true, false, ◌&&◌, List, [], ◌∷◌, Text, length, select, arith,
}
use terminal_hub.Cron.Api.{CronJob}
use terminal_hub.Cron.Jobs.{
  Sign, negative, zero_sign, positive, CronSortKey, name, schedule, next_run, last_run, status,
  runs, failures, CronSortDirection, asc, desc, CronStatusFilter, sign_of, opposite,
  get_status_rank, next_run_of, compare_by, compare_jobs, is_after, insert_job, sort_jobs,
  is_listed, filtered_and_sorted_crons,
}

opposite_twice : (s : Sign) → opposite (opposite s) ≡ s
opposite_twice negative = refl
opposite_twice zero_sign = refl
opposite_twice positive = refl

sign_of_swapped : (a b : ℕ) → sign_of b a ≡ opposite (sign_of a b)
sign_of_swapped a b = ground arith

count-select :
    (p q : CronJob → Bool) (xs : List CronJob)
    → length (select p (select q xs)) ≡ length (select (λ x. q x && p x) xs)
unfolding select
count-select p q [] = refl
count-select p q (x ∷ xs) = ground (arith, count-select p q xs)

module _ (locale_compare : Text → Text → Sign) (to_lower : Text → Text) where
  abbrev pub IsSorted : CronSortKey → CronSortDirection → List CronJob → Type 0
  IsSorted key direction [] = Unit
  IsSorted key direction (x ∷ []) = Unit
  IsSorted key direction (x ∷ y ∷ ys) =
      (is_after (compare_jobs locale_compare to_lower key direction x y) ≡ false)
      × IsSorted key direction (y ∷ ys)

  module _ (swapped : (a b : Text) → locale_compare b a ≡ opposite (locale_compare a b)) where
    compare_by_swapped :
        (key : CronSortKey) (x y : CronJob)
        → compare_by locale_compare to_lower key y x
          ≡ opposite (compare_by locale_compare to_lower key x y)
    unfolding compare_by
    compare_by_swapped name x y = swapped (to_lower x.name) (to_lower y.name)
    compare_by_swapped schedule x y = swapped x.schedule y.schedule
    compare_by_swapped next_run x y = sign_of_swapped (next_run_of x) (next_run_of y)
    compare_by_swapped last_run x y = sign_of_swapped x.metadata.last_run_at y.metadata.last_run_at
    compare_by_swapped status x y = sign_of_swapped (get_status_rank x) (get_status_rank y)
    compare_by_swapped runs x y = sign_of_swapped x.metadata.total_runs y.metadata.total_runs
    compare_by_swapped failures x y =
        sign_of_swapped x.metadata.failure_count y.metadata.failure_count

    compare_jobs_swapped :
        (key : CronSortKey) (direction : CronSortDirection) (x y : CronJob)
        → compare_jobs locale_compare to_lower key direction y x
          ≡ opposite (compare_jobs locale_compare to_lower key direction x y)
    unfolding compare_jobs
    compare_jobs_swapped key asc x y = compare_by_swapped key x y
    compare_jobs_swapped key desc x y = ap opposite (compare_by_swapped key x y)

    is_after_swapped :
        (key : CronSortKey) (direction : CronSortDirection) (x y : CronJob)
        → is_after (compare_jobs locale_compare to_lower key direction x y) ≡ true
        → is_after (compare_jobs locale_compare to_lower key direction y x) ≡ false
    is_after_swapped key direction x y h = ground (arith, compare_jobs_swapped key direction x y)

    pub compare_jobs_turned :
        (key : CronSortKey) (x y : CronJob)
        → is_after (compare_jobs locale_compare to_lower key desc x y) ≡ false
        → is_after (compare_jobs locale_compare to_lower key asc y x) ≡ false
    unfolding compare_jobs
    compare_jobs_turned key x y h = ground (arith, h, compare_by_swapped key x y)

    insert-IsSorted :
        (key : CronSortKey) (direction : CronSortDirection) (x : CronJob) (ys : List CronJob)
        → IsSorted key direction ys
        → IsSorted key direction (insert_job locale_compare to_lower key direction x ys)
    unfolding insert_job
    insert-IsSorted key direction x [] h = tt
    insert-IsSorted key direction x (y ∷ []) h = ground (arith, is_after_swapped key direction x y)
    insert-IsSorted key direction x (y ∷ z ∷ zs) h =
        ground
          (arith, h, is_after_swapped key direction x y, insert-IsSorted key direction x (z ∷ zs))

    sort-IsSorted :
        (key : CronSortKey) (direction : CronSortDirection) (xs : List CronJob)
        → IsSorted key direction (sort_jobs locale_compare to_lower key direction xs)
    unfolding sort_jobs
    sort-IsSorted key direction [] = tt
    sort-IsSorted key direction (x ∷ xs) =
        insert-IsSorted key direction x _ (sort-IsSorted key direction xs)

  count-insert :
      (p : CronJob → Bool) (key : CronSortKey) (direction : CronSortDirection) (x : CronJob)
      (ys : List CronJob)
      → length (select p (insert_job locale_compare to_lower key direction x ys))
        ≡ length (select p (x ∷ ys))
  unfolding insert_job select
  count-insert p key direction x [] = refl
  count-insert p key direction x (y ∷ ys) = ground (arith, count-insert p key direction x ys)

  count-sort :
      (p : CronJob → Bool) (key : CronSortKey) (direction : CronSortDirection) (xs : List CronJob)
      → length (select p (sort_jobs locale_compare to_lower key direction xs))
        ≡ length (select p xs)
  unfolding sort_jobs select
  count-sort p key direction [] = refl
  count-sort p key direction (x ∷ xs) = ground (
    arith,
    count-insert p key direction x (sort_jobs locale_compare to_lower key direction xs),
    count-sort p key direction xs,
  )

  -- of each kind of job, the list holds as many as there are that pass the filter and the search
  pub count-filtered :
      (p : CronJob → Bool) (query : Text) (filter : CronStatusFilter) (key : CronSortKey)
      (direction : CronSortDirection) (crons : List CronJob)
      → length (
          select p
            (filtered_and_sorted_crons locale_compare to_lower query filter key direction crons))
        ≡ length (select (λ x. is_listed locale_compare to_lower query filter x && p x) crons)
  unfolding filtered_and_sorted_crons
  count-filtered p query filter key direction crons =
      count-sort p key direction (select (is_listed locale_compare to_lower query filter) crons)
      ∙ count-select p (is_listed locale_compare to_lower query filter) crons

  -- Whatever the key and the direction, no job of the list stands right before one that it should
  -- follow, where turning the arguments of `localeCompare` turns its sign; and sorting neither loses a
  -- job nor lists one twice: of each kind of job, whatever tells it apart, the list holds as many as
  -- there are that pass the filter and the search.
  pub filtered-IsSorted :
      (swapped : (a b : Text) → locale_compare b a ≡ opposite (locale_compare a b)) (query : Text)
      (filter : CronStatusFilter) (key : CronSortKey) (direction : CronSortDirection)
      (crons : List CronJob)
      → IsSorted key direction
          (filtered_and_sorted_crons locale_compare to_lower query filter key direction crons)
        × ((p : CronJob → Bool)
            → length (
                select p (
                  filtered_and_sorted_crons locale_compare to_lower query filter key direction
                    crons))
              ≡ length
                  (select (λ x. is_listed locale_compare to_lower query filter x && p x) crons))
  unfolding filtered_and_sorted_crons
  filtered-IsSorted swapped query filter key direction crons = (
    sort-IsSorted swapped key direction
        (select (is_listed locale_compare to_lower query filter) crons),
    λ p. count-filtered p query filter key direction crons,
  )
