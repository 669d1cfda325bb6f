-- ===== src/Cron/Jobs.antt =====
-- frontend/src/features/crons/CronPage.tsx: the jobs that the page lists, filtered and sorted. Of a
-- comparison only the sign is kept, all that `sort` reads. `localeCompare` and `toLowerCase` are
-- parameters.
use terminal_hub.Common.{
  ℕ, Bool, true, false, not, ◌&&◌, ◌||◌, List, [], ◌∷◌, Text, codes, ltb, ◌==◌, if◌then◌else◌,
  length, select, trim, text_eq,
}
use terminal_hub.Cron.Api.{CronJob}

pub data Sign : Type 0 where
  negative zero_sign positive : Sign

pub data CronSortKey : Type 0 where
  name schedule next_run last_run status runs failures : CronSortKey

pub data CronSortDirection : Type 0 where
  asc desc : CronSortDirection

pub data CronStatusFilter : Type 0 where
  all_jobs enabled_jobs disabled_jobs failing_jobs : CronStatusFilter

unfoldable pub is_failing_job : CronJob → Bool
unfolding text_eq
is_failing_job job =
    text_eq job.metadata.last_run_status (codes "failed") || ltb 0 job.metadata.failure_count

unfoldable pub default_direction_for_sort : CronSortKey → CronSortDirection
default_direction_for_sort last_run = desc
default_direction_for_sort runs = desc
default_direction_for_sort failures = desc
default_direction_for_sort _ = asc

abbrev pub key_index : CronSortKey → ℕ
key_index name = 0
key_index schedule = 1
key_index next_run = 2
key_index last_run = 3
key_index status = 4
key_index runs = 5
key_index failures = 6

abbrev other_direction : CronSortDirection → CronSortDirection
other_direction asc = desc
other_direction desc = asc

-- the key and the direction behind a click on a column
unfoldable pub handle_sort_change :
    CronSortKey → CronSortKey × CronSortDirection → CronSortKey × CronSortDirection
unfolding default_direction_for_sort
handle_sort_change next (key, direction) =
    if key_index next == key_index key
    then (key, other_direction direction)
    else (next, default_direction_for_sort next)

unfoldable pub get_status_rank : CronJob → ℕ
unfolding text_eq
get_status_rank job =
    if not job.enabled
    then 4
    else if text_eq job.metadata.last_run_status (codes "failed")
    then 0
    else if text_eq job.metadata.last_run_status (codes "running")
    then 1
    else if text_eq job.metadata.last_run_status (codes "success")
    then 2
    else 3

-- the sign of a difference
abbrev pub sign_of : ℕ → ℕ → Sign
sign_of a b = if ltb a b then negative else if ltb b a then positive else zero_sign

-- `comparison * -1`
abbrev pub opposite : Sign → Sign
opposite negative = positive
opposite zero_sign = zero_sign
opposite positive = negative

abbrev pub is_after : Sign → Bool
is_after positive = true
is_after _ = false

-- `Number.MAX_SAFE_INTEGER`
abbrev pub max_safe_integer : ℕ
max_safe_integer = 9007199254740991

abbrev pub next_run_of : CronJob → ℕ
next_run_of job =
    if job.enabled && ltb 0 job.metadata.next_run_at
    then job.metadata.next_run_at
    else max_safe_integer

unfoldable pub matches_status_filter : CronJob → CronStatusFilter → Bool
unfolding is_failing_job
matches_status_filter job enabled_jobs = job.enabled
matches_status_filter job disabled_jobs = not job.enabled
matches_status_filter job failing_jobs = is_failing_job job
matches_status_filter job all_jobs = true

-- `includes` of a text in a text
unfoldable pub starts_with : Text → Text → Bool
starts_with [] s = true
starts_with (p ∷ ps) [] = false
starts_with (p ∷ ps) (c ∷ s) = p == c && starts_with ps s

unfoldable pub contains : Text → Text → Bool
unfolding starts_with
contains query [] = starts_with query []
contains query (c ∷ s) = starts_with query (c ∷ s) || contains query s

module _ (locale_compare : Text → Text → Sign) (to_lower : Text → Text) where
  -- `comparison` of `compareJobs`
  unfoldable pub compare_by : CronSortKey → CronJob → CronJob → Sign
  unfolding get_status_rank
  compare_by name left right = locale_compare (to_lower left.name) (to_lower right.name)
  compare_by schedule left right = locale_compare left.schedule right.schedule
  compare_by next_run left right = sign_of (next_run_of left) (next_run_of right)
  compare_by last_run left right = sign_of left.metadata.last_run_at right.metadata.last_run_at
  compare_by status left right = sign_of (get_status_rank left) (get_status_rank right)
  compare_by runs left right = sign_of left.metadata.total_runs right.metadata.total_runs
  compare_by failures left right = sign_of left.metadata.failure_count right.metadata.failure_count

  unfoldable pub compare_jobs : CronSortKey → CronSortDirection → CronJob → CronJob → Sign
  unfolding compare_by
  compare_jobs key asc left right = compare_by key left right
  compare_jobs key desc left right = opposite (compare_by key left right)

  -- a stable sort, as `sort` is
  unfoldable pub insert_job :
      CronSortKey → CronSortDirection → CronJob → List CronJob → List CronJob
  unfolding compare_jobs
  insert_job key direction x [] = x ∷ []
  insert_job key direction x (y ∷ ys) =
      let later = y ∷ insert_job key direction x ys in
      if is_after (compare_jobs key direction x y) then later else x ∷ y ∷ ys

  unfoldable pub sort_jobs : CronSortKey → CronSortDirection → List CronJob → List CronJob
  unfolding insert_job
  sort_jobs key direction [] = []
  sort_jobs key direction (x ∷ xs) = insert_job key direction x (sort_jobs key direction xs)

  unfoldable pub is_listed : Text → CronStatusFilter → CronJob → Bool
  unfolding matches_status_filter contains
  is_listed search_query filter job =
      let query = to_lower (trim search_query) in
      matches_status_filter job filter
      && (length query == 0
          || contains query (to_lower job.name)
          || contains query (to_lower job.command)
          || contains query (to_lower job.schedule))

  unfoldable pub filtered_and_sorted_crons :
      Text → CronStatusFilter → CronSortKey → CronSortDirection → List CronJob → List CronJob
  unfolding is_listed sort_jobs
  filtered_and_sorted_crons query filter key direction crons =
      sort_jobs key direction (select (is_listed query filter) crons)
