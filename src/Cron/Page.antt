-- ===== src/Cron/Page.antt =====
-- frontend/src/features/crons/CronPage.tsx as a whole: what the user chooses to see, the dialogs, the
-- manual refresh cut at its await, and which panels are shown of the provider's state.
use terminal_hub.Common.{
  ℕ, ◌+◌, ◌-◌, Bool, true, false, not, ◌&&◌, Option, none, List, [], ◌∷◌, ◌++◌, Text, ltb, ◌==◌,
  if◌then◌else◌, length, select, trim, ◌⊎◌,
}
use terminal_hub.Cron.Api.{CronJob}
use terminal_hub.Cron.Jobs.{
  Sign, CronSortKey, next_run, CronSortDirection, asc, CronStatusFilter, all_jobs, enabled_jobs,
  disabled_jobs, failing_jobs, is_failing_job, handle_sort_change, filtered_and_sorted_crons,
}
use terminal_hub.Cron.Store.{CronStore, refreshed, begin_refresh}
use terminal_hub.Cron.Store

-- the state of the page and of the provider that it reads; `refreshes` are the calls of
-- `refreshCrons` that await the server, newest first, `true` for a manual one
pub record CronPage : Type 0 where
  pub store : CronStore
  pub search_query : Text
  pub status_filter : CronStatusFilter
  pub sort_key : CronSortKey
  pub sort_direction : CronSortDirection
  pub show_create_dialog : Bool
  pub editing_job : Option CronJob
  pub history_job : Option CronJob
  pub refreshing : Bool
  pub manual_refreshes : ℕ
  pub silent_refreshes : ℕ

abbrev pub initial : CronStore → CronPage
initial store = record {
  store = store;
  search_query = [];
  status_filter = all_jobs;
  sort_key = next_run;
  sort_direction = asc;
  show_create_dialog = false;
  editing_job = none;
  history_job = none;
  refreshing = false;
  manual_refreshes = 0;
  silent_refreshes = 0;
}

-- `handleManualRefresh` up to its await; its button is disabled while `refreshing`
unfoldable pub handle_manual_refresh : CronPage → CronPage
unfolding begin_refresh
handle_manual_refresh s = if s.refreshing then s else record s {
  refreshing = true;
  store = begin_refresh false s.store;
  manual_refreshes = s.manual_refreshes + 1;
}

-- behind its await, whether `refreshCrons` threw or not
unfoldable pub manual_refresh_ended : Text ⊎ List CronJob → CronPage → CronPage
unfolding refreshed
manual_refresh_ended answer s = if s.manual_refreshes == 0 then s else record s {
  refreshing = false;
  store = refreshed false answer s.store;
  manual_refreshes = s.manual_refreshes - 1;
}

-- `handleWindowFocus`, and `handleVisibility` of a page that is visible
unfoldable pub refresh_silently : CronPage → CronPage
unfolding begin_refresh
refresh_silently s = record s {
  store = begin_refresh true s.store;
  silent_refreshes = s.silent_refreshes + 1;
}

unfoldable pub handle_visibility : Bool → CronPage → CronPage
unfolding refresh_silently
handle_visibility visible s = if visible then refresh_silently s else s

unfoldable pub silent_refresh_ended : Text ⊎ List CronJob → CronPage → CronPage
unfolding refreshed
silent_refresh_ended answer s = if s.silent_refreshes == 0 then s else record s {
  store = refreshed true answer s.store;
  silent_refreshes = s.silent_refreshes - 1;
}

-- The user types, filters, sorts, opens and closes dialogs; the page refreshes; and the provider
-- handles an event of its own.
pub data Event : Type 0 where
  searched : Text → Event
  filtered : CronStatusFilter → Event
  sorted : CronSortKey → Event
  create_shown : Bool → Event
  edited viewed : Option CronJob → Event
  refresh_pressed focused : Event
  visibility_changed : Bool → Event
  manual_answered silent_answered : Text ⊎ List CronJob → Event
  provided : Store.Event → Event

unfoldable pub handle : Event → CronPage → CronPage
unfolding handle_sort_change handle_manual_refresh manual_refresh_ended refresh_silently
    handle_visibility silent_refresh_ended Store.handle
handle (searched query) s = record s { search_query = query }
handle (filtered filter) s = record s { status_filter = filter }
handle (sorted key) s =
    let next = handle_sort_change key (s.sort_key, s.sort_direction) in
    record s { sort_key = next.0; sort_direction = next.1 }
handle (create_shown shown) s = record s { show_create_dialog = shown }
handle (edited job) s = record s { editing_job = job }
handle (viewed job) s = record s { history_job = job }
handle refresh_pressed s = handle_manual_refresh s
handle focused s = refresh_silently s
handle (visibility_changed visible) s = handle_visibility visible s
handle (manual_answered answer) s = manual_refresh_ended answer s
handle (silent_answered answer) s = silent_refresh_ended answer s
handle (provided e) s = record s { store = Store.handle e s.store }

unfoldable pub run : List Event → CronPage → CronPage
unfolding handle
run [] s = s
run (e ∷ es) s = run es (handle e s)

-- the figures above the list
unfoldable pub total_jobs : List CronJob → ℕ
total_jobs crons = length crons

unfoldable pub enabled_count : List CronJob → ℕ
enabled_count crons = length (select (λ job. job.enabled) crons)

unfoldable pub disabled_count : List CronJob → ℕ
unfolding total_jobs enabled_count
disabled_count crons = total_jobs crons - enabled_count crons

unfoldable pub failing_count : List CronJob → ℕ
unfolding is_failing_job
failing_count crons = length (select (λ job. is_failing_job job) crons)

abbrev is_all : CronStatusFilter → Bool
is_all all_jobs = true
is_all enabled_jobs = false
is_all disabled_jobs = false
is_all failing_jobs = false

-- What is shown in the place of the list.
pub data Panel : Type 0 where
  loading_panel global_empty filtered_empty : Panel
  table : List CronJob → Panel

abbrev when : Bool → Panel → List Panel
when true p = p ∷ []
when false p = []

unfoldable pub show_global_empty_state : CronPage → Bool
unfolding total_jobs
show_global_empty_state s =
    not s.store.loading
    && total_jobs s.store.crons == 0
    && length (trim s.search_query) == 0
    && is_all s.status_filter

module _ (locale_compare : Text → Text → Sign) (to_lower : Text → Text) where
  -- `filteredAndSortedCrons` of the page
  abbrev pub listed : CronPage → List CronJob
  listed s =
      filtered_and_sorted_crons locale_compare to_lower s.search_query s.status_filter s.sort_key
        s.sort_direction s.store.crons

  unfoldable pub show_filtered_empty_state : CronPage → Bool
  unfolding show_global_empty_state filtered_and_sorted_crons
  show_filtered_empty_state s =
      not s.store.loading && length (listed s) == 0 && not (show_global_empty_state s)

  -- the panels, from top to bottom
  unfoldable pub panels : CronPage → List Panel
  unfolding show_global_empty_state show_filtered_empty_state filtered_and_sorted_crons total_jobs
  panels s =
      when (s.store.loading && total_jobs s.store.crons == 0) loading_panel
      ++ (when (show_global_empty_state s) global_empty
          ++ (when (show_filtered_empty_state s) filtered_empty
              ++ when
                  (not (show_global_empty_state s)
                    && not (show_filtered_empty_state s)
                    && ltb 0 (length (listed s)))
                  (table (listed s))))
