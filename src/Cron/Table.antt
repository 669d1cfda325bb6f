-- ===== src/Cron/Table.antt =====
-- frontend/src/features/crons/CronTable.tsx: its rows and headers, and what its buttons do on
-- CronPage.tsx, whose actions Cron/Actions models. `formatDistanceToNow` and `toLocaleString`, on
-- seconds, are the parameters `distance` and `locale_string`.
use terminal_hub.Common.{
  ℕ, Bool, not, ◌||◌, Option, none, some, List, [], ◌∷◌, ◌++◌, Text, codes, ◌==◌, if◌then◌else◌,
  includes,
}
use terminal_hub.Http.{Call, run_cron_now, enable_cron, disable_cron, delete_cron}
use terminal_hub.Cron.Api.{CronJob}
use terminal_hub.Cron.Jobs.{CronSortKey, CronSortDirection, asc, desc, key_index}
use terminal_hub.Cron.Labels.{get_status_label, status_class_name}
use terminal_hub.Cron.Actions.{Actions, no_actions, run_job_action, job_action_ended}

-- the icon of a header
pub data SortIcon : Type 0 where
  arrow_up_down chevron_up chevron_down : SortIcon

abbrev icon_of : CronSortDirection → SortIcon
icon_of asc = chevron_up
icon_of desc = chevron_down

-- `SortableHeader`
unfoldable pub sortable_header : CronSortKey → CronSortKey → CronSortDirection → SortIcon
sortable_header column active direction =
    if key_index active == key_index column then icon_of direction else arrow_up_down

-- The buttons of a row: all but the first have one flag, the second says what it does.
pub record Row : Type 0 where
  pub name : Text
  pub command : Text
  pub schedule : Text
  pub next_run : Text
  pub next_run_title : Text
  pub last_run : Text
  pub last_run_title : Text
  pub status : Text
  pub status_class : Text
  pub total_runs : ℕ
  pub failure_count : ℕ
  pub is_run_disabled : Bool
  pub is_disabled : Bool
  pub toggle_title : Text
  pub action_class : Text
  pub run_class : Text

unfoldable pub row_action_class_name : Bool → Text
row_action_class_name busy =
    codes "p-1.5 rounded-md text-zinc-400 hover:text-zinc-100 hover:bg-zinc-800 transition-colors"
    ++ (if busy then codes " opacity-60 cursor-not-allowed" else [])

module _ (distance locale_string : ℕ → Text) where
  unfoldable pub format_relative_unix : ℕ → Text
  format_relative_unix timestamp = if timestamp == 0 then codes "Never" else distance timestamp

  unfoldable pub format_absolute_unix : ℕ → Text
  format_absolute_unix timestamp =
      if timestamp == 0 then codes "Not scheduled" else locale_string timestamp

  unfoldable pub row_of : List Text → CronJob → Row
  unfolding format_relative_unix format_absolute_unix get_status_label status_class_name
      row_action_class_name includes
  row_of pending job =
      let is_busy = includes job.id pending in
      record {
        name = job.name;
        command = job.command;
        schedule = job.schedule;
        next_run =
            if job.enabled then format_relative_unix job.metadata.next_run_at else codes "Disabled";
        next_run_title = format_absolute_unix job.metadata.next_run_at;
        last_run = format_relative_unix job.metadata.last_run_at;
        last_run_title = format_absolute_unix job.metadata.last_run_at;
        status = get_status_label job;
        status_class = status_class_name (get_status_label job);
        total_runs = job.metadata.total_runs;
        failure_count = job.metadata.failure_count;
        is_run_disabled = is_busy || not job.enabled;
        is_disabled = is_busy;
        toggle_title = if job.enabled then codes "Disable" else codes "Enable";
        action_class = row_action_class_name is_busy;
        run_class = row_action_class_name (is_busy || not job.enabled);
      }

-- The page behind the table: its actions, the jobs of its two dialogs, and the calls that were made,
-- newest first, each with the job of the row that it was made from.
pub record Table : Type 0 where
  pub actions : Actions
  pub editing_job : Option CronJob
  pub history_job : Option CronJob
  pub calls : List (CronJob × Call)

abbrev pub initial : Table
initial = record { actions = no_actions; editing_job = none; history_job = none; calls = [] }

-- A button of the row of a job is pressed (`confirm` answers the one that deletes), a dialog is
-- closed, or an action on a job ends.
pub data Event : Type 0 where
  run_pressed toggle_pressed edit_pressed history_pressed : CronJob → Event
  delete_pressed : CronJob → Bool → Event
  edit_closed history_closed : Event
  action_ended : Text → Event

abbrev pub start_action : CronJob → Call → Table → Table
start_action job call s = record s {
  actions = run_job_action job.id s.actions;
  calls = (job, call) ∷ s.calls;
}

abbrev pub is_busy : CronJob → Table → Bool
is_busy job s = includes job.id s.actions.pending_job_ids

-- `onToggleEnabled` of the page
abbrev pub toggle_call : Text → Bool → Call
toggle_call id enabled = if enabled then enable_cron id else disable_cron id

unfoldable pub handle : Event → Table → Table
unfolding run_job_action job_action_ended
handle (run_pressed job) s =
    if is_busy job s || not job.enabled then s else start_action job (run_cron_now job.id) s
handle (toggle_pressed job) s =
    if is_busy job s then s else start_action job (toggle_call job.id (not job.enabled)) s
handle (edit_pressed job) s = if is_busy job s then s else record s { editing_job = some job }
handle (history_pressed job) s = if is_busy job s then s else record s { history_job = some job }
handle (delete_pressed job confirmed) s =
    if is_busy job s || not confirmed then s else start_action job (delete_cron job.id) s
handle edit_closed s = record s { editing_job = none }
handle history_closed s = record s { history_job = none }
handle (action_ended id) s = record s { actions = job_action_ended id s.actions }

unfoldable pub run : List Event → Table → Table
unfolding handle
run [] s = s
run (e ∷ es) s = run es (handle e s)
