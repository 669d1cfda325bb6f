-- ===== src/Cron/Executions.antt =====
-- What CronHistoryDialog.tsx shows of the executions that it holds, and what its buttons do. The
-- relative times of date-fns are left out.
use terminal_hub.Common.{
  ℕ, Bool, true, Option, none, some, List, map, Text, ◌==◌, if◌then◌else◌, length, includes, is_nil,
}
use terminal_hub.Cron.History.{
  CronExecutionResult, HistoryDialog, format_duration, has_long_output, is_zero, fetch_history,
  history_fetched, toggle_expanded, successful_runs, failed_runs, shown_content,
}

-- The button below an execution says that it shows less, or the full output.
pub data Button : Type 0 where
  show_less view_full_output : Button

-- `getExecutionIcon` and the colour of the exit code tell success from failure.
pub record Row : Type 0 where
  pub execution_id : Text
  pub is_success : Bool
  pub duration : Text
  pub output : Option Text
  pub error : Option Text
  pub button : Option Button

-- a text that is shown where it is not empty
abbrev pub shown_text : Text → Text → Option Text
shown_text content shown = if length content == 0 then none else some shown

-- the figures, and what is below them
pub record Figures : Type 0 where
  pub total : ℕ
  pub successful : ℕ
  pub failed : ℕ

pub data Body : Type 0 where
  spinner no_history : Body
  executions : List Row → Body

-- the events of the dialog; a fetch ends with the executions, or with none where it throws
pub data Event : Type 0 where
  refresh_pressed : Event
  fetched : Bool → Option (List CronExecutionResult) → Event
  button_pressed : CronExecutionResult → Event

module _ (string_of : ℕ → Text) where
  unfoldable pub row_of : List Text → CronExecutionResult → Row
  unfolding shown_content has_long_output format_duration includes
  row_of expanded execution = record {
    execution_id = execution.execution_id;
    is_success = is_zero execution.exit_code;
    duration = format_duration string_of execution.started_at execution.finished_at;
    output = shown_text execution.output (shown_content expanded execution execution.output);
    error = shown_text execution.error (shown_content expanded execution execution.error);
    button =
        if has_long_output execution
        then some (if includes execution.execution_id expanded then show_less else view_full_output)
        else none;
  }

  unfoldable pub body_of : HistoryDialog → Body
  unfolding row_of
  body_of s =
      if is_nil s.history
      then if s.loading then spinner else no_history
      else executions (map (row_of s.expanded_ids) s.history)

unfoldable pub figures_of : HistoryDialog → Figures
unfolding successful_runs failed_runs
figures_of s = record {
  total = length s.history;
  successful = successful_runs s.history;
  failed = failed_runs s.history;
}

-- The button that refreshes is disabled while it does; an execution has a button where it is long.
unfoldable pub handle : Event → HistoryDialog → HistoryDialog
unfolding fetch_history history_fetched toggle_expanded has_long_output
handle refresh_pressed s = if s.refreshing then s else fetch_history true s
handle (fetched silent answer) s = history_fetched silent answer s
handle (button_pressed execution) s =
    if has_long_output execution
    then record s { expanded_ids = toggle_expanded execution.execution_id s.expanded_ids }
    else s
