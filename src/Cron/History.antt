-- ===== src/Cron/History.antt =====
-- frontend/src/features/crons/CronHistoryDialog.tsx: the executions of a job, how they are shown, and
-- `fetchHistory` cut at its await. `String(n)` is the parameter `string_of`.
use terminal_hub.Common.{
  ℕ, ◌-◌, ◌/◌, ◌%◌, Bool, true, false, ◌||◌, Option, none, some, List, [], ◌∷◌, ◌++◌, Text, codes,
  ltb, leb, ◌==◌, if◌then◌else◌, length, take, select, includes,
}
use terminal_hub.Cron.Actions.{delete_id}

-- the exit code of a process, which the server may give as a negative number
pub data ℤ : Type 0 where
  pos negsuc : ℕ → ℤ

-- `CronExecutionResult` of api.ts, with times in seconds
pub record CronExecutionResult : Type 0 where
  pub job_id : Text
  pub execution_id : Text
  pub started_at : ℕ
  pub finished_at : ℕ
  pub exit_code : ℤ
  pub output : Text
  pub error : Text

module _ (string_of : ℕ → Text) where
  unfoldable pub format_duration : ℕ → ℕ → Text
  format_duration started_at finished_at =
      let duration_seconds = finished_at - started_at in
      let minutes = duration_seconds / 60 in
      if ltb duration_seconds 1
      then codes "<1s"
      else if ltb duration_seconds 60
      then string_of duration_seconds ++ codes "s"
      else if ltb minutes 60
      then string_of minutes ++ codes "m " ++ string_of (duration_seconds % 60) ++ codes "s"
      else string_of (minutes / 60) ++ codes "h " ++ string_of (minutes % 60) ++ codes "m"

unfoldable pub truncate_content : Text → ℕ → Text
truncate_content content max_length =
    if leb (length content) max_length then content else take max_length content ++ codes "..."

unfoldable pub has_long_output : CronExecutionResult → Bool
has_long_output execution = ltb 280 (length execution.output) || ltb 280 (length execution.error)

abbrev pub is_zero : ℤ → Bool
is_zero (pos n) = n == 0
is_zero (negsuc n) = false

pub record HistoryDialog : Type 0 where
  pub history : List CronExecutionResult
  pub loading : Bool
  pub refreshing : Bool
  pub expanded_ids : List Text

-- a new dialog, whose effect fetches the history
abbrev pub initial : HistoryDialog
initial = record { history = []; loading = true; refreshing = false; expanded_ids = [] }

abbrev set_flag : Bool → Bool → HistoryDialog → HistoryDialog
set_flag true flag s = record s { refreshing = flag }
set_flag false flag s = record s { loading = flag }

-- `fetchHistory` up to its await
unfoldable pub fetch_history : Bool → HistoryDialog → HistoryDialog
fetch_history silent s = set_flag silent true s

abbrev with_history : Option (List CronExecutionResult) → HistoryDialog → HistoryDialog
with_history none s = s
with_history (some executions) s = record s { history = executions }

-- behind its await: `none` where `getCronHistory` throws
unfoldable pub history_fetched :
    Bool → Option (List CronExecutionResult) → HistoryDialog → HistoryDialog
history_fetched silent answer s = set_flag silent false (with_history answer s)

-- `toggleExpanded` on the set of the executions that are shown in full
unfoldable pub toggle_expanded : Text → List Text → List Text
unfolding delete_id includes
toggle_expanded id expanded = if includes id expanded then delete_id id expanded else id ∷ expanded

unfoldable pub successful_runs : List CronExecutionResult → ℕ
successful_runs history = length (select (λ e. is_zero e.exit_code) history)

unfoldable pub failed_runs : List CronExecutionResult → ℕ
unfolding successful_runs
failed_runs history = length history - successful_runs history

-- what the dialog shows of an output, or of an error
unfoldable pub shown_content : List Text → CronExecutionResult → Text → Text
unfolding includes truncate_content
shown_content expanded execution content =
    if includes execution.execution_id expanded then content else truncate_content content 280
