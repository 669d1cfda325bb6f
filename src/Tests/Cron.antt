-- ===== src/Tests/Cron.antt =====
-- Environment variables of a cron job.
use terminal_hub.Common.{
  select, List, Bool, includes, ◌||◌, not, ℕ, zero, suc, ◌⊎◌, ◌≡◌, All, ◌↔◌, refl, some, [], ◌∷◌,
  Text, codes, arith, length, leb, text_eq, none, true, false, inr, trim, ◌&&◌, trim_start,
  trim_end, is_space, one_of,
}
use terminal_hub.Cron.Env.{
  Vars, to_parsed, parse_env_vars_text, env_vars_to_text, sort_keys, is_env_var_key, has_own,
  all_units, split_env_lines,
}
use terminal_hub.Cron.EnvRoundTrip.{parse-env_vars_to_text}
use terminal_hub.Cron.Api.{CronMetadata, CronJob, UpdateCronRequest}
use terminal_hub.Cron.Form.{
  CronFormValues, validate_cron_schedule_expression, create_cron_form_values,
  form_values_to_update_request, validate_fields, split_fields, invalid_field_index, is_cron_field,
  is_cron_unit,
}
use terminal_hub.Cron.Jobs.{
  Sign, sign_of, opposite, name, desc, all_jobs, is_listed, filtered_and_sorted_crons,
}
use terminal_hub.Cron.Presets.{
  submit-usage, schedule_input, usage, pressed_preset, offer, cron_schedule_presets,
}
use terminal_hub.Cron.Ordered.{IsOrdered, Passes, filtered-IsOrdered}
use terminal_hub.Cron.Store.{
  Event, refresh_answered, create_answered, switch_answered, delete_answered, handle, run, initial,
}
use terminal_hub.Cron.Lookup.{find_job, answer_jobs, is_distinct, handle-answer_jobs, distinct-run}
use terminal_hub.Cron.Schedule.{words, five_or_six, all_fields, validate-words}
use terminal_hub.Cron.Dialog.{can_submit, validate_required, edit, submitted, opened}
use terminal_hub.Cron.Dialog
use terminal_hub.Cron.Submits.{IsOrderly, run-IsOrderly}
use terminal_hub.Cron.Busy.{IsBusy}
use terminal_hub.Http.{run_cron_now, disable_cron, delete_cron}
use terminal_hub.Cron.Table.{run_pressed, toggle_pressed, delete_pressed, action_ended}
use terminal_hub.Cron.Table
use terminal_hub.Cron.Pressed.{AreMeant, run-AreMeant}
use terminal_hub.Cron.History
use terminal_hub.Cron.History.{CronExecutionResult, HistoryDialog, pos}
use terminal_hub.Cron.Executions.{row_of, button_pressed, view_full_output}
use terminal_hub.Cron.Executions
use terminal_hub.Cron.Expanded.{IsWhole, row-IsWhole}
use terminal_hub.Cron.Requests.{no_updates, IsShown, apply_update, unchanged-update, update_applied}

abbrev two_vars : Vars
two_vars = (codes "PATH", codes "/bin") ∷ (codes "A", codes " x=y ") ∷ []

abbrev by_length : Text → Text → Bool
by_length a b = leb (length a) (length b)

parse-env_vars_to_text_example :
    parse_env_vars_text (env_vars_to_text by_length (some two_vars))
    ≡ to_parsed (sort_keys by_length two_vars, [])
parse-env_vars_to_text_example =
    parse-env_vars_to_text by_length two_vars
      (unfold is_env_var_key text_eq in
        ((refl, refl, omega arith), ((refl, refl, omega arith), tt)))
      (unfold has_own text_eq in (refl, (refl, tt)))

nightly : (validate_cron_schedule_expression (codes " 0 2  * * 1-5 ")).valid ≡ true
unfolding validate_cron_schedule_expression validate_fields split_fields invalid_field_index
    is_cron_field is_cron_unit all_units trim trim_start trim_end is_space one_of
nightly = refl

validate-words_example :
    let value = codes " 0 2  * * 1-5 " in
    (validate_cron_schedule_expression value).valid
    ≡ five_or_six (words value) && all_fields (words value)
validate-words_example = validate-words (codes " 0 2  * * 1-5 ")

abbrev metadata : CronMetadata
metadata = record {
  created_at = 1;
  updated_at = 1;
  last_run_at = 0;
  next_run_at = 90;
  last_run_status = [];
  last_run_output = [];
  last_run_error = [];
  total_runs = 0;
  failure_count = 0;
  execution_count = 0;
  concurrent_runs = 0;
}

abbrev backup : CronJob
backup = record {
  id = codes "1";
  metadata = metadata;
  name = codes "backup";
  schedule = codes "0 2 * * *";
  command = codes "tar c .";
  shell = none;
  working_directory = some (codes "/srv");
  env_vars = some two_vars;
  enabled = true;
}

by_length_total : (a b : Text) → by_length a b ≡ false → by_length b a ≡ true
by_length_total a b h = ground arith

unchanged-update_example :
    form_values_to_update_request by_length (create_cron_form_values by_length (some backup)) backup
    ≡ inr no_updates
unchanged-update_example =
    unchanged-update by_length by_length_total backup
      (unfold trim trim_start trim_end is_space one_of in refl)
      (unfold trim trim_start trim_end is_space one_of in refl)
      (
        (unfold is_env_var_key text_eq in
            ((refl, refl, omega arith), ((refl, refl, omega arith), tt))),
        (unfold has_own text_eq in (refl, (refl, tt))),
      )

abbrev renamed : CronFormValues
renamed = record {
  name = codes " nightly ";
  schedule = codes "0 2 * * *";
  command = codes "tar c .";
  shell = [];
  working_directory = codes "/srv";
  env_vars_text = [];
  enabled = true;
}

abbrev renaming : UpdateCronRequest
renaming = record no_updates { name = some (codes "nightly"); env_vars = some [] }

renaming_sent : form_values_to_update_request by_length renamed backup ≡ inr renaming
unfolding form_values_to_update_request parse_env_vars_text split_env_lines trim text_eq
    env_vars_to_text
renaming_sent = refl

update_applied_example :
    IsShown renamed (apply_update renaming backup)
    × (env_vars_to_text by_length (apply_update renaming backup).env_vars
        ≡ env_vars_to_text by_length (parse_env_vars_text renamed.env_vars_text).env_vars)
update_applied_example = update_applied by_length renamed backup renaming renaming_sent

abbrev served : List Event
served =
    refresh_answered false (inr (backup ∷ []))
    ∷ create_answered (codes "n") (inr (record backup { id = codes "2" }))
    ∷ switch_answered (codes "1") false none
    ∷ delete_answered (codes "2") none
    ∷ []

distinct-run_example : is_distinct (run served initial).crons ≡ true
distinct-run_example =
    distinct-run served (unfold is_distinct find_job in (refl, (tt, (tt, (tt, tt)))))

handle-answer_jobs_example :
    let s = run served initial in
    find_job (codes "1") (handle (switch_answered (codes "1") true none) s).crons
    ≡ answer_jobs (switch_answered (codes "1") true none) (λ j. find_job j s.crons) (codes "1")
handle-answer_jobs_example =
    handle-answer_jobs (switch_answered (codes "1") true none) (run served initial) (codes "1")

abbrev compare_length : Text → Text → Sign
compare_length a b = sign_of (length a) (length b)

compare_length_swapped : (a b : Text) → compare_length b a ≡ opposite (compare_length a b)
compare_length_swapped a b = ground arith

abbrev three_jobs : List CronJob
three_jobs =
    record backup { id = codes "2"; name = codes "weekly" }
    ∷ backup
    ∷ record backup { id = codes "3"; name = codes "x"; enabled = false }
    ∷ []

abbrev tar_jobs : List CronJob
tar_jobs =
    filtered_and_sorted_crons compare_length (λ t. t) (codes "tar") all_jobs name desc three_jobs

filtered-IsOrdered_example :
    IsOrdered compare_length (λ t. t) name desc tar_jobs
    × (length (select (λ x. x.enabled) tar_jobs)
        ≡ length (
            select
              (λ x. is_listed compare_length (λ t. t) (codes "tar") all_jobs x && x.enabled)
              three_jobs))
    × ((is_listed compare_length (λ t. t) (codes "tar") all_jobs backup ≡ true)
        ↔ Passes compare_length (λ t. t) (codes "tar") all_jobs backup)
filtered-IsOrdered_example =
    filtered-IsOrdered compare_length (λ t. t) compare_length_swapped (codes "tar") all_jobs name
      desc three_jobs (λ x. x.enabled) backup

run-IsOrderly_example : IsOrderly (
    Dialog.run by_length
      (edit backup)
      (submitted ∷ submitted ∷ [])
      (opened by_length (edit backup)))
run-IsOrderly_example = run-IsOrderly by_length (edit backup) (submitted ∷ submitted ∷ [])

abbrev no_digits : ℕ → Text
no_digits n = []

-- a job is run, and switched while it runs; then it is switched and deleted
abbrev presses : List Table.Event
presses =
    run_pressed backup
    ∷ toggle_pressed backup
    ∷ action_ended backup.id
    ∷ toggle_pressed backup
    ∷ action_ended backup.id
    ∷ delete_pressed backup true
    ∷ []

abbrev pressed_table : Table.Table
pressed_table = Table.run presses Table.initial

pressed_calls :
    pressed_table.calls
    ≡ (backup, delete_cron backup.id)
      ∷ (backup, disable_cron backup.id)
      ∷ (backup, run_cron_now backup.id)
      ∷ []
unfolding Table.run text_eq
pressed_calls = refl

run-AreMeant_example :
    let row = Table.row_of no_digits no_digits pressed_table.actions.pending_job_ids backup in
    AreMeant pressed_table.calls
    × IsBusy pressed_table.actions
    × (row.is_disabled ≡ includes backup.id pressed_table.actions.running)
    × (row.is_run_disabled
        ≡ (includes backup.id pressed_table.actions.running || not backup.enabled))
run-AreMeant_example = run-AreMeant no_digits no_digits presses backup

-- a dialog that edits a job, with another name
abbrev renaming_dialog : Dialog.Dialog
renaming_dialog = record (opened by_length (edit backup)) { values = renamed }

submit-usage_example :
    ((can_submit renaming_dialog ≡ true) ↔ (
      (renaming_dialog.is_submitting ≡ false)
      × ((schedule_input renamed.schedule none renaming_dialog.is_submitting).hint ≡ usage)))
    × All
        (λ p.
          let t = pressed_preset p (record renaming_dialog { is_submitting = false }) in
          (can_submit t ≡ true) × (schedule_input t.values.schedule none t.is_submitting ≡ offer p))
        cron_schedule_presets
unfolding opened
submit-usage_example =
    submit-usage renaming_dialog
      (unfold validate_required trim trim_start trim_end is_space one_of in refl)
      (unfold validate_required trim trim_start trim_end is_space one_of in refl)
      (unfold parse_env_vars_text split_env_lines trim trim_start trim_end is_space one_of in refl)

-- a run with more output than is shown of it, and one with none
abbrev repeated : ℕ → Text
repeated zero = []
repeated (suc n) = 97 ∷ repeated n

abbrev execution : Text → Text → CronExecutionResult
execution id output = record {
  job_id = codes "1";
  execution_id = id;
  started_at = 100;
  finished_at = 161;
  exit_code = pos 0;
  output = output;
  error = [];
}

abbrev long_run : CronExecutionResult
long_run = execution (codes "e1") (repeated 281)

abbrev quiet_run : CronExecutionResult
quiet_run = execution (codes "e2") []

abbrev history : HistoryDialog
history =
    Executions.handle (Executions.fetched false (some (long_run ∷ quiet_run ∷ []))) History.initial

long_run-offers : (row_of no_digits history.expanded_ids long_run).button ≡ some view_full_output
unfolding Executions.handle row_of
long_run-offers = refl

row-IsWhole_example :
    let t = Executions.handle (button_pressed long_run) history in
    (IsWhole (row_of no_digits history.expanded_ids long_run) long_run
      ⊎ (((row_of no_digits history.expanded_ids long_run).button ≡ some view_full_output)
          × IsWhole (row_of no_digits t.expanded_ids long_run) long_run))
    × (row_of no_digits (Executions.handle (button_pressed long_run) t).expanded_ids long_run
        ≡ row_of no_digits history.expanded_ids long_run)
    × (row_of no_digits t.expanded_ids quiet_run ≡ row_of no_digits history.expanded_ids quiet_run)
row-IsWhole_example = row-IsWhole no_digits long_run quiet_run history (unfold text_eq in refl)
