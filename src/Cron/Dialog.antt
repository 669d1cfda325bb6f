-- ===== src/Cron/Dialog.antt =====
-- frontend/src/features/crons/CronFormDialog.tsx, with `handleCreateSubmit` and `handleEditSubmit` of
-- CronPage.tsx, which it is given. Submitting is cut at its await.
use terminal_hub.Common.{
  ℕ, ◌+◌, Bool, true, false, not, ◌&&◌, Option, none, some, List, [], ◌∷◌, Text, ◌==◌,
  if◌then◌else◌, length, trim, ◌⊎◌, inl, inr,
}
use terminal_hub.Cron.Env.{EnvError, parse_env_vars_text}
use terminal_hub.Cron.Api.{CronJob, CreateCronRequest, UpdateCronRequest}
use terminal_hub.Cron.Form.{
  CronFormValues, validate_cron_schedule_expression, are_cron_form_values_equal,
  form_values_to_create_request, create_cron_form_values, form_values_to_update_request,
}

pub data Mode : Type 0 where
  create : Mode
  edit : CronJob → Mode

-- what the page asks the server for
pub data Submission : Type 0 where
  create_cron : CreateCronRequest → Submission
  update_cron : Text → UpdateCronRequest → Submission

-- the texts of `envError`: none, that of an error of the form, or the server's
pub data DialogError : Type 0 where
  no_error : DialogError
  form_error : EnvError → DialogError
  server_error : Text → DialogError

-- `waiting` are the submissions that await the server, `closings` counts the calls of `onClose`.
pub record Dialog : Type 0 where
  pub initial_values : CronFormValues
  pub values : CronFormValues
  pub is_submitting : Bool
  pub env_error : DialogError
  pub waiting : List Submission
  pub closings : ℕ

unfoldable pub validate_required : Text → Bool
validate_required value = not (length (trim value) == 0)

abbrev pub is_none {ℓ} : {A : Type ℓ} → Option A → Bool
is_none none = true
is_none (some a) = false

-- `Object.keys(updates).length === 0`
unfoldable pub is_empty_update : UpdateCronRequest → Bool
is_empty_update r =
    is_none r.name
    && is_none r.schedule
    && is_none r.command
    && is_none r.shell
    && is_none r.working_directory
    && is_none r.env_vars
    && is_none r.enabled

abbrev pub has_no_errors : List EnvError → Bool
has_no_errors [] = true
has_no_errors (e ∷ errors) = false

-- all of `canSubmit` but `isSubmitting`
unfoldable pub is_complete : CronFormValues → Bool
unfolding validate_required
is_complete values =
    validate_required values.name
    && validate_required values.command
    && (validate_cron_schedule_expression values.schedule).valid
    && has_no_errors (parse_env_vars_text values.env_vars_text).errors

abbrev pub can_submit : Dialog → Bool
can_submit s = is_complete s.values && not s.is_submitting

abbrev pub to_create : EnvError ⊎ CreateCronRequest → EnvError ⊎ Option Submission
to_create (inl e) = inl e
to_create (inr request) = inr (some (create_cron request))

abbrev pub to_update : Text → EnvError ⊎ UpdateCronRequest → EnvError ⊎ Option Submission
to_update id (inl e) = inl e
to_update id (inr updates) =
    inr (if is_empty_update updates then none else some (update_cron id updates))

module _ (comes_first : Text → Text → Bool) where
  -- `onSubmit`: what it throws, or what it awaits, if anything
  unfoldable pub on_submit : Mode → CronFormValues → EnvError ⊎ Option Submission
  unfolding is_empty_update
  on_submit create values = to_create (form_values_to_create_request values)
  on_submit (edit job) values =
      to_update job.id (form_values_to_update_request comes_first values job)

  abbrev pub job_of : Mode → Option CronJob
  job_of create = none
  job_of (edit job) = some job

  -- the dialog when it is opened
  unfoldable pub opened : Mode → Dialog
  opened mode =
      let values = create_cron_form_values comes_first (job_of mode) in
      record {
        initial_values = values;
        values = values;
        is_submitting = false;
        env_error = no_error;
        waiting = [];
        closings = 0;
      }

abbrev pub close : Dialog → Dialog
close s = record s { closings = s.closings + 1 }

abbrev pub begin_submission : EnvError ⊎ Option Submission → Dialog → Dialog
begin_submission (inl e) s = record s { env_error = form_error e; is_submitting = false }
begin_submission (inr none) s = close (record s { env_error = no_error; is_submitting = false })
begin_submission (inr (some r)) s = record s {
  env_error = no_error;
  is_submitting = true;
  waiting = r ∷ s.waiting;
}

abbrev pub is_edit : Mode → Bool
is_edit create = false
is_edit (edit job) = true

module _ (comes_first : Text → Text → Bool) (mode : Mode) where
  -- `handleSubmit` up to its await
  unfoldable pub handle_submit : Dialog → Dialog
  unfolding is_complete on_submit
  handle_submit s =
      if not (can_submit s)
      then s
      else if is_edit mode && are_cron_form_values_equal s.values s.initial_values
      then close s
      else begin_submission (on_submit comes_first mode s.values) s

-- `handleFieldChange`, given the new values; `env_text` tells whether the field is that of the
-- variables
unfoldable pub handle_field_change : Bool → CronFormValues → Dialog → Dialog
handle_field_change env_text next s = record s {
  values = next;
  env_error = if env_text then no_error else s.env_error;
}

abbrev pub end_submission : Option Text → List Submission → Dialog → Dialog
end_submission failure [] s = s
end_submission none (r ∷ rest) s = close (record s { waiting = rest; is_submitting = false })
end_submission (some message) (r ∷ rest) s = record s {
  waiting = rest;
  env_error = server_error message;
  is_submitting = false;
}

-- `handleSubmit` behind its await
unfoldable pub submission_settled : Option Text → Dialog → Dialog
submission_settled failure s = end_submission failure s.waiting s

pub data Event : Type 0 where
  submitted : Event
  field_changed : Bool → CronFormValues → Event
  settled : Option Text → Event

module _ (comes_first : Text → Text → Bool) (mode : Mode) where
  unfoldable pub handle : Event → Dialog → Dialog
  unfolding handle_submit handle_field_change submission_settled
  handle submitted s = handle_submit comes_first mode s
  handle (field_changed env_text next) s = handle_field_change env_text next s
  handle (settled failure) s = submission_settled failure s

  unfoldable pub run : List Event → Dialog → Dialog
  unfolding handle
  run [] s = s
  run (e ∷ es) s = run es (handle e s)
