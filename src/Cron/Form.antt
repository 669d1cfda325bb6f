-- ===== src/Cron/Form.antt =====
-- frontend/src/features/crons/cronForm.ts: the form of a cron job, the check of its schedule and the
-- requests that it sends. An exception is the error on the left of a sum. The texts of the messages
-- are the constructors of `EnvError` and `ScheduleMessage`.
use terminal_hub.Common.{
  prepend, ℕ, suc, ◌+◌, Bool, true, false, not, ◌&&◌, ◌||◌, Option, none, some, List, [], ◌∷◌, Text,
  codes, ◌==◌, if◌then◌else◌, maybe, length, trim, is_space, text_eq, one_of, ◌⊎◌, inl, inr,
}
use terminal_hub.Cron.Env.{
  Vars, EnvError, is_word, all_units, parse_env_vars_text, env_vars_to_text,
}
use terminal_hub.Cron.Api.{CronJob, CreateCronRequest, UpdateCronRequest}

pub record CronFormValues : Type 0 where
  pub name : Text
  pub schedule : Text
  pub command : Text
  pub shell : Text
  pub working_directory : Text
  pub env_vars_text : Text
  pub enabled : Bool

pub data ScheduleMessage : Type 0 where
  no_message required field_count : ScheduleMessage
  unsupported : ℕ → ScheduleMessage

-- `CronScheduleValidationResult`
pub record ScheduleValidation : Type 0 where
  pub valid : Bool
  pub message : ScheduleMessage

-- a unit that `CRON_FIELD_PATTERN` takes
unfoldable pub is_cron_unit : ℕ → Bool
unfolding one_of
is_cron_unit c = is_word c || one_of c (codes "*/?,#-")

-- `CRON_FIELD_PATTERN`
unfoldable pub is_cron_field : Text → Bool
unfolding all_units is_cron_unit
is_cron_field [] = false
is_cron_field (c ∷ s) = all_units is_cron_unit (c ∷ s)

-- `split(/\s+/)`; `in_space` holds behind a unit of white space
unfoldable pub split_fields : Bool → Text → List Text
split_fields in_space [] = [] ∷ []
split_fields in_space (c ∷ s) =
    let next = split_fields true s in
    let same = split_fields false s in
    if is_space c then if in_space then next else [] ∷ next else prepend c same

-- `findIndex` of a field that the pattern refuses, counted from `i`
unfoldable pub invalid_field_index : ℕ → List Text → Option ℕ
invalid_field_index i [] = none
invalid_field_index i (f ∷ fields) =
    let later = invalid_field_index (suc i) fields in if is_cron_field f then later else some i

abbrev pub refusal : ScheduleMessage → ScheduleValidation
refusal message = record { valid = false; message = message }

unfoldable pub validate_fields : List Text → ScheduleValidation
unfolding invalid_field_index
validate_fields fields =
    let accepted : ScheduleValidation = record { valid = true; message = no_message } in
    if not (length fields == 5) && not (length fields == 6)
    then refusal field_count
    else maybe (invalid_field_index 0 fields) accepted (λ i. refusal (unsupported (i + 1)))

unfoldable pub validate_cron_schedule_expression : Text → ScheduleValidation
unfolding validate_fields split_fields
validate_cron_schedule_expression value =
    if length (trim value) == 0
    then refusal required
    else validate_fields (split_fields false (trim value))

abbrev pub normalize_required_field : Text → Text
normalize_required_field value = trim value

abbrev pub optional_field_value : Text → Option Text
optional_field_value value = if length (trim value) == 0 then none else some value

-- `value ?? ""`
abbrev pub or_empty : Option Text → Text
or_empty none = []
or_empty (some t) = t

abbrev pub bool_eq : Bool → Bool → Bool
bool_eq true b = b
bool_eq false b = not b

unfoldable pub are_cron_form_values_equal : CronFormValues → CronFormValues → Bool
are_cron_form_values_equal left right =
    text_eq left.name right.name
    && text_eq left.schedule right.schedule
    && text_eq left.command right.command
    && text_eq left.shell right.shell
    && text_eq left.working_directory right.working_directory
    && text_eq left.env_vars_text right.env_vars_text
    && bool_eq left.enabled right.enabled

abbrev pub create_request : CronFormValues → Option Vars → CreateCronRequest
create_request values env_vars = record {
  name = normalize_required_field values.name;
  schedule = normalize_required_field values.schedule;
  command = values.command;
  shell = optional_field_value values.shell;
  working_directory = optional_field_value values.working_directory;
  env_vars = env_vars;
  enabled = values.enabled;
}

-- `throw new Error(errors[0])`, if there is one
abbrev pub or_throw {ℓ} : {A : Type ℓ} → List EnvError → A → EnvError ⊎ A
or_throw [] a = inr a
or_throw (e ∷ errors) a = inl e

unfoldable pub form_values_to_create_request : CronFormValues → EnvError ⊎ CreateCronRequest
unfolding parse_env_vars_text
form_values_to_create_request values =
    let parsed = parse_env_vars_text values.env_vars_text in
    or_throw parsed.errors (create_request values parsed.env_vars)

-- a field of the update, where it differs
abbrev pub changed : Text → Text → Option Text
changed next current = if text_eq next current then none else some next

abbrev pub changed_flag : Bool → Bool → Option Bool
changed_flag next current = if bool_eq next current then none else some next

abbrev pub or_no_vars : Option Vars → Vars
or_no_vars none = []
or_no_vars (some vars) = vars

module _ (comes_first : Text → Text → Bool) where
  unfoldable pub create_cron_form_values : Option CronJob → CronFormValues
  create_cron_form_values none = record {
    name = [];
    schedule = codes "* * * * *";
    command = [];
    shell = [];
    working_directory = [];
    env_vars_text = env_vars_to_text comes_first none;
    enabled = true;
  }
  create_cron_form_values (some job) = record {
    name = job.name;
    schedule = job.schedule;
    command = job.command;
    shell = or_empty job.shell;
    working_directory = or_empty job.working_directory;
    env_vars_text = env_vars_to_text comes_first job.env_vars;
    enabled = job.enabled;
  }

  -- `env_vars` of the update
  unfoldable pub changed_vars : Option Vars → Option Vars → Option Vars
  changed_vars next current =
      if text_eq (env_vars_to_text comes_first next) (env_vars_to_text comes_first current)
      then none
      else some (or_no_vars next)

  unfoldable pub update_request : CronFormValues → Option Vars → CronJob → UpdateCronRequest
  unfolding changed_vars
  update_request values env_vars job = record {
    name = changed (normalize_required_field values.name) job.name;
    schedule = changed (normalize_required_field values.schedule) job.schedule;
    command = changed values.command job.command;
    shell = changed values.shell (or_empty job.shell);
    working_directory = changed values.working_directory (or_empty job.working_directory);
    env_vars = changed_vars env_vars job.env_vars;
    enabled = changed_flag values.enabled job.enabled;
  }

  unfoldable pub form_values_to_update_request :
      CronFormValues → CronJob → EnvError ⊎ UpdateCronRequest
  unfolding update_request
  form_values_to_update_request values job =
      let parsed = parse_env_vars_text values.env_vars_text in
      or_throw parsed.errors (update_request values parsed.env_vars job)
