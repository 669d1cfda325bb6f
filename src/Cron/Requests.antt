-- ===== src/Cron/Requests.antt =====
-- The requests of the form of cronForm.ts, against the job that it shows.
use terminal_hub.Common.{
  join_lines, ◌≡◌, refl, sym, Bool, true, false, Option, none, some, List, [], ◌∷◌, Text, trim,
  text_eq_sound, text_eq_refl, All, map, inr, arith,
}
use terminal_hub.Cron.Env.{
  Vars, EnvError, split_env_lines, to_parsed, parse_env_vars_text, env_vars_to_text, insert_sorted,
  sort_keys, entry_text,
}
use terminal_hub.Cron.EnvRoundTrip.{IsVar, IsDistinct, parse-env_vars_to_text}
use terminal_hub.Cron.Api.{CronJob, UpdateCronRequest}
use terminal_hub.Cron.Form.{
  CronFormValues, create_cron_form_values, form_values_to_update_request, update_request, changed,
  changed_flag, changed_vars, or_empty, or_no_vars, or_throw,
}

abbrev pub no_updates : UpdateCronRequest
no_updates = record {
  name = none;
  schedule = none;
  command = none;
  shell = none;
  working_directory = none;
  env_vars = none;
  enabled = none;
}

-- Variables that the form's text can carry, or none at all.
abbrev pub IsEnv : Option Vars → Type 0
IsEnv none = Unit
IsEnv (some vars) = All IsVar vars × IsDistinct vars

-- The value that an optional field of an update leaves in a job.
abbrev pub kept {ℓ} : {A : Type ℓ} → Option A → A → A
kept none current = current
kept (some next) current = next

changed_same : (t : Text) → changed t t ≡ none
changed_same t = ground (arith, text_eq_refl t)

kept-changed : (t u : Text) → kept (changed t u) u ≡ t
kept-changed t u = ground (arith, text_eq_sound t u)

kept-changed_flag : (a b : Bool) → kept (changed_flag a b) b ≡ a
kept-changed_flag true true = refl
kept-changed_flag true false = refl
kept-changed_flag false true = refl
kept-changed_flag false false = refl

-- What an update makes of a job: in each field its own value, if it has one.
abbrev pub apply_update : UpdateCronRequest → CronJob → CronJob
apply_update u job = record job {
  name = kept u.name job.name;
  schedule = kept u.schedule job.schedule;
  command = kept u.command job.command;
  shell = some (kept u.shell (or_empty job.shell));
  working_directory = some (kept u.working_directory (or_empty job.working_directory));
  env_vars = some (kept u.env_vars (or_no_vars job.env_vars));
  enabled = kept u.enabled job.enabled;
}

-- What the form shows of a job, name and schedule without the white space around them.
abbrev pub IsShown : CronFormValues → CronJob → Type 0
IsShown values job =
    (job.name ≡ trim values.name)
    × (job.schedule ≡ trim values.schedule)
    × (job.command ≡ values.command)
    × (or_empty job.shell ≡ values.shell)
    × (or_empty job.working_directory ≡ values.working_directory)
    × (job.enabled ≡ values.enabled)

or_throw-inr : {A : Type 0} (errors : List EnvError) (a u : A) → or_throw errors a ≡ inr u → a ≡ u
or_throw-inr [] a u h = ground (arith, h)
or_throw-inr (e ∷ errors) a u h = cc

module _ (comes_first : Text → Text → Bool) where
  abbrev IsOrdered : Vars → Type 0
  IsOrdered [] = Unit
  IsOrdered (e ∷ []) = Unit
  IsOrdered (e ∷ f ∷ vars) = (comes_first e.0 f.0 ≡ true) × IsOrdered (f ∷ vars)

  sort_ordered : (vars : Vars) → IsOrdered vars → sort_keys comes_first vars ≡ vars
  unfolding sort_keys insert_sorted
  sort_ordered [] h = refl
  sort_ordered (e ∷ []) h = refl
  sort_ordered (e ∷ f ∷ vars) h = rw (sort_ordered (f ∷ vars) h.1) (ground (arith, h))

  module _ (total : (a b : Text) → comes_first a b ≡ false → comes_first b a ≡ true) where
    insert-IsOrdered :
        (e : Text × Text) (vars : Vars)
        → IsOrdered vars
        → IsOrdered (insert_sorted comes_first e vars)
    unfolding insert_sorted
    insert-IsOrdered e [] h = tt
    insert-IsOrdered e (f ∷ []) h = ground (arith, total e.0 f.0)
    insert-IsOrdered e (f ∷ g ∷ vars) h =
        ground (arith, total e.0 f.0, insert-IsOrdered e (g ∷ vars), h)

    sort-IsOrdered : (vars : Vars) → IsOrdered (sort_keys comes_first vars)
    unfolding sort_keys
    sort-IsOrdered [] = tt
    sort-IsOrdered (e ∷ vars) =
        insert-IsOrdered e (sort_keys comes_first vars) (sort-IsOrdered vars)

    sort_idem :
        (vars : Vars)
        → sort_keys comes_first (sort_keys comes_first vars) ≡ sort_keys comes_first vars
    sort_idem vars = sort_ordered (sort_keys comes_first vars) (sort-IsOrdered vars)

    reparsed_sorted :
        (vars : Vars)
        → sort_keys comes_first vars ≡ vars
        → let parsed = to_parsed (vars, []) in
          (parsed.errors ≡ [])
          × (env_vars_to_text comes_first parsed.env_vars ≡ join_lines (map entry_text vars))
    unfolding env_vars_to_text
    reparsed_sorted [] h = (refl, refl)
    reparsed_sorted (e ∷ vars) h = (refl, rw h refl)

    -- The text of a job's variables is read back without an error, as variables with this text.
    reparsed :
        (o : Option Vars)
        → IsEnv o
        → let parsed = parse_env_vars_text (env_vars_to_text comes_first o) in
          (parsed.errors ≡ [])
          × (env_vars_to_text comes_first parsed.env_vars ≡ env_vars_to_text comes_first o)
    unfolding env_vars_to_text split_env_lines trim
    reparsed none h = unfold parse_env_vars_text in (refl, refl)
    reparsed (some vars) h =
        rw (parse-env_vars_to_text comes_first vars h.0 h.1)
          (reparsed_sorted (sort_keys comes_first vars) (sort_idem vars))

    -- A form that is opened on a job and not edited asks for no update, where the job's name and
    -- schedule have no white space around them and its variables, if any, have shell names other than
    -- `__proto__`, no name twice and values on one line. The order of names is total, as that of
    -- `localeCompare` is.
    pub unchanged-update :
        (job : CronJob)
        → trim job.name ≡ job.name
        → trim job.schedule ≡ job.schedule
        → IsEnv job.env_vars
        → form_values_to_update_request comes_first
            (create_cron_form_values comes_first (some job))
            job
          ≡ inr no_updates
    unfolding form_values_to_update_request create_cron_form_values update_request changed_vars
    unchanged-update job n c h = ground (
      arith,
      reparsed job.env_vars h,
      n,
      c,
      text_eq_refl job.name,
      text_eq_refl job.schedule,
      text_eq_refl job.command,
      text_eq_refl (or_empty job.shell),
      text_eq_refl (or_empty job.working_directory),
      text_eq_refl (env_vars_to_text comes_first job.env_vars),
    )

  text_of_no_vars :
      (o : Option Vars)
      → env_vars_to_text comes_first (some (or_no_vars o)) ≡ env_vars_to_text comes_first o
  unfolding env_vars_to_text
  text_of_no_vars none = unfold sort_keys in refl
  text_of_no_vars (some vars) = refl

  kept-changed_vars :
      (next current : Option Vars)
      → env_vars_to_text comes_first
          (some (kept (changed_vars comes_first next current) (or_no_vars current)))
        ≡ env_vars_to_text comes_first next
  unfolding changed_vars
  kept-changed_vars next current = ground (
    arith,
    text_of_no_vars next,
    text_of_no_vars current,
    text_eq_sound (env_vars_to_text comes_first next) (env_vars_to_text comes_first current),
  )

  IsShown-update :
      (values : CronFormValues) (vars : Option Vars) (job : CronJob)
      → let next = apply_update (update_request comes_first values vars job) job in
        IsShown values next
        × (env_vars_to_text comes_first next.env_vars ≡ env_vars_to_text comes_first vars)
  unfolding update_request
  IsShown-update values vars job = (
    (
      kept-changed (trim values.name) job.name,
      kept-changed (trim values.schedule) job.schedule,
      kept-changed values.command job.command,
      kept-changed values.shell (or_empty job.shell),
      kept-changed values.working_directory (or_empty job.working_directory),
      kept-changed_flag values.enabled job.enabled,
    ),
    kept-changed_vars vars job.env_vars,
  )

  -- An update, applied to the job for which it was made, gives the values of the form: the
  -- variables are those that the form's text stands for, in the text that a form shows of them.
  pub update_applied :
      (values : CronFormValues) (job : CronJob) (u : UpdateCronRequest)
      → form_values_to_update_request comes_first values job ≡ inr u
      → IsShown values (apply_update u job)
        × (env_vars_to_text comes_first (apply_update u job).env_vars
            ≡ env_vars_to_text comes_first (parse_env_vars_text values.env_vars_text).env_vars)
  unfolding form_values_to_update_request
  update_applied values job u h =
      let parsed = parse_env_vars_text values.env_vars_text in
      rw
        (sym
          (or_throw-inr parsed.errors (update_request comes_first values parsed.env_vars job) u h))
        (IsShown-update values parsed.env_vars job)
