-- ===== src/Cron/Submits.antt =====
-- What the dialog of CronFormDialog.tsx submits, and how often.
use terminal_hub.Common.{
  ap, ◌≡◌, refl, Bool, true, false, ◌&&◌, Option, none, some, List, [], ◌∷◌, Text, if◌then◌else◌,
  length, inl, inr, arith, Bool-cases,
}
use terminal_hub.Cron.Env.{EnvError, parse_env_vars_text}
use terminal_hub.Cron.Form.{
  CronFormValues, are_cron_form_values_equal, or_throw, form_values_to_create_request,
  form_values_to_update_request, create_request, update_request,
}
use terminal_hub.Cron.Dialog.{
  Mode, create, edit, Submission, create_cron, update_cron, DialogError, no_error, form_error,
  server_error, Dialog, has_no_errors, is_complete, can_submit, on_submit, opened, begin_submission,
  handle_submit, handle_field_change, submission_settled, end_submission, Event, submitted,
  field_changed, settled, handle, run, is_edit, to_create, to_update, is_empty_update,
}

-- not an error of the form
abbrev pub IsServed : DialogError → Type 0
IsServed no_error = Unit
IsServed (form_error e) = ⊥
IsServed (server_error message) = Unit

-- A submission is on exactly while one request awaits, and no error of the form was thrown.
abbrev pub IsOrderly : Dialog → Type 0
IsOrderly s = (length s.waiting ≡ (if s.is_submitting then 1 else 0)) × IsServed s.env_error

or_throw-inr :
    {A : Type 0} (errors : List EnvError) (a : A)
    → has_no_errors errors ≡ true
    → or_throw errors a ≡ inr a
or_throw-inr [] a h = refl
or_throw-inr (e ∷ errors) a h = absurd (cc h)

module _ (comes_first : Text → Text → Bool) where
  complete-on_submit :
      (mode : Mode) (values : CronFormValues)
      → is_complete values ≡ true
      → (r : Option Submission) × (on_submit comes_first mode values ≡ inr r)
  unfolding is_complete on_submit form_values_to_create_request form_values_to_update_request
  complete-on_submit create values h =
      let parsed = parse_env_vars_text values.env_vars_text in
      let request = create_request values parsed.env_vars in
      let clean : has_no_errors parsed.errors ≡ true = ground (arith, h) in
      (some (create_cron request), ap to_create (or_throw-inr parsed.errors request clean))
  complete-on_submit (edit job) values h =
      let parsed = parse_env_vars_text values.env_vars_text in
      let updates = update_request comes_first values parsed.env_vars job in
      let clean : has_no_errors parsed.errors ≡ true = ground (arith, h) in
      (
        (if is_empty_update updates then none else some (update_cron job.id updates)),
        ap (to_update job.id) (or_throw-inr parsed.errors updates clean),
      )

  begin-IsOrderly :
      (r : Option Submission) (s : Dialog)
      → s.is_submitting ≡ false
      → IsOrderly s
      → IsOrderly (begin_submission (inr r) s)
  begin-IsOrderly none s k h = (ground (arith, k, h), tt)
  begin-IsOrderly (some r) s k h = (ground (arith, k, h), tt)

  submit-IsOrderly :
      (mode : Mode) (s : Dialog) → IsOrderly s → IsOrderly (handle_submit comes_first mode s)
  unfolding handle_submit
  submit-IsOrderly mode s h = elim (Bool-cases (can_submit s)) [
    | inr u ↦ rw u h
    | inl u ↦
        let same = is_edit mode && are_cron_form_values_equal s.values s.initial_values in
        elim (Bool-cases same) [
          | inl v ↦ rw (u, v) h
          | inr v ↦
              let complete = complete-on_submit mode s.values (ground (arith, u)) in
              rw (u, v, complete.1) (begin-IsOrderly complete.0 s (ground (arith, u)) h)
        ]
  ]

  end-IsOrderly :
      (failure : Option Text) (waiting : List Submission) (s : Dialog)
      → s.waiting ≡ waiting
      → IsOrderly s
      → IsOrderly (end_submission failure waiting s)
  end-IsOrderly failure [] s k h = h
  end-IsOrderly none (r ∷ rest) s k h = (ground (arith, k, h), h.1)
  end-IsOrderly (some message) (r ∷ rest) s k h = (ground (arith, k, h), tt)

  handle-IsOrderly :
      (mode : Mode) (e : Event) (s : Dialog) → IsOrderly s → IsOrderly (handle comes_first mode e s)
  unfolding handle handle_field_change submission_settled
  handle-IsOrderly mode submitted s h = submit-IsOrderly mode s h
  handle-IsOrderly mode (field_changed true next) s h = (h.0, tt)
  handle-IsOrderly mode (field_changed false next) s h = h
  handle-IsOrderly mode (settled failure) s h = end-IsOrderly failure s.waiting s refl h

  IsOrderly-run :
      (mode : Mode) (es : List Event) (s : Dialog)
      → IsOrderly s
      → IsOrderly (run comes_first mode es s)
  unfolding run
  IsOrderly-run mode [] s h = h
  IsOrderly-run mode (e ∷ es) s h =
      IsOrderly-run mode es (handle comes_first mode e s) (handle-IsOrderly mode e s h)

  -- However the dialog of a cron job is edited and submitted, and however the server answers, at most
  -- one of its requests runs at a time, the form is disabled exactly while one does, and building a
  -- request never throws: what the dialog lets through has no error in its variables.
  pub run-IsOrderly :
      (mode : Mode) (es : List Event)
      → IsOrderly (run comes_first mode es (opened comes_first mode))
  run-IsOrderly mode es =
      IsOrderly-run mode es (opened comes_first mode) (unfold opened in (refl, tt))
