-- ===== src/Cron/Presets.antt =====
-- frontend/src/features/crons/CronScheduleInput.tsx with the presets of cronForm.ts: what the input
-- shows of a schedule, and the presets that it offers.
use terminal_hub.Common.{
  ◌≡◌, ◌↔◌, refl, ap, All-map, Bool, true, false, not, ◌&&◌, ◌||◌, Option, none, some, List, [],
  ◌∷◌, ◌++◌, Text, codes, ◌==◌, if◌then◌else◌, length, select, trim, text_eq, All, arith,
  trim_start, trim_end, is_space, one_of,
}
use terminal_hub.Cron.Form.{
  ScheduleMessage, validate_cron_schedule_expression, validate_fields, split_fields,
  invalid_field_index, is_cron_field, is_cron_unit,
}
use terminal_hub.Cron.Env.{all_units, parse_env_vars_text}
use terminal_hub.Cron.Dialog.{
  Dialog, is_complete, can_submit, handle_field_change, validate_required, has_no_errors,
}

pub record Preset : Type 0 where
  pub label : Text
  pub schedule : Text

abbrev preset : Text → Text → Preset
preset label schedule = record { label = label; schedule = schedule }

unfoldable pub cron_schedule_presets : List Preset
cron_schedule_presets =
    preset (codes "Every minute") (codes "* * * * *")
    ∷ preset (codes "Every 5 minutes") (codes "*/5 * * * *")
    ∷ preset (codes "Every 15 minutes") (codes "*/15 * * * *")
    ∷ preset (codes "Every hour") (codes "0 * * * *")
    ∷ preset (codes "Daily at midnight") (codes "0 0 * * *")
    ∷ preset (codes "Daily at 2 AM") (codes "0 2 * * *")
    ∷ preset (codes "Weekly on Sunday") (codes "0 0 * * 0")
    ∷ preset (codes "Monthly on 1st") (codes "0 0 1 * *")
    ∷ []

-- the text below the input, and the mark in it: `some true` for the one of success
pub data Hint : Type 0 where
  no_hint usage : Hint
  external_error : Text → Hint
  invalid : ScheduleMessage → Hint

pub record ScheduleInput : Type 0 where
  pub selected : List Preset
  pub in_error : Bool
  pub mark : Option Bool
  pub hint : Hint

unfoldable pub get_preset_class : Bool → Bool → Text
get_preset_class is_selected disabled =
    (if is_selected
      then codes
          "flex items-center gap-2 p-3 rounded-lg border transition-colors bg-zinc-800/60 border-emerald-500/40 ring-1 ring-emerald-500/50"
      else codes
          "flex items-center gap-2 p-3 rounded-lg border transition-colors bg-zinc-800/30 border-zinc-700/30 hover:border-zinc-600")
    ++ (if disabled then codes " opacity-50 cursor-not-allowed" else codes " cursor-pointer")

-- `error !== undefined && error !== ""`
abbrev pub error_text : Option Text → Text
error_text none = []
error_text (some e) = e

-- what is shown, given the value, the error and whether the input is disabled
unfoldable pub schedule_input : Text → Option Text → Bool → ScheduleInput
unfolding validate_cron_schedule_expression cron_schedule_presets
schedule_input value error disabled =
    let validation = validate_cron_schedule_expression value in
    let blank = length (trim value) == 0 in
    let has_external_error = not (length (error_text error) == 0) in
    let show_validation_error = not blank && not validation.valid in
    let show_validation_success = not blank && validation.valid in
    record {
      selected = select (λ p. text_eq (trim value) p.schedule) cron_schedule_presets;
      in_error = has_external_error || show_validation_error;
      mark = if not disabled && not blank then some show_validation_success else none;
      hint =
          if has_external_error
          then external_error (error_text error)
          else if show_validation_error
          then invalid validation.message
          else if show_validation_success
          then usage
          else no_hint;
    }

-- a click on a preset, given the value so far
unfoldable pub press_preset : Bool → Preset → Text → Text
press_preset disabled p value = if disabled then value else p.schedule

-- what the input shows of a preset: that one alone, as a schedule that is right
abbrev pub offer : Preset → ScheduleInput
offer p = record { selected = p ∷ []; in_error = false; mark = some true; hint = usage }

-- A schedule that is valid is shown so.
offered : All (λ p. schedule_input p.schedule none false ≡ offer p) cron_schedule_presets
unfolding schedule_input cron_schedule_presets select text_eq trim trim_start trim_end is_space
    one_of validate_cron_schedule_expression validate_fields split_fields invalid_field_index
    is_cron_field is_cron_unit all_units
offered = (refl, (refl, (refl, (refl, (refl, (refl, (refl, (refl, tt))))))))

-- the schedule is valid exactly if the input shows how it is read
usage-valid :
    (value : Text) (disabled : Bool)
    → (schedule_input value none disabled).hint ≡ usage
    → (validate_cron_schedule_expression value).valid ≡ true
unfolding schedule_input
usage-valid value disabled h = ground (arith, h)

valid-usage :
    (value : Text) (disabled : Bool)
    → (validate_cron_schedule_expression value).valid ≡ true
    → (schedule_input value none disabled).hint ≡ usage
unfolding schedule_input validate_cron_schedule_expression
valid-usage value disabled h = ground (arith, h)

-- a preset that is pressed in the dialog
unfoldable pub pressed_preset : Preset → Dialog → Dialog
unfolding press_preset handle_field_change
pressed_preset p s =
    let schedule = press_preset s.is_submitting p s.values.schedule in
    handle_field_change false (record s.values { schedule = schedule }) s

-- A dialog whose other fields are complete can be submitted exactly if it is not submitting and the
-- input of its schedule, which is disabled while it is, shows how the schedule is read. Once it is not
-- submitting, it can be behind a click on any of the presets, whatever the schedule was, with that
-- preset alone shown as selected.
pub submit-usage :
    (s : Dialog)
    → validate_required s.values.name ≡ true
    → validate_required s.values.command ≡ true
    → has_no_errors (parse_env_vars_text s.values.env_vars_text).errors ≡ true
    → ((can_submit s ≡ true) ↔ (
        (s.is_submitting ≡ false)
        × ((schedule_input s.values.schedule none s.is_submitting).hint ≡ usage)))
      × All
          (λ p.
            let t = pressed_preset p (record s { is_submitting = false }) in
            (can_submit t ≡ true)
            × (schedule_input t.values.schedule none t.is_submitting ≡ offer p))
          cron_schedule_presets
unfolding is_complete pressed_preset
submit-usage s n c e = (
  (
    λ h. (ground (arith, h), valid-usage s.values.schedule s.is_submitting (ground (arith, h))),
    λ h. ground (arith, n, c, e, h.0, usage-valid s.values.schedule s.is_submitting h.1),
  ),
  All-map (λ p. schedule_input p.schedule none false ≡ offer p) _
      (λ p h. (ground (arith, n, c, e, usage-valid p.schedule false (ap (λ v. v.hint) h)), h))
      cron_schedule_presets offered,
)
