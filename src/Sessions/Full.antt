-- ===== src/Sessions/Full.antt =====
-- What the dialogs of frontend/src/features/sessions ask for.
use terminal_hub.Common.{
  ◌≡◌, ◌≢◌, refl, ap, ◌∙◌, true, false, Option, none, some, [], ◌∷◌, Text, ◌==◌, maybe, length,
  trim, trim_start, trim_end, arith, Bool-cases, inl, inr,
}
use terminal_hub.Cron.Env.{Vars}
use terminal_hub.Sessions.Env.{env_vars_map}
use terminal_hub.Sessions.Dialogs.{
  CreateForm, CreateSessionRequest, is_blank, or_undefined, some_vars, create_request,
}

trim_end_idem : (s : Text) → trim_end (trim_end s) ≡ trim_end s
unfolding trim_end
trim_end_idem [] = refl
trim_end_idem (c ∷ s) = ground (arith, trim_end_idem s)

trim_start_end : (s : Text) → trim_start (trim_end (trim_start s)) ≡ trim_end (trim_start s)
unfolding trim_start trim_end
trim_start_end [] = refl
trim_start_end (c ∷ s) = ground (arith, trim_start_end s)

-- a text without white space around it that is not empty
abbrev pub IsFull : Text → Type 0
IsFull t = (trim t ≡ t) × ((length t == 0) ≡ false)

abbrev pub IsFullOption : Option Text → Type 0
IsFullOption none = Unit
IsFullOption (some t) = IsFull t

trim-IsFull : (t : Text) → is_blank t ≡ false → IsFull (trim t)
unfolding trim
trim-IsFull t h = (ap trim_end (trim_start_end t) ∙ trim_end_idem (trim_start t), h)

or_undefined-IsFull : (t : Text) → IsFullOption (or_undefined t)
or_undefined-IsFull t = elim (Bool-cases (is_blank t)) [
  | inl u ↦ rw u tt
  | inr u ↦ rw u (trim-IsFull t u)
]

-- What the dialogs may ask of the server: names that are full texts, other fields that are absent or
-- full, and variables that are absent or some.
abbrev pub IsProper : CreateSessionRequest → Type 0
IsProper r =
    IsFull r.name
    × IsFullOption r.working_directory
    × IsFullOption r.command
    × (r.env_vars ≢ some [])

some_vars-proper : (vars : Vars) → some_vars vars ≢ some []
some_vars-proper [] h = cc h
some_vars-proper (e ∷ vars) h = cc h

-- The dialog asks for a session exactly if its name is not blank, and then with a name, a directory
-- and a command without white space around them, of which the latter two are left out where they
-- are blank, and never with an empty object of variables.
create_request-IsProper :
    (form : CreateForm)
    → maybe
        (create_request form)
        (is_blank form.name ≡ true)
        (λ r. (is_blank form.name ≡ false) × IsProper r)
unfolding create_request
create_request-IsProper form = elim (Bool-cases (is_blank form.name)) [
  | inl u ↦ rw u refl
  | inr u ↦ rw u (
    refl,
    (
      trim-IsFull form.name u,
      or_undefined-IsFull form.working_directory,
      or_undefined-IsFull form.command,
      some_vars-proper (env_vars_map form.env_vars),
    ),
  )
]
