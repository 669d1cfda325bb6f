-- ===== src/Cron/Schedule.antt =====
-- The check of a schedule in cronForm.ts, against the words of the text.
use terminal_hub.Common.{
  prepend, is_nil, ℕ, ◌≡◌, refl, Bool, true, false, not, ◌&&◌, ◌||◌, List, [], ◌∷◌, Text, ◌==◌,
  Bool-cases, suc, if◌then◌else◌, maybe, length, trim, trim_start, trim_end, is_space, arith,
}
use terminal_hub.Cron.Form.{
  is_cron_field, split_fields, invalid_field_index, validate_fields,
  validate_cron_schedule_expression,
}

abbrev starts_word : Text → Bool
starts_word [] = false
starts_word (c ∷ s) = not (is_space c)

-- The words of a text: its longest runs of units that are no white space.
unfoldable pub words : Text → List Text
words [] = []
words (c ∷ s) =
    let rest = words s in
    if is_space c then rest else if starts_word s then prepend c rest else (c ∷ []) ∷ rest

unfoldable pub all_fields : List Text → Bool
all_fields [] = true
all_fields (f ∷ fields) = is_cron_field f && all_fields fields

words-trim_start : (s : Text) → words (trim_start s) ≡ words s
unfolding words trim_start
words-trim_start [] = refl
words-trim_start (c ∷ s) = ground (arith, words-trim_start s)

words-trim_end_nil : (s : Text) → trim_end s ≡ [] → words s ≡ []
unfolding words trim_end
words-trim_end_nil [] h = refl
words-trim_end_nil (c ∷ s) h = ground (arith, words-trim_end_nil s)

trim_end-word : (s : Text) → starts_word s ≡ true → is_nil (trim_end s) ≡ false
unfolding trim_end
trim_end-word [] h = cc
trim_end-word (c ∷ s) h = ground arith

-- the fields of a trimmed end, behind white space and elsewhere
fields_from : Bool → Text → List Text
fields_from in_space s =
    if is_nil (trim_end s)
    then [] ∷ []
    else if in_space || starts_word s
    then words s
    else [] ∷ words s

split-trim_end : (b : Bool) (s : Text) → split_fields b (trim_end s) ≡ fields_from b s
unfolding fields_from split_fields trim_end words
split-trim_end b [] = refl
split-trim_end b (c ∷ s) =
    ground
      (arith, split-trim_end true s, split-trim_end false s, words-trim_end_nil s, trim_end-word s)

trim-first : (s : Text) → starts_word (trim_start s) ≡ not (is_nil (trim_start s))
unfolding trim_start
trim-first [] = refl
trim-first (c ∷ s) = ground (arith, trim-first s)

split-trim : (s : Text) → is_nil (trim s) ≡ false → split_fields false (trim s) ≡ words s
unfolding trim fields_from
split-trim s h =
    ground
      (arith, split-trim_end false (trim_start s), words-trim_start s, trim-first s, trim_start s)

trim_nil : (s : Text) → is_nil (trim s) ≡ true → words s ≡ []
unfolding trim
trim_nil s h =
    ground
      (arith, words-trim_end_nil (trim_start s), words-trim_start s, Bool-cases (is_nil (trim s)))

invalid-all_fields :
    (i : ℕ) (fields : List Text)
    → maybe (invalid_field_index i fields) true (λ _. false) ≡ all_fields fields
unfolding invalid_field_index all_fields
invalid-all_fields i [] = refl
invalid-all_fields i (f ∷ fields) = ground (arith, invalid-all_fields (suc i) fields)

abbrev pub five_or_six : List Text → Bool
five_or_six fields = length fields == 5 || length fields == 6

validate_fields-words :
    (fields : List Text) → (validate_fields fields).valid ≡ five_or_six fields && all_fields fields
unfolding validate_fields
validate_fields-words fields = ground (arith, invalid-all_fields 0 fields)

length-is_nil : (s : Text) → (length s == 0) ≡ is_nil s
length-is_nil [] = refl
length-is_nil (c ∷ s) = ground arith

-- A schedule is accepted exactly if it consists of five or six words, whatever the white space
-- around them, that the pattern of a field takes.
pub validate-words :
    (value : Text)
    → (validate_cron_schedule_expression value).valid
      ≡ five_or_six (words value) && all_fields (words value)
unfolding validate_cron_schedule_expression
validate-words value = ground (
  arith,
  split-trim value,
  trim_nil value,
  validate_fields-words (words value),
  length-is_nil (trim value),
  Bool-cases (is_nil (trim value)),
)
