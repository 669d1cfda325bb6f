-- ===== src/Cron/Env.antt =====
-- frontend/src/features/crons/cronForm.ts: the environment variables of a cron job as text, a line
-- KEY=VALUE for each. An object is the list of its own properties in the order of `Object.keys`;
-- assigning a string to `__proto__` adds none. `localeCompare` is a parameter, as the test
-- `left.localeCompare(right) <= 0`.
use terminal_hub.Common.{
  ℕ, suc, Bool, true, false, not, ◌&&◌, ◌||◌, Option, none, some, List, [], ◌∷◌, ◌++◌, map, Text,
  codes, leb, ◌==◌, if◌then◌else◌, maybe, length, trim, text_eq, prepend, join_lines,
}

abbrev pub Vars : Type 0
Vars = List (Text × Text)

-- the messages of `errors`, with their line numbers and keys
pub data EnvError : Type 0 where
  expected_format : ℕ → EnvError
  invalid_key duplicate_key : ℕ → Text → EnvError

-- `ParsedEnvVarsResult`
pub record ParsedEnvVars : Type 0 where
  pub env_vars : Option Vars
  pub errors : List EnvError

abbrev pub is_letter : ℕ → Bool
is_letter c = leb b'A' c && leb c b'Z' || leb b'a' c && leb c b'z'

-- `\w`
abbrev pub is_word : ℕ → Bool
is_word c = is_letter c || leb b'0' c && leb c b'9' || c == b'_'

unfoldable pub all_units : (ℕ → Bool) → Text → Bool
all_units p [] = true
all_units p (c ∷ s) = p c && all_units p s

-- `ENV_VAR_KEY_PATTERN`
unfoldable pub is_env_var_key : Text → Bool
unfolding all_units
is_env_var_key [] = false
is_env_var_key (c ∷ s) = (is_letter c || c == b'_') && all_units is_word s

abbrev pub at_newline : Text → Bool
at_newline [] = false
at_newline (c ∷ s) = c == 10

-- `split(/\r?\n/)`
unfoldable pub split_env_lines : Text → List Text
split_env_lines [] = [] ∷ []
split_env_lines (c ∷ s) =
    let rest = split_env_lines s in
    if c == 10 then [] ∷ rest else if c == 13 && at_newline s then rest else prepend c rest

-- the text before the first `=` and the text behind it; `none` if there is no `=`
unfoldable pub split_at_separator : Text → Option (Text × Text)
split_at_separator [] = none
split_at_separator (c ∷ s) =
    let later = maybe (split_at_separator s) none (λ p. some (c ∷ p.0, p.1)) in
    if c == b'=' then some ([], s) else later

-- `Object.hasOwn`
unfoldable pub has_own : Vars → Text → Bool
has_own [] key = false
has_own ((k, v) ∷ vars) key = text_eq k key || has_own vars key

-- `result[key] = value` for a key that `result` does not have
unfoldable pub assign : Vars → Text → Text → Vars
assign vars key value =
    if text_eq key (codes "__proto__") then vars else vars ++ ((key, value) ∷ [])

abbrev pub EnvState : Type 0
EnvState = Vars × List EnvError

-- what is done with a line that has a separator behind its first code unit
unfoldable pub parse_entry : ℕ → Text → Text → EnvState → EnvState
parse_entry line_number key value (result, errors) =
    if not (is_env_var_key key)
    then (result, errors ++ (invalid_key line_number key ∷ []))
    else if has_own result key
    then (result, errors ++ (duplicate_key line_number key ∷ []))
    else (assign result key value, errors)

-- a round of the loop
unfoldable pub parse_line : ℕ → Text → EnvState → EnvState
unfolding parse_entry
parse_line line_number line (result, errors) =
    let malformed : EnvState = (result, errors ++ (expected_format line_number ∷ [])) in
    if length (trim line) == 0
    then (result, errors)
    else maybe (split_at_separator line) malformed (λ p.
      if length p.0 == 0
      then malformed
      else parse_entry line_number (trim p.0) p.1 (result, errors))

unfoldable pub parse_lines : ℕ → List Text → EnvState → EnvState
unfolding parse_line
parse_lines line_number [] state = state
parse_lines line_number (line ∷ lines) state =
    parse_lines (suc line_number) lines (parse_line line_number line state)

abbrev pub to_parsed : EnvState → ParsedEnvVars
to_parsed (result, e ∷ errors) = record { env_vars = none; errors = e ∷ errors }
to_parsed ([], []) = record { env_vars = none; errors = [] }
to_parsed (v ∷ result, []) = record { env_vars = some (v ∷ result); errors = [] }

unfoldable pub parse_env_vars_text : Text → ParsedEnvVars
unfolding parse_lines
parse_env_vars_text value = to_parsed (parse_lines 1 (split_env_lines value) ([], []))

abbrev pub entry_text : Text × Text → Text
entry_text (k, v) = k ++ (b'=' ∷ v)

module _ (comes_first : Text → Text → Bool) where
  -- A stable sort by key, as `sort` is.
  unfoldable pub insert_sorted : Text × Text → Vars → Vars
  insert_sorted e [] = e ∷ []
  insert_sorted e (f ∷ vars) =
      let later = f ∷ insert_sorted e vars in if comes_first e.0 f.0 then e ∷ f ∷ vars else later

  -- `sortKeys`, with the values
  unfoldable pub sort_keys : Vars → Vars
  unfolding insert_sorted
  sort_keys [] = []
  sort_keys (e ∷ vars) = insert_sorted e (sort_keys vars)

  unfoldable pub env_vars_to_text : Option Vars → Text
  unfolding sort_keys join_lines
  env_vars_to_text none = []
  env_vars_to_text (some vars) = join_lines (map entry_text (sort_keys vars))
