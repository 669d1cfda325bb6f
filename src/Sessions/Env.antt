-- ===== src/Sessions/Env.antt =====
-- CreateSessionDialog.tsx: the environment variables that its text stands for. An object is the list
-- of its own properties; their order stands for nothing. Assigning a string to `__proto__` adds none.
use terminal_hub.Common.{
  List, [], ◌∷◌, Text, codes, ◌==◌, if◌then◌else◌, maybe, length, trim, text_eq,
}
use terminal_hub.Snapshot.{split_lines}
use terminal_hub.Cron.Env.{Vars, split_at_separator}

unfoldable pub put_own : Vars → Text → Text → Vars
put_own [] key value = (key, value) ∷ []
put_own ((k, v) ∷ vars) key value =
    let rest = put_own vars key value in if text_eq k key then (k, value) ∷ vars else (k, v) ∷ rest

-- `envVarsMap[key] = value`
unfoldable pub put : Vars → Text → Text → Vars
unfolding put_own
put vars key value = if text_eq key (codes "__proto__") then vars else put_own vars key value

-- A round of the loop. `line.split("=")` has more than one part exactly if the line has a separator;
-- the first part is what stands before the first one, and the others joined are what follows it.
unfoldable pub add_line : Text → Vars → Vars
unfolding put
add_line line vars =
    maybe (split_at_separator line) vars
      (λ p. if length p.0 == 0 then vars else put vars (trim p.0) (trim p.1))

unfoldable pub add_lines : List Text → Vars → Vars
unfolding add_line
add_lines [] vars = vars
add_lines (line ∷ lines) vars = add_lines lines (add_line line vars)

-- `envVarsMap`
unfoldable pub env_vars_map : Text → Vars
unfolding add_lines split_lines
env_vars_map text = if length (trim text) == 0 then [] else add_lines (split_lines text) []
