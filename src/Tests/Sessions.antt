-- ===== src/Tests/Sessions.antt =====
-- Sessions and the dialogs about them.
use terminal_hub.Common.{
  ◌++◌, ◌≡◌, refl, none, List, [], ◌∷◌, Text, codes, inl, inr, maybe, trim, trim_start, trim_end,
  is_space, one_of, text_eq,
}
use terminal_hub.Cron.Env.{
  parse_env_vars_text, parse_lines, parse_line, parse_entry, split_env_lines, split_at_separator,
  has_own, assign, is_env_var_key, all_units,
}
use terminal_hub.Sessions.Env.{env_vars_map}
use terminal_hub.Sessions.SameVars.{trimmed, env_vars_map-trimmed}
use terminal_hub.Sessions.Store.{Event, interval_fired, refresh_answered, create_answered}

-- two lines, the first of which ends as on Windows
abbrev two_lines : Text
two_lines = codes "A=1 " ++ (13 ∷ 10 ∷ codes "B= x=y")

two_lines_accepted : (parse_env_vars_text two_lines).errors ≡ []
unfolding parse_env_vars_text parse_lines parse_line parse_entry split_env_lines split_at_separator
    has_own assign is_env_var_key all_units trim trim_start trim_end is_space one_of text_eq
two_lines_accepted = refl

env_vars_map-trimmed_example :
    env_vars_map two_lines ≡ trimmed (maybe (parse_env_vars_text two_lines).env_vars [] (λ v. v))
env_vars_map-trimmed_example = env_vars_map-trimmed two_lines two_lines_accepted

abbrev day : List Event
day =
    refresh_answered (inr [])
    ∷ create_answered (codes "a") none
    ∷ refresh_answered (inl (codes "down"))
    ∷ interval_fired
    ∷ []
