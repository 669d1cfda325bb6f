-- ===== src/Tests/Input.antt =====
-- Keys at a terminal with a latched modifier.
use terminal_hub.Common.{
  ℕ, ◌≤◌, ◌≡◌, refl, ◌+◌, true, false, List, [], ◌∷◌, Text, codes, code_point_at,
}
use terminal_hub.Keys.{
  default_modifiers, sequence_from_latched_key, is_modifier_only, base_sequence, special_sequence,
  character_sequence, apply_ctrl_modifier, to_upper, sequence_from_latched_input_chunk,
}
use terminal_hub.Input.Events.{KeyEvent, Input, ctrl_modifier}
use terminal_hub.Input.Latches.{
  Event, key_pressed, modifier_toggled, effect_run, data_typed, run, toggles, applications, held,
  run-used,
}

abbrev upper : ℕ → Text
upper _ = codes "SS"

abbrev fresh : Input
fresh = record {
  latched_ref = default_modifiers;
  page_modifiers = default_modifiers;
  used = 0;
  log = [];
}

abbrev letter_c : KeyEvent
letter_c = record {
  key = codes "c";
  is_keydown = true;
  ctrl_key = false;
  alt_key = false;
  meta_key = false;
  shift_key = false;
}

abbrev ctrl_then_c : List Event
ctrl_then_c =
    modifier_toggled ctrl_modifier
    ∷ effect_run
    ∷ key_pressed letter_c [] [] true
    ∷ data_typed (codes "d")
    ∷ []

-- the modifier is applied to the key, and not to the text behind it
applied_once : applications upper ctrl_then_c fresh ≡ 1
unfolding applications sequence_from_latched_key is_modifier_only base_sequence special_sequence
    character_sequence apply_ctrl_modifier to_upper code_point_at sequence_from_latched_input_chunk
applied_once = refl

run-used_example :
    (applications upper ctrl_then_c fresh ≤ held fresh + toggles ctrl_then_c)
    × ((run upper ctrl_then_c fresh).used ≡ fresh.used + applications upper ctrl_then_c fresh)
run-used_example = run-used upper ctrl_then_c fresh
