-- ===== src/Tests/Keys.antt =====
-- mobileKeySequences.ts on concrete keys.
use terminal_hub.Common.{
  ℕ, ◌≡◌, refl, true, false, some, [], ◌∷◌, Text, codes, text_eq, includes, code_point_at,
}
use terminal_hub.Keys.{
  Modifiers, to_upper, base_sequence, character_sequence, is_modifier_only, special_sequence,
  apply_ctrl_modifier, sequence_from_latched_key, sequence_from_latched_input_chunk,
}
use terminal_hub.Keys.Chunks.{IsFaithful, chunk-IsFaithful}

abbrev upper : ℕ → Text
upper _ = codes "SS"

abbrev ctrl : Modifiers
ctrl = record { ctrl = true; alt = false; shift = false }

abbrev ctrl_alt : Modifiers
ctrl_alt = record { ctrl = true; alt = true; shift = false }

ctrl_c : sequence_from_latched_key upper (codes "c") ctrl ≡ some (3 ∷ [])
unfolding sequence_from_latched_key base_sequence character_sequence is_modifier_only
    special_sequence apply_ctrl_modifier to_upper code_point_at text_eq includes
ctrl_c = refl

chunk-IsFaithful_example :
    IsFaithful upper (codes "cd") ctrl (sequence_from_latched_input_chunk upper (codes "cd") ctrl)
chunk-IsFaithful_example = chunk-IsFaithful upper (codes "cd") ctrl
