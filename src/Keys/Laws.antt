-- ===== src/Keys/Laws.antt =====
-- What the modifiers do to one key of mobileKeySequences.ts.
use mathlib.Core.Option
use terminal_hub.Common.{
  ℕ, ◌-◌, ◌%◌, ◌≤◌, ◌<◌, ◌≡◌, ◌⊎◌, inl, inr, refl, Bool, true, false, ◌&&◌, ◌||◌, none, some, [],
  ◌∷◌, Text, arith, if◌then◌else◌, text_eq, code_point_at,
}
use terminal_hub.Keys.{
  Modifiers, esc, special_sequence, is_modifier_only, ctrl_symbol, has_latched_modifiers, is_lower,
  to_upper, with_alt, apply_ctrl_modifier, character_sequence, base_sequence,
  sequence_from_latched_key,
}

abbrev pub IsLetter : ℕ → Type 0
IsLetter c = ((65 ≤ c) × (c ≤ 90)) ⊎ ((97 ≤ c) × (c ≤ 122))

-- A control byte of the terminal: below 32, or DEL.
abbrev pub IsControl : Text → Type 0
IsControl [] = ⊥
IsControl (b ∷ []) = (b < 32) ⊎ (b ≡ 0x7f)
IsControl (_ ∷ _ ∷ _) = ⊥

unit-not_special : (c : ℕ) → special_sequence (c ∷ []) ≡ none
unfolding special_sequence
unit-not_special c = ground arith

unit-not_modifier : (c : ℕ) → is_modifier_only (c ∷ []) ≡ false
unfolding is_modifier_only
unit-not_modifier c = ground arith

ctrl_symbol-IsControl : (c : ℕ) (s : Text) → ctrl_symbol c ≡ some s → IsControl s
unfolding ctrl_symbol
ctrl_symbol-IsControl c s h = ground arith

module _ (unicode_upper : ℕ → Text) where
  base_sequence_unit :
      (c : ℕ) (m : Modifiers)
      → base_sequence unicode_upper (c ∷ []) m ≡ character_sequence unicode_upper (c ∷ []) m
  unfolding base_sequence text_eq
  base_sequence_unit c m = ground (arith, unit-not_special c)

  sequence_unit :
      (c : ℕ) (m : Modifiers)
      → sequence_from_latched_key unicode_upper (c ∷ []) m ≡ (
          if has_latched_modifiers m
          then with_alt m.alt (character_sequence unicode_upper (c ∷ []) m)
          else none)
  unfolding sequence_from_latched_key
  sequence_unit c m = ground (arith, unit-not_modifier c, base_sequence_unit c m)

  apply_ctrl_letter :
      (c : ℕ) → IsLetter c → apply_ctrl_modifier unicode_upper (c ∷ []) ≡ some (c % 32 ∷ [])
  unfolding apply_ctrl_modifier to_upper code_point_at
  apply_ctrl_letter c (inl h) = ground arith
  apply_ctrl_letter c (inr h) = ground arith

  shifted_letter :
      (c : ℕ) (b : Bool)
      → IsLetter c
      → apply_ctrl_modifier unicode_upper
          (if b && is_lower c then to_upper unicode_upper c else c ∷ [])
        ≡ some (c % 32 ∷ [])
  unfolding to_upper
  shifted_letter c b h = ground (arith, apply_ctrl_letter c h, apply_ctrl_letter (c - 32))

  -- Ctrl and an ASCII letter, with Shift or not, give the letter's control byte (Ctrl-A is 1,
  -- Ctrl-Z is 26), behind an ESC exactly if Alt is held too.
  pub ctrl_letter :
      (c : ℕ) (m : Modifiers)
      → IsLetter c
      → m.ctrl ≡ true
      → sequence_from_latched_key unicode_upper (c ∷ []) m
        ≡ some (if m.alt then esc ∷ c % 32 ∷ [] else c % 32 ∷ [])
  unfolding character_sequence
  ctrl_letter c m h k = ground (arith, sequence_unit c m, shifted_letter c m.shift h)

  -- Whatever key of one code unit it is given, `applyCtrlModifier` answers with one control byte or
  -- refuses.
  apply_ctrl_modifier-IsControl :
      (key s : Text) → apply_ctrl_modifier unicode_upper key ≡ some s → IsControl s
  unfolding apply_ctrl_modifier
  apply_ctrl_modifier-IsControl [] s h = cc
  apply_ctrl_modifier-IsControl (c ∷ []) s h = ground (arith, ctrl_symbol-IsControl c s)
  apply_ctrl_modifier-IsControl (_ ∷ _ ∷ _) s h = cc

  base_sequence_no_alt :
      (key : Text) (m : Modifiers)
      → base_sequence unicode_upper key m
        ≡ base_sequence unicode_upper key (record m { alt = false })
  unfolding base_sequence character_sequence
  base_sequence_no_alt [] m = refl
  base_sequence_no_alt (c ∷ []) m = refl
  base_sequence_no_alt (c ∷ d ∷ s) m = refl

  -- Alt beside Ctrl or Shift puts an ESC in front of what the key gives without Alt, and refuses
  -- the same keys.
  alt_prefix :
      (key : Text) (m : Modifiers)
      → m.alt ≡ true
      → (m.ctrl || m.shift) ≡ true
      → sequence_from_latched_key unicode_upper key m
        ≡ Option.map
            (λ s. esc ∷ s)
            (sequence_from_latched_key unicode_upper key (record m { alt = false }))
  unfolding sequence_from_latched_key
  alt_prefix key m h k = ground (arith, base_sequence_no_alt key m)
