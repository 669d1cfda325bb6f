-- ===== src/Keys.antt =====
-- frontend/src/features/terminal/mobileKeySequences.ts: the byte sequences that the on-screen
-- modifier keys (Ctrl, Alt, Shift, held until the next key) make of a key or of typed text.
-- `toUpperCase` is ASCII below 128; above, the Unicode table is the parameter `unicode_upper`.
-- A key name that `Object.prototype` has ("constructor") is not told apart from an unknown name:
-- no `KeyboardEvent.key` and no character is one.
pub mod Laws
pub mod Chunks
use terminal_hub.Common.{
  ℕ, ◌-◌, Bool, true, false, not, ◌&&◌, ◌||◌, Option, none, some, List, [], ◌∷◌, ◌++◌, Text, codes,
  leb, ◌==◌, if◌then◌else◌, text_eq, includes, one_of, code_point_at, characters, concat, length,
}

-- `LatchedModifiers`
pub record Modifiers : Type 0 where
  pub ctrl : Bool
  pub alt : Bool
  pub shift : Bool

abbrev pub default_modifiers : Modifiers
default_modifiers = record { ctrl = false; alt = false; shift = false }

-- `TERMINAL_KEY_SEQUENCES`; 0x1b is ESC
abbrev pub esc : ℕ
esc = 0x1b

abbrev pub back_tab : Text
back_tab = esc ∷ codes "[Z"

-- `SPECIAL_KEY_SEQUENCES`
abbrev special_keys : List (Text × Text)
special_keys =
    (codes "Escape", esc ∷ [])
    ∷ (codes "Tab", 9 ∷ [])
    ∷ (codes "Enter", 13 ∷ [])
    ∷ (codes "Backspace", 0x7f ∷ [])
    ∷ (codes "ArrowUp", esc ∷ codes "[A")
    ∷ (codes "ArrowDown", esc ∷ codes "[B")
    ∷ (codes "ArrowLeft", esc ∷ codes "[D")
    ∷ (codes "ArrowRight", esc ∷ codes "[C")
    ∷ (codes "Home", esc ∷ codes "[H")
    ∷ (codes "End", esc ∷ codes "[F")
    ∷ (codes "PageUp", esc ∷ codes "[5~")
    ∷ (codes "PageDown", esc ∷ codes "[6~")
    ∷ (codes "Insert", esc ∷ codes "[2~")
    ∷ (codes "Delete", esc ∷ codes "[3~")
    ∷ []

find_key : Text → List (Text × Text) → Option Text
find_key key [] = none
find_key key ((k, v) ∷ rest) = if text_eq k key then some v else find_key key rest

unfoldable pub special_sequence : Text → Option Text
unfolding find_key text_eq
special_sequence key = find_key key special_keys

-- `MODIFIER_ONLY_KEYS`
abbrev modifier_names : List Text
modifier_names =
    codes "Shift"
    ∷ codes "Control"
    ∷ codes "Alt"
    ∷ codes "Meta"
    ∷ codes "CapsLock"
    ∷ codes "Fn"
    ∷ codes "OS"
    ∷ []

unfoldable pub is_modifier_only : Text → Bool
unfolding includes text_eq
is_modifier_only key = includes key modifier_names

-- the `switch` of `applyCtrlModifier`
unfoldable pub ctrl_symbol : ℕ → Option Text
unfolding one_of
ctrl_symbol c =
    if one_of c (codes " @`2")
    then some (0x00 ∷ [])
    else if one_of c (codes "[{3")
    then some (0x1b ∷ [])
    else if one_of c (codes "\\|4")
    then some (0x1c ∷ [])
    else if one_of c (codes "]}5")
    then some (0x1d ∷ [])
    else if one_of c (codes "^~6")
    then some (0x1e ∷ [])
    else if one_of c (codes "_7/?")
    then some (0x1f ∷ [])
    else if c == b'8'
    then some (0x7f ∷ [])
    else none

abbrev is_lower : ℕ → Bool
is_lower c = leb b'a' c && leb c b'z'

abbrev pub has_latched_modifiers : Modifiers → Bool
has_latched_modifiers m = m.ctrl || m.alt || m.shift

-- `codePointAt(0)`, undefined on the empty text
abbrev first_code_point : Text → Option ℕ
first_code_point [] = none
first_code_point (c ∷ s) = some (code_point_at c s)

abbrev is_capital : Option ℕ → Bool
is_capital none = false
is_capital (some p) = leb 65 p && leb p 90

abbrev letter_control : Option ℕ → Text
letter_control none = []
letter_control (some p) = (p - 64) ∷ []

pub record Chunk : Type 0 where
  pub applied : Bool
  pub output : Text

-- the Alt prefix
abbrev with_alt : Bool → Option Text → Option Text
with_alt alt none = none
with_alt alt (some s) = if alt then some (esc ∷ s) else some s

module _ (unicode_upper : ℕ → Text) where
  -- `toUpperCase` of one code unit
  unfoldable pub to_upper : ℕ → Text
  to_upper c = if is_lower c then (c - 32) ∷ [] else if leb 128 c then unicode_upper c else c ∷ []

  unfoldable pub apply_ctrl_modifier : Text → Option Text
  apply_ctrl_modifier (c ∷ []) =
      let p = first_code_point (to_upper c) in
      if is_capital p then some (letter_control p) else ctrl_symbol c
  apply_ctrl_modifier _ = none

  -- the branch for a key of one code unit
  unfoldable pub character_sequence : Text → Modifiers → Option Text
  character_sequence (c ∷ []) m =
      let char = if m.shift && is_lower c then to_upper c else c ∷ [] in
      if m.ctrl then apply_ctrl_modifier char else some char
  character_sequence _ m = none

  -- `sequence` before the Alt prefix
  unfoldable pub base_sequence : Text → Modifiers → Option Text
  base_sequence key m =
      if text_eq key (codes "Tab") && m.shift
      then some back_tab
      else elim (special_sequence key) [ some s ↦ some s | none ↦ character_sequence key m ]

  unfoldable pub sequence_from_latched_key : Text → Modifiers → Option Text
  sequence_from_latched_key key m =
      if not (has_latched_modifiers m)
      then none
      else if is_modifier_only key
      then none
      else with_alt m.alt (base_sequence key m)

  -- what follows the `shift()` of the first character
  unfoldable pub chunk_of : Text → List Text → Modifiers → Chunk
  chunk_of input [] m = record { applied = false; output = input }
  chunk_of input (first ∷ rest) m = elim (sequence_from_latched_key first m) [
    | none ↦ record { applied = false; output = input }
    | some s ↦ record { applied = true; output = s ++ concat rest }
  ]

  unfoldable pub sequence_from_latched_input_chunk : Text → Modifiers → Chunk
  sequence_from_latched_input_chunk input m =
      if length input == 0 || not (has_latched_modifiers m)
      then record { applied = false; output = input }
      else chunk_of input (characters input) m
