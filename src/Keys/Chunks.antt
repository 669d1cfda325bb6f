-- ===== src/Keys/Chunks.antt =====
-- What the modifiers of mobileKeySequences.ts do to a chunk of typed text.
use terminal_hub.Common.{
  ℕ, ◌≡◌, ◌⊎◌, inl, inr, refl, true, false, not, ◌||◌, none, some, List, [], ◌∷◌, ◌++◌, Text, arith,
  Bool-cases, Option-cases, ◌==◌, characters, concat, text_eq, length, is_high, is_low, Option,
  Bool, leb, ◌&&◌, ◌%◌, if◌then◌else◌,
}
use terminal_hub.Keys.{
  esc, Modifiers, Chunk, has_latched_modifiers, chunk_of, sequence_from_latched_key, base_sequence,
  sequence_from_latched_input_chunk, special_sequence, character_sequence,
}
use terminal_hub.Keys.Laws.{ctrl_letter}

pair-not_special : (hi lo : ℕ) → special_sequence (hi ∷ lo ∷ []) ≡ none
unfolding special_sequence
pair-not_special hi lo = ground arith

abbrev is_letter : ℕ → Bool
is_letter c = leb b'A' c && leb c b'Z' || leb b'a' c && leb c b'z'

-- the bytes of Ctrl and an ASCII letter, which Ctrl-A counts from 1; of another key, `otherwise`
abbrev pub control_bytes : Text → Modifiers → Text → Text
control_bytes [] m otherwise = otherwise
control_bytes (c ∷ []) m otherwise =
    if m.ctrl && is_letter c then if m.alt then esc ∷ c % 32 ∷ [] else c % 32 ∷ [] else otherwise
control_bytes (c ∷ d ∷ s) m otherwise = otherwise

module _ (unicode_upper : ℕ → Text) where
  -- the sequence of the first character of a text, if it has one
  abbrev pub first_sequence : List Text → Modifiers → Option Text
  first_sequence [] m = none
  first_sequence (first ∷ others) m = sequence_from_latched_key unicode_upper first m

  -- How an input to which modifiers are applied splits: its first character, whose sequence stands
  -- in its place, and the others, which are sent as they are.
  pub record IsApplied (input : Text) (m : Modifiers) (output : Text) : Type 0 where
    pub first : Text
    pub others : List Text
    pub sequence : Text
    pub split : characters input ≡ first ∷ others
    pub latched : sequence_from_latched_key unicode_upper first m ≡ some sequence
    pub control : sequence ≡ control_bytes first m sequence
    pub sent : output ≡ sequence ++ concat others

  abbrev pub IsFaithful : Text → Modifiers → Chunk → Type 0
  IsFaithful input m r =
      ((r.applied ≡ false) × (r.output ≡ input) × (first_sequence (characters input) m ≡ none))
      ⊎ ((r.applied ≡ true) × IsApplied input m r.output)

  control-bytes :
      (first : Text) (m : Modifiers) (sequence : Text)
      → sequence_from_latched_key unicode_upper first m ≡ some sequence
      → sequence ≡ control_bytes first m sequence
  control-bytes [] m sequence h = refl
  control-bytes (c ∷ []) m sequence h = elim (Bool-cases (m.ctrl && is_letter c)) [
    | inl u ↦ ground (arith, u, h, ctrl_letter unicode_upper c m (ground (arith, u)))
    | inr u ↦ rw u refl
  ]
  control-bytes (c ∷ d ∷ s) m sequence h = refl

  chunk_of-IsFaithful :
      (input : Text) (cs : List Text) (m : Modifiers)
      → characters input ≡ cs
      → IsFaithful input m (chunk_of unicode_upper input cs m)
  unfolding chunk_of
  chunk_of-IsFaithful input [] m e = inl (refl, refl, rw e refl)
  chunk_of-IsFaithful input (c ∷ cs) m e =
      elim (Option-cases (sequence_from_latched_key unicode_upper c m)) [
        | inl missed ↦ rw (missed, chunk_of) (inl (refl, refl, rw e missed))
        | inr (s, found) ↦
            rw (found, chunk_of)
              (inr (
                refl,
                record {
                  first = c;
                  others = cs;
                  sequence = s;
                  split = e;
                  latched = found;
                  control = control-bytes c m s found;
                  sent = refl;
                },
              ))
      ]

  idle-none :
      (input : Text) (m : Modifiers)
      → (length input == 0 || not (has_latched_modifiers m)) ≡ true
      → first_sequence (characters input) m ≡ none
  unfolding sequence_from_latched_key characters
  idle-none [] m h = refl
  idle-none (c ∷ []) m h = ground (arith, h)
  idle-none (c ∷ d ∷ s) m h = ground (arith, h)

  -- Modifiers are applied to a chunk exactly if its first character has a sequence with them. Where
  -- they are not, the chunk is sent as it was typed; where they are, the first character alone, of
  -- one or two code units, is replaced by that sequence, and the others are kept. With Ctrl, the
  -- sequence of an ASCII letter is its control byte, behind an ESC if Alt is held too.
  pub chunk-IsFaithful :
      (input : Text) (m : Modifiers)
      → IsFaithful input m (sequence_from_latched_input_chunk unicode_upper input m)
  unfolding sequence_from_latched_input_chunk
  chunk-IsFaithful input m =
      elim (Bool-cases (length input == 0 || not (has_latched_modifiers m))) [
        | inl idle ↦ rw idle (inl (refl, refl, idle-none input m idle))
        | inr busy ↦ rw busy (chunk_of-IsFaithful input (characters input) m refl)
      ]

  pair-not_character :
      (hi lo : ℕ) (m : Modifiers) → base_sequence unicode_upper (hi ∷ lo ∷ []) m ≡ none
  unfolding base_sequence character_sequence text_eq
  pair-not_character hi lo m = ground (arith, pair-not_special hi lo)

  pair_not_latched :
      (hi lo : ℕ) (m : Modifiers) → sequence_from_latched_key unicode_upper (hi ∷ lo ∷ []) m ≡ none
  unfolding sequence_from_latched_key
  pair_not_latched hi lo m = ground (arith, pair-not_character hi lo m)

  -- A character of two code units, such as an emoji, is no key: typed first, it is sent as it is
  -- with what follows, and the modifiers stay latched.
  chunk_of_pair :
      (hi lo : ℕ) (rest : Text) (m : Modifiers)
      → is_high hi ≡ true
      → is_low lo ≡ true
      → sequence_from_latched_input_chunk unicode_upper (hi ∷ lo ∷ rest) m
        ≡ record { applied = false; output = hi ∷ lo ∷ rest }
  unfolding sequence_from_latched_input_chunk characters chunk_of
  chunk_of_pair hi lo rest m h k = ground (arith, pair_not_latched hi lo m)
