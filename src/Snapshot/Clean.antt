-- ===== src/Snapshot/Clean.antt =====
-- The code units of a sanitized snapshot of Terminal.tsx.
use terminal_hub.Common.{
  ℕ, ◌≤◌, ◌≡◌, ◌≢◌, ◌⊎◌, inl, inr, refl, ap, ◌∙◌, true, not, ◌&&◌, ◌||◌, [], ◌∷◌, Text, leb, ◌==◌,
  arith, All, All-append, Bool-cases, if_elim, code_point_at, characters, is_high, is_low,
}
use terminal_hub.Snapshot.{
  replace_crlf, replace_cr, normalize_line_endings, strip_escape_sequences, visible_character,
  strip_characters, strip_control_characters, sanitize_terminal_snapshot,
}
use terminal_hub.Snapshot.Escapes.{plain, scan, strip-scan}
use terminal_hub.Snapshot.Lines.{tidy, tidy_idem, tidy-All}

-- A newline, a tab, or a code unit that is no control character of ASCII.
abbrev pub IsClean : ℕ → Type 0
IsClean c = (c ≡ 10) ⊎ (c ≡ 9) ⊎ ((32 ≤ c) × (c ≢ 127))

visible_single : (c : ℕ) → All IsClean (visible_character (c ∷ []))
unfolding code_point_at
visible_single c =
    if_elim (All IsClean) ((c == 10 || c == 9) && true) (λ e. (ground arith, tt))
      (λ _. if_elim (All IsClean) (leb 32 c && not (c == 127)) (λ e. (ground arith, tt)) (λ _. tt))

pair_units : (c d : ℕ) → (is_high c && is_low d) ≡ true → IsClean c × IsClean d
pair_units c d e = ground arith

visible_pair :
    (c d : ℕ) → (is_high c && is_low d) ≡ true → visible_character (c ∷ d ∷ []) ≡ c ∷ d ∷ []
unfolding code_point_at
visible_pair c d e = ground arith

strip_characters-IsClean : (s : Text) → All IsClean (strip_characters (characters s))
unfolding strip_characters characters
strip_characters-IsClean [] = tt
strip_characters-IsClean (c ∷ []) =
    All-append IsClean (visible_character (c ∷ [])) [] (visible_single c) tt
strip_characters-IsClean (c ∷ d ∷ s) = elim (Bool-cases (is_high c && is_low d)) [
  | inl pair ↦
      rw (pair, visible_pair c d pair)
        ((pair_units c d pair).0, ((pair_units c d pair).1, strip_characters-IsClean s))
  | inr single ↦ rw single (
      All-append IsClean (visible_character (c ∷ [])) _ (visible_single c)
        (strip_characters-IsClean (d ∷ s)))
]

visible_clean : (c : ℕ) → IsClean c → visible_character (c ∷ []) ≡ c ∷ []
unfolding code_point_at
visible_clean c h = ground arith

strip_characters_clean : (s : Text) → All IsClean s → strip_characters (characters s) ≡ s
unfolding strip_characters characters
strip_characters_clean [] h = refl
strip_characters_clean (c ∷ []) (p, h) = rw (visible_clean c p)
strip_characters_clean (c ∷ d ∷ s) (p, (q, h)) = elim (Bool-cases (is_high c && is_low d)) [
  | inl pair ↦ rw (pair, visible_pair c d pair, strip_characters_clean s h)
  | inr single ↦
      rw (single, visible_clean c p) (ap (λ r. c ∷ r) (strip_characters_clean (d ∷ s) (q, h)))
]

scan_clean : (s : Text) → All IsClean s → scan plain s ≡ s
unfolding scan
scan_clean [] h = refl
scan_clean (c ∷ s) (p, h) = ground (arith, scan_clean s h)

replace_cr_clean : (s : Text) → All IsClean s → replace_cr s ≡ s
unfolding replace_cr
replace_cr_clean [] h = refl
replace_cr_clean (c ∷ s) (p, h) = ground (arith, replace_cr_clean s h)

replace_crlf_clean : (s : Text) → All IsClean s → replace_crlf s ≡ s
unfolding replace_crlf
replace_crlf_clean [] h = refl
replace_crlf_clean (c ∷ []) h = refl
replace_crlf_clean (c ∷ d ∷ s) (p, (q, h)) = ground (arith, replace_crlf_clean (d ∷ s) (q, h))

-- the three steps before the text is split into lines
abbrev stripped : Text → Text
stripped s = strip_control_characters (strip_escape_sequences (normalize_line_endings s))

stripped-IsClean : (s : Text) → All IsClean (stripped s)
unfolding strip_control_characters
stripped-IsClean s = strip_characters-IsClean (strip_escape_sequences (normalize_line_endings s))

stripped_clean : (s : Text) → All IsClean s → stripped s ≡ s
unfolding strip_control_characters normalize_line_endings
stripped_clean s h =
    rw (replace_crlf_clean s h, replace_cr_clean s h, strip-scan s, scan_clean s h)
      (strip_characters_clean s h)

sanitized-IsClean : (s : Text) → All IsClean (sanitize_terminal_snapshot s)
unfolding sanitize_terminal_snapshot
sanitized-IsClean s = tidy-All IsClean (stripped s) (inl refl) (stripped-IsClean s)

sanitize_idem :
    (s : Text)
    → sanitize_terminal_snapshot (sanitize_terminal_snapshot s) ≡ sanitize_terminal_snapshot s
unfolding sanitize_terminal_snapshot
sanitize_idem s =
    ap tidy (stripped_clean (tidy (stripped s)) (sanitized-IsClean s)) ∙ tidy_idem (stripped s)

-- Whatever the terminal shows, the snapshot holds no control character of ASCII (below U+0020, or
-- U+007F) but newlines and tabs, and sanitizing it a second time changes nothing. The control
-- characters from U+0080 to U+009F are not among those that it says to be gone.
pub sanitize-IsClean :
    (s : Text)
    → All IsClean (sanitize_terminal_snapshot s)
      × (sanitize_terminal_snapshot (sanitize_terminal_snapshot s) ≡ sanitize_terminal_snapshot s)
sanitize-IsClean s = (sanitized-IsClean s, sanitize_idem s)
