-- ===== src/Snapshot/Escapes.antt =====
-- `stripEscapeSequences` of Terminal.tsx beside a scan by modes.
use terminal_hub.Common.{
  ℕ, zero, suc, ◌≤◌, ◌≡◌, refl, Bool, false, not, [], ◌∷◌, Text, ◌==◌, if◌then◌else◌, length, arith,
  code_point_at,
}
use terminal_hub.Snapshot.{
  escape_char, bell_char, is_final, consume_csi_sequence, consume_osc_sequence,
  consume_escape_sequence, at_backslash, tail, strip_rounds, strip_escape_sequences,
}

-- Where the scan stands: in plain text, behind an ESC, inside a CSI or an OSC sequence, or behind
-- an ESC inside an OSC sequence.
pub data Mode : Type 0 where
  plain escape csi osc osc_escape : Mode

abbrev pub next_mode : Mode → ℕ → Mode
next_mode plain c = if c == escape_char then escape else plain
next_mode escape c = if c == b'[' then csi else if c == b']' then osc else plain
next_mode csi c = if is_final c then plain else csi
next_mode osc c = if c == bell_char then plain else if c == escape_char then osc_escape else osc
next_mode osc_escape c =
    if c == b'\\'
    then plain
    else if c == bell_char
    then plain
    else if c == escape_char
    then osc_escape
    else osc

abbrev pub shown : Mode → ℕ → Bool
shown plain c = not (c == escape_char)
shown _ c = false

unfoldable pub scan : Mode → Text → Text
scan m [] = []
scan m (c ∷ s) = let rest = scan (next_mode m c) s in if shown m c then c ∷ rest else rest

is_final-code_point_at : (c : ℕ) (s : Text) → is_final (code_point_at c s) ≡ is_final c
unfolding code_point_at
is_final-code_point_at c [] = refl
is_final-code_point_at c (d ∷ s) = ground arith

scan_csi : (s : Text) → scan csi s ≡ scan plain (consume_csi_sequence s)
unfolding scan consume_csi_sequence
scan_csi [] = refl
scan_csi (c ∷ s) = ground (arith, is_final-code_point_at c s, scan_csi s)

mutual
  unfolding scan consume_osc_sequence

  scan_osc : (s : Text) → scan osc s ≡ scan plain (consume_osc_sequence s)
  scan_osc [] = refl
  scan_osc (c ∷ s) = ground (arith, scan_osc s, scan_osc_escape s)

  scan_osc_escape :
      (s : Text)
      → scan osc_escape s
        ≡ (if at_backslash s then scan plain (tail s) else scan plain (consume_osc_sequence s))
  scan_osc_escape [] = refl
  scan_osc_escape (c ∷ s) = ground (arith, scan_osc s, scan_osc_escape s)

scan_escape : (s : Text) → scan escape s ≡ scan plain (consume_escape_sequence s)
unfolding scan consume_escape_sequence
scan_escape [] = refl
scan_escape (c ∷ s) = ground (arith, scan_csi s, scan_osc s)

length-consume_csi : (s : Text) → length (consume_csi_sequence s) ≤ length s
unfolding consume_csi_sequence
length-consume_csi [] = omega arith
length-consume_csi (c ∷ s) = ground (arith, length-consume_csi s)

length-tail : (s : Text) → length (tail s) ≤ length s
length-tail [] = omega arith
length-tail (c ∷ s) = omega arith

length-consume_osc : (s : Text) → length (consume_osc_sequence s) ≤ length s
unfolding consume_osc_sequence
length-consume_osc [] = omega arith
length-consume_osc (c ∷ s) = ground (arith, length-consume_osc s, length-tail s)

length-consume_escape : (s : Text) → length (consume_escape_sequence s) ≤ length s
unfolding consume_escape_sequence
length-consume_escape [] = omega arith
length-consume_escape (c ∷ s) = ground (arith, length-consume_csi s, length-consume_osc s)

strip_rounds-scan : (n : ℕ) (s : Text) → length s ≤ n → strip_rounds n s ≡ scan plain s
unfolding strip_rounds scan
strip_rounds-scan zero [] h = refl
strip_rounds-scan zero (c ∷ s) h = elim h [ ]
strip_rounds-scan (suc n) [] h = refl
strip_rounds-scan (suc n) (c ∷ s) h = ground (
  arith,
  strip_rounds-scan n s,
  strip_rounds-scan n (consume_escape_sequence s),
  length-consume_escape s,
  scan_escape s,
)

-- `stripEscapeSequences`, with its look-ahead and its loops within the loop, is the scan: the
-- fuel is enough, and what it drops are exactly the escape sequences as the scan's modes describe
-- them, an unfinished one at the end included.
pub strip-scan : (s : Text) → strip_escape_sequences s ≡ scan plain s
unfolding strip_escape_sequences
strip-scan s = strip_rounds-scan (length s) s (omega arith)
