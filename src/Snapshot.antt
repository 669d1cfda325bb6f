-- ===== src/Snapshot.antt =====
-- frontend/src/features/terminal/Terminal.tsx: the plain text of the visible part of the terminal,
-- from `normalizeLineEndings` to `getVisibleBufferTextSnapshot`. An index into a text is the rest of
-- the text from there on. The buffer of xterm is a parameter: its lines are what `getLine` and
-- `translateToString(true)` answer.
pub mod Lines
pub mod Escapes
pub mod Clean
pub mod View
use terminal_hub.Common.{
  ℕ, zero, suc, ◌+◌, ◌-◌, Bool, true, false, not, ◌&&◌, ◌||◌, Option, none, some, List, [], ◌∷◌,
  ◌++◌, map, min, Text, leb, ltb, ◌==◌, if◌then◌else◌, text_eq, code_point_at, characters, take,
  get_elem?, length, maybe, prepend, join_lines, is_nil,
}

-- `ESCAPE_CHAR` and `BELL_CHAR`
abbrev pub escape_char : ℕ
escape_char = 0x1b

abbrev pub bell_char : ℕ
bell_char = 0x07

-- `replaceAll("\r\n", "\n")`
unfoldable pub replace_crlf : Text → Text
replace_crlf [] = []
replace_crlf (c ∷ []) = c ∷ []
replace_crlf (c ∷ d ∷ s) =
    let newline = 10 ∷ replace_crlf s in
    let kept = c ∷ replace_crlf (d ∷ s) in if c == 13 && d == 10 then newline else kept

-- `replaceAll("\r", "\n")`
unfoldable pub replace_cr : Text → Text
replace_cr [] = []
replace_cr (c ∷ s) = (if c == 13 then 10 else c) ∷ replace_cr s

unfoldable pub normalize_line_endings : Text → Text
normalize_line_endings s = replace_cr (replace_crlf s)

abbrev pub is_blank : ℕ → Bool
is_blank c = c == 32 || c == 9

-- `line[i]` is a space or a tab
abbrev pub blank_at : Option ℕ → Bool
blank_at none = false
blank_at (some c) = is_blank c

-- the loop over `endIndex`
unfoldable pub end_index : Text → ℕ → ℕ
end_index line zero = 0
end_index line (suc i) =
    let shorter = end_index line i in if blank_at (get_elem? line i) then shorter else suc i

unfoldable pub trim_trailing_horizontal_whitespace : Text → Text
trim_trailing_horizontal_whitespace line = take (end_index line (length line)) line

-- a code point that ends a control sequence
abbrev pub is_final : ℕ → Bool
is_final p = leb 64 p && leb p 126

unfoldable pub consume_csi_sequence : Text → Text
consume_csi_sequence [] = []
consume_csi_sequence (c ∷ s) =
    let later = consume_csi_sequence s in if is_final (code_point_at c s) then s else later

-- `text[index + 1] === "\\"`
abbrev pub at_backslash : Text → Bool
at_backslash [] = false
at_backslash (c ∷ s) = c == b'\\'

abbrev pub tail : Text → Text
tail [] = []
tail (c ∷ s) = s

unfoldable pub consume_osc_sequence : Text → Text
consume_osc_sequence [] = []
consume_osc_sequence (c ∷ s) =
    let later = consume_osc_sequence s in
    if c == bell_char then s else if c == escape_char && at_backslash s then tail s else later

-- given the text behind the ESC
unfoldable pub consume_escape_sequence : Text → Text
consume_escape_sequence [] = []
consume_escape_sequence (c ∷ s) =
    if c == b'[' then consume_csi_sequence s else if c == b']' then consume_osc_sequence s else s

-- The loop, with fuel: a round takes at least one code unit.
unfoldable pub strip_rounds : ℕ → Text → Text
strip_rounds zero s = []
strip_rounds (suc n) [] = []
strip_rounds (suc n) (c ∷ s) =
    let kept = c ∷ strip_rounds n s in
    let skipped = strip_rounds n (consume_escape_sequence s) in
    if c == escape_char then skipped else kept

unfoldable pub strip_escape_sequences : Text → Text
strip_escape_sequences s = strip_rounds (length s) s

-- what the loop of `stripControlCharacters` appends for a character
abbrev pub visible_character : Text → Text
visible_character [] = []
visible_character (c ∷ s) =
    if (c == 10 || c == 9) && length s == 0
    then c ∷ s
    else if leb 32 (code_point_at c s) && not (code_point_at c s == 127)
    then c ∷ s
    else []

unfoldable pub strip_characters : List Text → Text
strip_characters [] = []
strip_characters (ch ∷ rest) = visible_character ch ++ strip_characters rest

unfoldable pub strip_control_characters : Text → Text
unfolding strip_characters
strip_control_characters s = strip_characters (characters s)

-- `split("\n")`
unfoldable pub split_lines : Text → List Text
split_lines [] = [] ∷ []
split_lines (c ∷ s) = let rest = split_lines s in if c == 10 then [] ∷ rest else prepend c rest

-- the `while` loop that pops empty lines from the end
unfoldable pub pop_empty : List Text → List Text
pop_empty [] = []
pop_empty (l ∷ ls) = let rest = pop_empty ls in if is_nil rest && is_nil l then [] else l ∷ rest

unfoldable pub sanitize_terminal_snapshot : Text → Text
sanitize_terminal_snapshot s =
    let normalized = strip_control_characters (strip_escape_sequences (normalize_line_endings s)) in
    join_lines (pop_empty (map trim_trailing_horizontal_whitespace (split_lines normalized)))

-- The active buffer of xterm and the terminal's height: the line at the top of the view, the text
-- of each line, and `getLine` out of range as `none`.
pub record Buffer : Type 0 where
  pub viewport_y : ℕ
  pub rows : ℕ
  pub lines : List Text

abbrev pub line_text : Option Text → Text
line_text none = []
line_text (some t) = t

-- the `for` loop, `count` rounds from `start`
unfoldable pub visible_lines : Buffer → ℕ → ℕ → List Text
visible_lines b start zero = []
visible_lines b start (suc count) =
    line_text (get_elem? b.lines start) ∷ visible_lines b (suc start) count

abbrev pub end_line : Buffer → ℕ
end_line b = min (length b.lines - 1) (b.viewport_y + b.rows - 1)

-- `viewportY` is never negative, and `rows` is at least 1.
unfoldable pub get_visible_buffer_text_snapshot : Buffer → Text
get_visible_buffer_text_snapshot b =
    if ltb (end_line b) b.viewport_y
    then []
    else sanitize_terminal_snapshot
        (join_lines (visible_lines b b.viewport_y (end_line b + 1 - b.viewport_y)))
