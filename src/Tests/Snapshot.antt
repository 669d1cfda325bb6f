-- ===== src/Tests/Snapshot.antt =====
-- Terminal snapshots of concrete texts.
use terminal_hub.Common.{
  join_lines, ◌≡◌, refl, [], ◌∷◌, ◌++◌, Text, codes, All, characters, code_point_at,
}
use terminal_hub.Snapshot.{
  strip_escape_sequences, strip_rounds, consume_escape_sequence, consume_csi_sequence,
  consume_osc_sequence, sanitize_terminal_snapshot, normalize_line_endings, replace_cr,
  replace_crlf, strip_control_characters, strip_characters, split_lines, pop_empty,
  trim_trailing_horizontal_whitespace, end_index, Buffer,
}
use terminal_hub.Snapshot.Escapes.{plain, scan, strip-scan}
use terminal_hub.Snapshot.Clean.{IsClean, sanitize-IsClean}

-- ESC [ 3 1 m red ESC [ 0 m, a title by OSC ended by a bell, and an OSC that is not ended
abbrev coloured : Text
coloured =
    0x1b ∷ codes "[31mred"
    ++ (0x1b ∷ codes "[0m  ")
    ++ (0x1b ∷ codes "]0;t")
    ++ (7 ∷ 13 ∷ 10 ∷ 0x1b ∷ codes "]x")

coloured_text : sanitize_terminal_snapshot coloured ≡ codes "red"
unfolding sanitize_terminal_snapshot normalize_line_endings replace_cr replace_crlf
    strip_escape_sequences strip_rounds consume_escape_sequence consume_csi_sequence
    consume_osc_sequence strip_control_characters strip_characters characters code_point_at
    split_lines join_lines pop_empty trim_trailing_horizontal_whitespace end_index
coloured_text = refl

strip-scan_example : strip_escape_sequences coloured ≡ scan plain coloured
strip-scan_example = strip-scan coloured

sanitize-IsClean_example :
    All IsClean (sanitize_terminal_snapshot coloured)
    × (sanitize_terminal_snapshot (sanitize_terminal_snapshot coloured)
        ≡ sanitize_terminal_snapshot coloured)
sanitize-IsClean_example = sanitize-IsClean coloured

abbrev three_lines : Buffer
three_lines = record { viewport_y = 1; rows = 2; lines = codes "a" ∷ codes "b" ∷ codes "c" ∷ [] }
