-- ===== src/Frames/Tests.antt =====
-- Runs of the scan for frames, and its theorem at one text.
use terraform_ls_rs.Base.{
  ◌≤◌, map, length, arith, Bool, true, false, some, List, [], ◌∷◌, ◌++◌, ◌≡◌, refl, Bytes, codes,
  count_while, starts_with,
}
use terraform_ls_rs.Frames.Heredoc.{
  line_break, end_of_line, opener_at, parse_heredoc_opener, match_heredoc_closer,
}
use terraform_ls_rs.Frames.Scan.{
  code_turn, string_turn, heredoc_turn, brace_turn, mask_from, scan, fill, interp, is_brace,
  ignored_brace_positions, cursor_in_string_literal,
}
use terraform_ls_rs.Json.Write.{escape_string}
use terraform_ls_rs.Json.Text.{quoted_text}
use terraform_ls_rs.Json.Read.{has_template}
use terraform_ls_rs.Frames.Comments.{block_comment, live_turn, bits, comment_scan, comment_mask}
use terraform_ls_rs.Frames.Literals.{scan-quoted_text}
use terraform_ls_rs.Frames.Masks.{Covers, ignored_brace_positions-Covers}

program : Unit {0}
unfolding line_break end_of_line opener_at parse_heredoc_opener match_heredoc_closer code_turn
    string_turn heredoc_turn brace_turn mask_from scan block_comment live_turn bits comment_scan
    count_while starts_with
program = tt

-- A block, an object inside an interpolation, and a brace in a string inside of that.
abbrev nested : Bytes
nested = codes "a {\n\"x${f({k = \"}\"})}y\""

nested_mask :
    ignored_brace_positions nested
    ≡ some (
        false ∷ false ∷ false ∷ false ∷ false ∷ false ∷ false ∷ true ∷ false ∷ false ∷ true ∷ false
        ∷ false ∷ false ∷ false ∷ false ∷ true ∷ false ∷ true ∷ false ∷ true ∷ false ∷ false ∷ [])
unfolding program
nested_mask = refl

in_argument : cursor_in_string_literal (codes "x = \"${f(") ≡ some false
unfolding program
in_argument = refl

in_string : cursor_in_string_literal (codes "x = \"${f(\"a") ≡ some true
unfolding program
in_string = refl

in_heredoc : cursor_in_string_literal (codes "x = <<-E\n \"a\" E\n") ≡ some true
unfolding program
in_heredoc = refl

behind_heredoc : cursor_in_string_literal (codes "x = <<-E\n a\n  E \r\ny") ≡ some false
unfolding program
behind_heredoc = refl

no_template : has_template (codes "a{\"}") ≡ false
unfolding has_template
no_template = refl

short : length (quoted_text (codes "a{\"}") ++ codes "}") ≤ 20
unfolding escape_string
short = omega arith

-- A comment begins in live code only, and a block comment ends with its `*/`.
commented :
    comment_mask (codes "\"#\"/*#*/a#b\nc")
    ≡ some (
        false ∷ false ∷ false ∷ true ∷ true ∷ true ∷ true ∷ true ∷ false ∷ true ∷ true ∷ false
        ∷ false ∷ [])
unfolding program
commented = refl

ignored_brace_positions-Covers_example :
    (mask : List Bool) × (inside : Bool) × (comments : List Bool) × (ignored_brace_positions nested
      ≡ some mask)
    × (cursor_in_string_literal nested ≡ some inside)
    × (comment_mask nested ≡ some comments)
    × Covers mask nested
    × (length comments ≡ length nested)
ignored_brace_positions-Covers_example = ignored_brace_positions-Covers nested

-- A string with braces and quotes, behind an interpolation's open brace.
scan-quoted_text_example :
    scan 20 (interp 1 ∷ []) false (quoted_text (codes "a{\"}") ++ codes "}")
    ≡ fill (map is_brace (quoted_text (codes "a{\"}"))) (scan 1 (interp 1 ∷ []) false (codes "}"))
scan-quoted_text_example =
    scan-quoted_text (codes "a{\"}") (codes "}") 20 (interp 1 ∷ []) false no_template refl
      (omega arith, tt) short
