-- ===== src/Document/Tests.antt =====
-- Runs of the conversions of positions, and their theorems at a text of three lines.
use terraform_ls_rs.Base.{
  ℕ, ◌<◌, ◌^◌, some, [], ◌++◌, ◌≡◌, ◌⊎◌, inr, refl, ok, err, Bytes, codes, length, is_char_boundary,
  starts_char, none, ◌∷◌, if◌then◌else◌, arith,
}
use terraform_ls_rs.Symbols.{Position}
use terraform_ls_rs.Document.Ascii.{boundary, ascii}
use terraform_ls_rs.Document.Position.{
  line_start_bytes, binary_search, visible_chars, byte_in_line, offset_in_line,
  lsp_position_to_byte_offset, column_in, position_in, byte_offset_to_lsp_position,
  hcl_span_to_lsp_range,
}
use terraform_ls_rs.Document.Lines.{newlines}
use terraform_ls_rs.Document.Located.{Splits, position_of, byte_offset_to_lsp_position-Splits}
use terraform_ls_rs.Document.Column.{lsp_position_to_byte_offset-byte_offset_to_lsp_position}

program : Unit {0}
unfolding line_start_bytes binary_search visible_chars byte_in_line offset_in_line
    lsp_position_to_byte_offset column_in position_in byte_offset_to_lsp_position
    hcl_span_to_lsp_range newlines is_char_boundary starts_char boundary
program = tt

abbrev text : Bytes
text = codes "ab\r\ncde\n"

abbrev lsp_position : ℕ → ℕ → Position
lsp_position line character = record { line = line; character = character }

-- The offset 6 is behind `d`.
span_range :
    hcl_span_to_lsp_range ascii text 4 6
    ≡ some (ok (record { start = lsp_position 1 0; end = lsp_position 1 2 }))
unfolding program
span_range = refl

behind_end : hcl_span_to_lsp_range ascii text 4 9 ≡ some (err (record { offset = 9; length = 8 }))
unfolding program
behind_end = refl

-- A column behind the end of a line is taken for its visible end.
past_end_of_line : lsp_position_to_byte_offset ascii text (lsp_position 0 7) ≡ ok 2
unfolding program
past_end_of_line = refl

-- The offset 1 is inside the character of two bytes.
inside_char : byte_offset_to_lsp_position ascii (0xc3 ∷ 0xa9 ∷ []) 1 ≡ none
unfolding program
inside_char = refl

byte_offset_to_lsp_position-Splits_example :
    ((length text < 6)
      × (byte_offset_to_lsp_position ascii text 6
          ≡ some (err (record { offset = 6; length = length text }))))
    ⊎ ((before : Bytes) × (prefix : Bytes) × (rest : Bytes) × Splits text 6 before prefix rest
        × (byte_offset_to_lsp_position ascii text 6 ≡ (
            if is_char_boundary (prefix ++ rest) (length prefix)
            then some (ok (position_of ascii before prefix))
            else none)))
byte_offset_to_lsp_position-Splits_example = byte_offset_to_lsp_position-Splits ascii text 6

text-Splits : Splits text 6 (codes "ab\r\n") (codes "cd") (codes "e\n" ++ [])
unfolding program
text-Splits = (refl, refl, inr (codes "ab\r", refl), refl)

one_line : newlines (codes "ab\r\n") < 2 ^ 32
unfolding program
one_line = omega arith

e_within : newlines (codes "e") ≡ 0
unfolding program
e_within = refl

lsp_position_to_byte_offset-byte_offset_to_lsp_position_example :
    (pos : Position) × (byte_offset_to_lsp_position ascii text 6 ≡ some (ok pos))
    × (lsp_position_to_byte_offset ascii text pos ≡ ok 6)
lsp_position_to_byte_offset-byte_offset_to_lsp_position_example =
    lsp_position_to_byte_offset-byte_offset_to_lsp_position ascii text 6 (codes "ab\r\n")
      (codes "cd") (codes "e\n") [] text-Splits (inr (codes "e", refl, e_within))
      (unfold program in (refl, omega arith)) one_line (omega arith)
