-- ===== src/Keys/Tests.antt =====
-- Runs of the model of duplicate keys, and the theorems at one object literal.
use terraform_ls_rs.Base.{
  some, List, [], ◌∷◌, ◌≡◌, ◌↔◌, refl, Bytes, bytes_eq, codes, count_while, drop_while, split,
  starts_with,
}
use terraform_ls_rs.Keys.Quoted.{
  action, interpolated, plain_byte, unescaped, string_loop, read_string,
}
use terraform_ls_rs.Keys.Heredoc.{
  trimmed_line, terminator_end, heredoc_body, heredoc_at, skip_heredoc,
}
use terraform_ls_rs.Keys.Extract.{
  Key, comment_body, possible_key, quoted_key, quoted_value, heredoc_value, word_turn, comment_turn,
  turn, keys_from, extract_top_level_keys, duplicates,
}
use terraform_ls_rs.Keys.Found.{Found, extract_top_level_keys-Found}
use terraform_ls_rs.Keys.Distinct.{IsDistinct, duplicates-nil_iff}

program : Unit {0}
unfolding action interpolated plain_byte unescaped string_loop read_string trimmed_line
    terminator_end heredoc_body heredoc_at skip_heredoc comment_body possible_key quoted_key
    quoted_value heredoc_value word_turn comment_turn turn keys_from extract_top_level_keys
    duplicates count_while drop_while split starts_with bytes_eq
program = tt

abbrev literal : Bytes
literal = codes "{ a = {b = 1}, \"x${f(\"}\")}\" = 2 # c = 3\n a : <<-E\n d = 4\n E\n}"

abbrev literal_keys : List Key
literal_keys =
    record { name = codes "a"; start = 12; end = 13 }
    ∷ record { name = codes "x${f(\"}\")}"; start = 25; end = 37 }
    ∷ record { name = codes "a"; start = 51; end = 52 }
    ∷ []

literal_extracted : extract_top_level_keys literal 10 ≡ some literal_keys
unfolding program
literal_extracted = refl

literal_duplicate :
    duplicates [] literal_keys ≡ record { name = codes "a"; start = 51; end = 52 } ∷ []
unfolding program
literal_duplicate = refl

-- A key outside ASCII: each of its two bytes becomes a character.
accented : read_string (34 ∷ 0xC3 ∷ 0xA9 ∷ 34 ∷ []) ≡ some (4, 0xC3 ∷ 0xA9 ∷ [])
unfolding program
accented = refl

extract_top_level_keys-Found_example :
    (keys : List Key) × (extract_top_level_keys literal 10 ≡ some keys) × Found literal 10 10 keys
extract_top_level_keys-Found_example = extract_top_level_keys-Found literal 10

duplicates-nil_iff_example : (duplicates [] literal_keys ≡ []) ↔ IsDistinct literal_keys
duplicates-nil_iff_example = duplicates-nil_iff literal_keys
