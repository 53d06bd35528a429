-- ===== src/Frames/Heredoc.antt =====
-- `parse_heredoc_opener` and `match_heredoc_closer`, crates/tfls-core/src/completion.rs, on the text
-- from the position on. A position that is returned is counted from there.
use terraform_ls_rs.Base.{
  ℕ, ◌+◌, Bool, true, false, not, ◌||◌, Option, none, some, ◌>>=◌, [], ◌∷◌, ◌==◌, if◌then◌else◌,
  Bytes, codes, is_ascii_alphanumeric, count_while, starts_with, take, drop, length,
}

abbrev pub is_tag_char : ℕ → Bool
is_tag_char c = is_ascii_alphanumeric c || c == b'_'

abbrev pub is_space : ℕ → Bool
is_space c = c == b' ' || c == b'\t'

-- The length of the line break at the start of the text, which may be its end.
unfoldable pub line_break : Bytes → Option ℕ
unfolding starts_with
line_break [] = some 0
line_break (c ∷ s) =
    if c == b'\n'
    then some 1
    else if c == b'\r'
    then some (if starts_with s (codes "\n") then 2 else 1)
    else none

-- The end of the line after `n` bytes, over white space.
unfoldable pub end_of_line : ℕ → Bytes → Option ℕ
unfolding line_break count_while
end_of_line n s =
    let blanks = count_while is_space s in
    line_break (drop blanks s) >>= (λ width. some (n + (blanks + width)))

-- The tag, whether the closer may be indented, and the position after the opener's line.
unfoldable pub opener_at : ℕ → Bool → Bytes → Option (Bytes × Bool × ℕ)
unfolding end_of_line count_while
opener_at n indented s =
    let width = count_while is_tag_char s in
    if width == 0
    then none
    else end_of_line (n + width) (drop width s) >>= (λ after. some (take width s, indented, after))

unfoldable pub parse_heredoc_opener : Bytes → Option (Bytes × Bool × ℕ)
unfolding opener_at starts_with
parse_heredoc_opener s =
    let tag_text = drop 2 s in
    if not (starts_with s (codes "<<"))
    then none
    else if starts_with tag_text (codes "-")
    then opener_at 3 true (drop 1 tag_text)
    else opener_at 2 false tag_text

-- `line_start` is whether the text begins a line.
unfoldable pub match_heredoc_closer : Bool → Bytes → Bytes → Bool → Option ℕ
unfolding end_of_line count_while starts_with
match_heredoc_closer line_start s tag indented =
    let blanks = if indented then count_while is_space s else 0 in
    let line = drop blanks s in
    if not line_start
    then none
    else if starts_with line tag
    then end_of_line (blanks + length tag) (drop (length tag) line)
    else none
