-- ===== src/Keys/Heredoc.antt =====
-- `skip_heredoc` of crates/tfls-diag/src/map_duplicate_keys.rs, on the text from `<<` on.
use mathlib.Core.List.{reverse}
use terraform_ls_rs.Base.{
  ℕ, ◌+◌, Bool, ◌||◌, Option, none, some, List, [], ◌∷◌, ◌==◌, if◌then◌else◌, Bytes, bytes_eq,
  length, take, drop, is_ascii_alphanumeric, count_while, drop_while, split, starts_with,
}

abbrev pub is_ident_continue : ℕ → Bool
is_ident_continue b = is_ascii_alphanumeric b || b == b'_' || b == b'-'

abbrev is_blank : ℕ → Bool
is_blank b = b == b' ' || b == b'\t'

abbrev pub is_blank_or_return : ℕ → Bool
is_blank_or_return b = b == b' ' || b == b'\t' || b == b'\r'

-- A line without the blanks at its two ends.
unfoldable pub trimmed_line : Bytes → Bytes
unfolding drop_while
trimmed_line line = reverse (drop_while is_blank_or_return (reverse (drop_while is_blank line)))

-- The lines of the body: the number of bytes after the one that is the terminator.
unfoldable pub terminator_end : ℕ → Bytes → List Bytes → Option ℕ
unfolding trimmed_line bytes_eq
terminator_end offset terminator [] = none
terminator_end offset terminator (line ∷ []) =
    if bytes_eq (trimmed_line line) terminator then some (offset + length line) else none
terminator_end offset terminator (line ∷ next ∷ lines) =
    let on = terminator_end (offset + length line + 1) terminator (next ∷ lines) in
    if bytes_eq (trimmed_line line) terminator then some (offset + length line + 1) else on

-- The body, which begins after a line break.
unfoldable pub heredoc_body : ℕ → Bytes → Bytes → Option ℕ
unfolding terminator_end split
heredoc_body offset terminator [] = none
heredoc_body offset terminator (b ∷ body) =
    if b == b'\n' then terminator_end (offset + 1) terminator (split b'\n' body) else none

-- From the identifier on, which begins at the byte `ident_start`.
unfoldable pub heredoc_at : ℕ → Bytes → Option ℕ
unfolding heredoc_body count_while
heredoc_at ident_start s =
    let n = count_while is_ident_continue s in
    let blanks = count_while is_blank_or_return (drop n s) in
    if n == 0
    then none
    else heredoc_body (ident_start + n + blanks) (take n s) (drop (n + blanks) s)

unfoldable pub skip_heredoc : Bytes → Option ℕ
unfolding heredoc_at starts_with
skip_heredoc s =
    if starts_with (drop 2 s) (b'-' ∷ []) then heredoc_at 3 (drop 3 s) else heredoc_at 2 (drop 2 s)
