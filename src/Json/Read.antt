-- ===== src/Json/Read.antt =====
-- Literal values in the native syntax of HCL, as its specification describes them: what a reader of
-- the text that crates/tfls-parser/src/json.rs writes makes of it.
use terraform_ls_rs.Base.{
  ℕ, zero, suc, Bool, true, false, ◌&&◌, ◌||◌, Option, none, some, ◌>>=◌, [], ◌∷◌, ◌==◌,
  if◌then◌else◌, Bytes, codes, take, drop, is_ascii_digit, count_while, drop_while, starts_with,
}
use terraform_ls_rs.Json.Value.{
  Value, Elements, Members, null, bool, number, string, array, object, end_array, element,
  end_object, member,
}

-- Between the parts of a bracketed value line breaks are white space.
abbrev pub is_blank : ℕ → Bool
is_blank c = c == 32 || c == b'\t' || c == b'\n'

abbrev pub skip_blank : Bytes → Bytes
skip_blank s = drop_while is_blank s

abbrev pub is_numeral_char : ℕ → Bool
is_numeral_char c =
    is_ascii_digit c || c == b'-' || c == b'+' || c == b'.' || c == b'e' || c == b'E'

abbrev pub starts_numeral : Bytes → Bool
starts_numeral [] = false
starts_numeral (c ∷ s) = is_ascii_digit c || c == b'-'

abbrev pub unescape : ℕ → Option ℕ
unescape c =
    if c == b'n'
    then some 10
    else if c == b'r'
    then some 13
    else if c == b't'
    then some 9
    else if c == b'"' || c == b'\\'
    then some c
    else none

-- `${` and `%{` begin a template, which is no literal.
abbrev pub opens_template : ℕ → ℕ → Bool
opens_template c d = (c == b'$' || c == b'%') && d == b'{'

abbrev pub push_char : ℕ → Option (Bytes × Bytes) → Option (Bytes × Bytes)
push_char c none = none
push_char c (some (s, rest)) = some (c ∷ s, rest)

-- The contents of a quoted text, up to its closing quote, and what follows. A line break must be
-- escaped.
unfoldable pub read_quoted : Bytes → Option (Bytes × Bytes)
read_quoted [] = none
read_quoted (c ∷ []) = if c == b'"' then some ([], []) else none
read_quoted (c ∷ d ∷ s) =
    let plain = read_quoted (d ∷ s) in
    let escaped = read_quoted s in
    if c == b'"'
    then some ([], d ∷ s)
    else if c == b'\\'
    then unescape d >>= (λ e. push_char e escaped)
    else if c == b'\n' || opens_template c d
    then none
    else push_char c plain

abbrev pub expect : Bytes → Bytes → Option Bytes
expect token s = if starts_with s token then some (drop 1 s) else none

-- A comma stands before each element but the first.
abbrev pub expect_separator : Bool → Bytes → Option Bytes
expect_separator true s = some s
expect_separator false s = expect (codes ",") s

-- A line break or a comma ends a member; before the closing brace there need be none.
abbrev pub end_of_member : Bytes → Option Bytes
end_of_member s =
    if starts_with s (codes "\n") || starts_with s (codes ",")
    then some (drop 1 s)
    else if starts_with s (codes "}")
    then some s
    else none

unfoldable pub read_number : Bytes → Option (Value × Bytes)
unfolding count_while
read_number s =
    let n = count_while is_numeral_char s in
    if starts_numeral s then some (number (take n s), drop n s) else none

-- On fuel, of which each value, element and member takes one.
unfoldable mutual
  unfolding starts_with drop_while read_quoted read_number

  pub read_value : ℕ → Bytes → Option (Value × Bytes)
  read_value zero s = none
  read_value (suc fuel) s =
      let elements = read_elements fuel true (drop 1 s) in
      let members = read_members fuel (drop 1 s) in
      if starts_with s (codes "null")
      then some (null, drop 4 s)
      else if starts_with s (codes "true")
      then some (bool true, drop 4 s)
      else if starts_with s (codes "false")
      then some (bool false, drop 5 s)
      else if starts_with s (codes "\"")
      then read_quoted (drop 1 s) >>= (λ (text, rest). some (string text, rest))
      else if starts_with s (codes "[")
      then elements >>= (λ (xs, rest). some (array xs, rest))
      else if starts_with s (codes "{")
      then members >>= (λ (ms, rest). some (object ms, rest))
      else read_number s

  pub read_elements : ℕ → Bool → Bytes → Option (Elements × Bytes)
  read_elements zero first s = none
  read_elements (suc fuel) first s =
      let more = expect_separator first (skip_blank s) >>= (λ t.
        read_value fuel (skip_blank t)
        >>= (λ (v, u). read_elements fuel false u >>= (λ (xs, rest). some (element v xs, rest)))) in
      if starts_with (skip_blank s) (codes "]")
      then some (end_array, drop 1 (skip_blank s))
      else more

  pub read_members : ℕ → Bytes → Option (Members × Bytes)
  read_members zero s = none
  read_members (suc fuel) s =
      let more = expect (codes "\"") (skip_blank s) >>= (λ t. read_quoted t) >>= (λ (key, u).
        expect (codes "=") (skip_blank u) >>= (λ w. read_value fuel (skip_blank w) >>= (λ (v, x).
          end_of_member x
          >>= (λ y. read_members fuel y >>= (λ (ms, rest). some (member key v ms, rest)))))) in
      if starts_with (skip_blank s) (codes "}")
      then some (end_object, drop 1 (skip_blank s))
      else more

-- What is written is a literal: its texts begin no template, and its numbers are numerals.
abbrev pub starts_brace : Bytes → Bool
starts_brace [] = false
starts_brace (c ∷ s) = c == b'{'

unfoldable pub has_template : Bytes → Bool
has_template [] = false
has_template (c ∷ s) = (c == b'$' || c == b'%') && starts_brace s || has_template s
