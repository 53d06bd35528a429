-- ===== src/Keys/Extract.antt =====
-- `extract_top_level_keys` of crates/tfls-diag/src/map_duplicate_keys.rs, and its caller's loop over
-- the keys. The depth is an `i32`, which a closing bracket takes below zero.
use terraform_ls_rs.Base.{
  ℕ, zero, suc, ◌+◌, min, Bool, true, false, not, ◌&&◌, ◌||◌, Option, none, some, List, [], ◌∷◌,
  ◌==◌, if◌then◌else◌, Bytes, bytes_eq, length, take, drop, any, is_ascii_alphanumeric,
  is_ascii_digit, count_while, starts_with, codes,
}
use terraform_ls_rs.Base.Int.{ℤ, pos, eq_ℤ, succ, pred}
use terraform_ls_rs.Keys.Quoted.{read_string}
use terraform_ls_rs.Keys.Heredoc.{is_ident_continue, skip_heredoc}

-- A key with the range of its bytes.
pub record Key : Type 0 where
  pub name : Bytes
  pub start : ℕ
  pub end : ℕ

abbrev pub is_ident_start : ℕ → Bool
is_ident_start b = is_ascii_alphanumeric b && not (is_ascii_digit b) || b == b'_'

-- What the loop does at a byte: it steps over at least one byte, with the depth and the key position
-- after it, and may find a key that ends some bytes on.
pub data Turn : Type 0 where
  step : ℕ → ℤ → Bool → Turn
  key : ℕ → ℤ → Bytes → ℕ → Turn
  stop : Turn

-- The bytes of a block comment's body before `*/`, or before the last byte.
unfoldable pub comment_body : Bytes → ℕ
comment_body [] = 0
comment_body (b ∷ []) = 0
comment_body (b ∷ c ∷ s) =
    let on = comment_body (c ∷ s) in if b == b'*' && c == b'/' then 0 else suc on

abbrev pub is_gap : ℕ → Bool
is_gap b = b == b' ' || b == b'\t'

abbrev pub follows_key : Bytes → Bool
follows_key [] = false
follows_key (b ∷ s) = b == b'=' || b == b':'

-- After the text of a possible key, of `n` bytes: blanks, and then `=` or `:`.
unfoldable pub possible_key : ℤ → Bytes → ℕ → Bytes → Turn
unfolding count_while
possible_key depth name n s =
    let j = n + count_while is_gap (drop n s) in
    if follows_key (drop j s) then key j depth name n else step j depth true

unfoldable pub quoted_key : ℤ → Bytes → Option (ℕ × Bytes) → Turn
unfolding possible_key
quoted_key depth s none = stop
quoted_key depth s (some (n, content)) = possible_key depth content n s

unfoldable pub quoted_value : ℤ → Bool → Option (ℕ × Bytes) → Turn
quoted_value depth at_key none = stop
quoted_value depth at_key (some (n, content)) = step n depth at_key

unfoldable pub heredoc_value : ℤ → Option ℕ → Turn
heredoc_value depth none = step 1 depth false
heredoc_value depth (some n) = step n depth true

-- The arms of the `match` from the string on.
unfoldable pub word_turn : ℤ → Bool → ℕ → Bytes → Turn
unfolding quoted_key quoted_value heredoc_value read_string skip_heredoc starts_with possible_key
    count_while
word_turn depth at_key b s =
    if b == b'"'
    then (if eq_ℤ depth 1 && at_key
        then quoted_key depth (b ∷ s) (read_string (b ∷ s))
        else quoted_value depth at_key (read_string (b ∷ s)))
    else if b == b'<' && starts_with s (codes "<")
    then heredoc_value depth (skip_heredoc (b ∷ s))
    else if is_ident_start b && eq_ℤ depth 1 && at_key
    then possible_key depth (take (count_while is_ident_continue (b ∷ s)) (b ∷ s))
        (count_while is_ident_continue (b ∷ s)) (b ∷ s)
    else if b == b' ' || b == b'\t' || b == b'\r'
    then step 1 depth at_key
    else step 1 depth false

-- The arms of the comments.
unfoldable pub comment_turn : ℤ → Bool → ℕ → Bytes → Turn
unfolding word_turn comment_body starts_with count_while
comment_turn depth at_key b s =
    if b == b'#' || b == b'/' && starts_with s (codes "/")
    then step (count_while (λ c. not (c == b'\n')) (b ∷ s)) depth at_key
    else if b == b'/' && starts_with s (codes "*")
    then step (min (comment_body (drop 1 s) + 4) (length s + 1)) depth at_key
    else word_turn depth at_key b s

-- The `match` on one byte.
unfoldable pub turn : ℤ → Bool → ℕ → Bytes → Turn
unfolding comment_turn
turn depth at_key b s =
    if b == b'{'
    then step 1 (succ depth) (at_key || eq_ℤ (succ depth) 1)
    else if b == b'}'
    then (if eq_ℤ (pred depth) 0 then stop else step 1 (pred depth) at_key)
    else if b == b'(' || b == b'['
    then step 1 (succ depth) at_key
    else if b == b')' || b == b']'
    then step 1 (pred depth) at_key
    else if (b == b',' || b == b'\n') && eq_ℤ depth 1
    then step 1 depth true
    else comment_turn depth at_key b s

abbrev pub push_key : Key → Option (List Key) → Option (List Key)
push_key k none = none
push_key k (some keys) = some (k ∷ keys)

-- The turn is done at the byte `i`; `none` is that the fuel ran out.
abbrev pub take_turn :
    Turn → ℕ → Bytes → (ℕ → ℤ → Bool → Bytes → Option (List Key)) → Option (List Key)
take_turn (step n depth at_key) i s loop = loop (i + n) depth at_key (drop n s)
take_turn (key n depth name len) i s loop =
    push_key (record { name = name; start = i; end = i + len })
      (loop (i + n) depth false (drop n s))
take_turn stop i s loop = some []

unfoldable pub keys_from : ℕ → ℕ → ℤ → Bool → Bytes → Option (List Key)
unfolding turn
keys_from zero i depth at_key s = none
keys_from (suc fuel) i depth at_key [] = some []
keys_from (suc fuel) i depth at_key (b ∷ s) =
    take_turn (turn depth at_key b s) i (b ∷ s) (keys_from fuel)

unfoldable pub extract_top_level_keys : Bytes → ℕ → Option (List Key)
unfolding keys_from starts_with
extract_top_level_keys slice slice_base =
    if starts_with slice (codes "{")
    then keys_from (length slice + 1) slice_base (pos 0) false slice
    else some []

-- The keys that repeat the name of an earlier one; `seen` is the names of the map.
unfoldable pub duplicates : List Bytes → List Key → List Key
unfolding bytes_eq
duplicates seen [] = []
duplicates seen (k ∷ keys) =
    let new = duplicates (k.name ∷ seen) keys in
    let old = duplicates seen keys in if any (bytes_eq k.name) seen then k ∷ old else new
