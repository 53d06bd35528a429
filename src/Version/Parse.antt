-- ===== src/Version/Parse.antt =====
-- `parse` and its helpers, crates/tfls-core/src/version_constraint.rs. Text is its UTF-8 bytes.
-- A slice with its ends in the wrong order or out of range panics: `none`.
use mathlib.Core.List.{reverse}
use terraform_ls_rs.Base.{
  ℕ, ◌+◌, ◌-◌, max, Bool, false, not, ◌&&◌, ◌||◌, Option, none, some, List, [], ◌∷◌, ◌==◌, leb,
  if◌then◌else◌, Result, ok, err, ◌>>=◌, Bytes, codes, length, take, drop, all, is_empty,
  is_ascii_whitespace, is_ascii_digit, is_ascii_alphanumeric, count_while, starts_with, before,
  split, trim_end,
}
use terraform_ls_rs.Version.Constraint.{
  Range, range, ConstraintOp, eq, ne, gt, gte, lt, lte, pessimistic, Constraint, VersionFault,
  empty, missing_numeric_core, empty_segment, not_numeric, empty_constraint, unknown_operator,
  missing_version, malformed_version, ConstraintError, Parsed,
}

-- `&s[a..b]`.
abbrev pub slice : Bytes → ℕ → ℕ → Option Bytes
slice s a b = if leb a b && leb b (length s) then some (take (b - a) (drop a s)) else none

-- The loop of `split_commas` at byte `i`, where the current piece began at `start`.
unfoldable pub split_commas_from : ℕ → ℕ → Bytes → List Range
split_commas_from i start [] = range start i ∷ []
split_commas_from i start (b ∷ s) =
    let cut = split_commas_from (i + 1) (i + 1) s in
    let on = split_commas_from (i + 1) start s in if b == b',' then range start i ∷ cut else on

unfoldable pub split_commas : Bytes → List Range
unfolding split_commas_from
split_commas input = split_commas_from 0 0 input

-- Longest tokens first; no operator is `=` with no byte consumed.
unfoldable pub detect_operator : Bytes → ConstraintOp × ℕ
unfolding starts_with
detect_operator s =
    if starts_with s (codes "~>")
    then (pessimistic, 2)
    else if starts_with s (codes ">=")
    then (gte, 2)
    else if starts_with s (codes "<=")
    then (lte, 2)
    else if starts_with s (codes "!=")
    then (ne, 2)
    else if starts_with s (codes ">")
    then (gt, 1)
    else if starts_with s (codes "<")
    then (lt, 1)
    else if starts_with s (codes "=")
    then (eq, 1)
    else (eq, 0)

unfoldable pub starts_with_operator_char : Bytes → Bool
starts_with_operator_char [] = false
starts_with_operator_char (b ∷ s) =
    b == b'='
    || b == b'!'
    || b == b'<'
    || b == b'>'
    || b == b'~'
    || b == b'^'
    || b == b'&'
    || b == b'|'
    || b == b'+'

unfoldable pub non_version_prefix_len : Bytes → ℕ
unfolding count_while
non_version_prefix_len s =
    max (count_while (λ b. not (is_ascii_alphanumeric b) && not (is_ascii_whitespace b)) s) 1

-- The loop over the dot-separated parts of the numeric core.
unfoldable pub check_parts : List Bytes → Result (Unit {0}) VersionFault
check_parts [] = ok tt
check_parts (part ∷ parts) =
    if is_empty part
    then err empty_segment
    else if not (all is_ascii_digit part)
    then err not_numeric
    else check_parts parts

unfoldable pub validate_version : Bytes → Result (Unit {0}) VersionFault
unfolding before split check_parts
validate_version s =
    let core = before b'-' (before b'+' s) in
    if is_empty s
    then err empty
    else if is_empty core
    then err missing_numeric_core
    else check_parts (split b'.' core)

-- The end of `parse_piece`, from the validation of the version on.
unfoldable pub checked_constraint :
    ConstraintOp
    → Bytes
    → ℕ
    → ℕ
    → Result (Unit {0}) VersionFault
    → Result Constraint ConstraintError
checked_constraint op version_text content_start version_abs_start (err fault) = err (record {
  span = range version_abs_start (version_abs_start + length version_text);
  message = malformed_version version_text fault;
})
checked_constraint op version_text content_start version_abs_start (ok _) = ok (record {
  op = op;
  version = version_text;
  span = range content_start (version_abs_start + length version_text);
})

-- `parse_piece` from the operator scan on, for a trimmed `content` that begins at `content_start`.
unfoldable pub parse_content : Range → Bytes → ℕ → Result Constraint ConstraintError
parse_content span content content_start =
    let (op, op_len) = detect_operator content in
    let after_op = drop op_len content in
    let version_start_rel = op_len + count_while is_ascii_whitespace after_op in
    let version_text = trim_end (drop version_start_rel content) in
    let version_abs_start = content_start + version_start_rel in
    if is_empty content
    then err (record { span = span; message = empty_constraint })
    else if op_len == 0 && starts_with_operator_char content
    then err (record {
      span = range content_start (content_start + non_version_prefix_len content);
      message = unknown_operator (take (non_version_prefix_len content) content);
    })
    else if is_empty version_text
    then err (record {
      span = range content_start (content_start + length content);
      message = missing_version op;
    })
    else checked_constraint op version_text content_start version_abs_start
        (validate_version version_text)

unfoldable pub parse_piece : Bytes → Range → Option (Result Constraint ConstraintError)
parse_piece source span = do
  raw ← slice source span.start span.end
  let trimmed_start = count_while is_ascii_whitespace raw
  let trimmed_end_rev = count_while is_ascii_whitespace (reverse raw)
  content ← slice raw trimmed_start (length raw - trimmed_end_rev)
  some (parse_content span content (span.start + trimmed_start))

-- One turn of the loop of `parse`: the result joins the constraints or the errors.
abbrev pub collect : Result Constraint ConstraintError → Parsed → Parsed
collect (ok c) p = record p { constraints = c ∷ p.constraints }
collect (err e) p = record p { errors = e ∷ p.errors }

unfoldable pub parse_pieces : Bytes → List Range → Option Parsed
unfolding parse_piece
parse_pieces input [] = some (record { constraints = []; errors = [] })
parse_pieces input (piece ∷ pieces) = do
  r ← parse_piece input piece
  p ← parse_pieces input pieces
  some (collect r p)

unfoldable pub parse : Bytes → Option Parsed
unfolding split_commas parse_pieces parse_content detect_operator count_while trim_end
    starts_with_operator_char non_version_prefix_len validate_version checked_constraint
parse input = parse_pieces input (split_commas input)
