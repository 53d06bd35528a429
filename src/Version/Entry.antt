-- ===== src/Version/Entry.antt =====
-- One constraint written out, and how `parse_piece` of
-- crates/tfls-core/src/version_constraint.rs reads it.
use mathlib.Core.List.{reverse}
use terraform_ls_rs.Base.{
  ℕ, ◌+◌, ◌-◌, Bool, true, false, not, some, List, [], ◌∷◌, ◌++◌, append-nil, append_assoc, ◌≡◌,
  refl, ap, ◌∙◌, subst, ◌==◌, ok, Bytes, length, all, is_empty, length-append, is_ascii_whitespace,
  is_ascii_digit, count_while, before, split, extend_first, trim_end, Bool-cases, inl, inr, arith,
}
use terraform_ls_rs.Base.Scan.{trim_end-solid, count_while-append}
use terraform_ls_rs.Version.Constraint.{Range, range, ConstraintOp, gte, token, Constraint}
use terraform_ls_rs.Version.Parse.{
  slice, detect_operator, check_parts, validate_version, checked_constraint, parse_content,
  parse_piece,
}
use terraform_ls_rs.Version.Pieces.{slice_middle}

-- A version that can be written in a list: valid, with no comma, no whitespace at its end.
pub record IsPlain (v : Bytes) : Type 0 where
  pub valid : validate_version v ≡ ok tt
  pub comma_free : all (λ b. not (b == b',')) v ≡ true
  pub trimmed : trim_end v ≡ v

abbrev pub Entry : Type 0
Entry = ConstraintOp × Bytes

-- `~> 1.2.3`
unfoldable pub entry : Entry → Bytes
entry (op, v) = token op ++ 32 ∷ v

-- `>= 1.0, < 2.0`
unfoldable pub written : Entry → List Entry → Bytes
written c [] = entry c
written c (d ∷ cs) = entry c ++ b',' ∷ 32 ∷ written d cs

abbrev pub entry_of : Constraint → Entry
entry_of c = (c.op, c.version)

-- A core that is accepted begins with a digit.
check_parts-digit :
    (b : ℕ) (s : Bytes) → check_parts (split b'.' (b ∷ s)) ≡ ok tt → is_ascii_digit b ≡ true
unfolding split check_parts
check_parts-digit b s h = elim (Bool-cases (b == b'.')) [
  | inl dot ↦ absurd (cc (rw dot at h))
  | inr other ↦ first_part (split b'.' s) (rw other at h)
]
  where
    first_part :
        (ps : List Bytes) → check_parts (extend_first b ps) ≡ ok tt → is_ascii_digit b ≡ true
    first_part [] k = ground arith
    first_part (p ∷ ps) k = ground arith

-- A valid version begins with a digit.
valid-digit :
    (v : Bytes)
    → validate_version v ≡ ok tt
    → (b : ℕ) × (s : Bytes) × (v ≡ b ∷ s) × (is_ascii_digit b ≡ true)
unfolding validate_version
valid-digit [] h = absurd (cc)
valid-digit (b ∷ s) h = (b, s, refl, digit)
  where
    core : (plus minus : Bool) → (b == b'+') ≡ plus → (b == b'-') ≡ minus → is_ascii_digit b ≡ true
    core true minus e f = absurd (cc (rw e at h))
    core false true e f = absurd (cc (rw (e, f) at h))
    core false false e f = check_parts-digit b (before b'-' (before b'+' s)) (rw (e, f) at h)

    digit : is_ascii_digit b ≡ true
    digit = core (b == b'+') (b == b'-') refl refl

digit_solid : (b : ℕ) → is_ascii_digit b ≡ true → is_ascii_whitespace b ≡ false
digit_solid b h = ground arith

blanks-valid : (v : Bytes) → validate_version v ≡ ok tt → count_while is_ascii_whitespace v ≡ 0
unfolding count_while
blanks-valid v h = let (b, s, e, digit) = valid-digit v h in rw e (rw (digit_solid b digit))

valid-nonempty : (v : Bytes) → validate_version v ≡ ok tt → is_empty v ≡ false
valid-nonempty v h = let (b, s, e, digit) = valid-digit v h in rw e

-- The constraint that is read from an entry at byte `start`: its span is the whole entry.
abbrev pub read_at : ℕ → Entry → Constraint
read_at start (op, v) = record {
  op = op;
  version = v;
  span = range start (start + (length (token op) + 1) + length v);
}

-- The rest of `parse_piece` on an operator, one space and a plain version.
parse_content-entry :
    (span : Range) (op : ConstraintOp) (v : Bytes) (start : ℕ)
    → IsPlain v
    → parse_content span (entry (op, v)) start ≡ ok (read_at start (op, v))
unfolding entry token parse_content detect_operator count_while checked_constraint
parse_content-entry span gte v start plain =
    rw (blanks-valid v plain.valid, plain.trimmed, valid-nonempty v plain.valid, plain.valid)
parse_content-entry span op v start plain =
    rw (blanks-valid v plain.valid, plain.trimmed, valid-nonempty v plain.valid, plain.valid)

-- An entry has no whitespace at either end.
entry-solid_front : (e : Entry) → count_while is_ascii_whitespace (entry e) ≡ 0
unfolding entry token count_while
entry-solid_front (gte, v) = refl
entry-solid_front (op, v) = refl

entry-solid_back :
    (pad : Bytes) (op : ConstraintOp) (v : Bytes)
    → IsPlain v
    → count_while is_ascii_whitespace (reverse (pad ++ entry (op, v))) ≡ 0
unfolding entry
entry-solid_back pad op v plain =
    let (b, s, e, digit) = valid-digit v plain.valid in
    let regroup : pad ++ (token op ++ 32 ∷ v) ≡ (pad ++ token op ++ 32 ∷ []) ++ v =
      simp append_assoc in
    rw regroup
      (trim_end-solid (pad ++ token op ++ 32 ∷ []) v (omega (arith, ap length e)) plain.trimmed)

slice_suffix : (pad x : Bytes) → slice (pad ++ x) (length pad) (length (pad ++ x) - 0) ≡ some x
slice_suffix pad x =
    subst (λ (t : Bytes). slice (pad ++ t) (length pad) (length (pad ++ x) - 0) ≡ some x)
      (append-nil x)
      (slice_middle pad x [] (length pad) (length (pad ++ x) - 0) refl
        (omega (arith, length-append pad x)))

-- `parse_piece` on an entry behind whitespace.
pub parse_piece-entry :
    (source pad : Bytes) (span : Range) (op : ConstraintOp) (v : Bytes)
    → all is_ascii_whitespace pad ≡ true
    → IsPlain v
    → slice source span.start span.end ≡ some (pad ++ entry (op, v))
    → parse_piece source span ≡ some (ok (read_at (span.start + length pad) (op, v)))
unfolding parse_piece
parse_piece-entry source pad span op v blank plain e =
    let front : count_while is_ascii_whitespace (pad ++ entry (op, v)) ≡ length pad =
      count_while-append is_ascii_whitespace pad (entry (op, v)) blank
      ∙ omega (arith, entry-solid_front (op, v)) in
    rw (e, front, entry-solid_back pad op v plain, slice_suffix pad (entry (op, v)))
      (ap some (parse_content-entry span op v (span.start + length pad) plain))
