-- ===== src/Version/Panics.antt =====
-- When `parse` of crates/tfls-core/src/version_constraint.rs returns, and what it accounts for.
use mathlib.Core.List.{reverse}
use terraform_ls_rs.Base.{
  ℕ, suc, ◌+◌, ◌-◌, ◌≤◌, ◌<◌, Bool, true, not, ◌&&◌, Option, none, some, List, [], ◌∷◌, map, ◌≡◌,
  ◌∙◌, ◌↔◌, inl, inr, Result, ok, err, Bytes, length, all, any, is_empty, is_ascii_whitespace,
  count_while, split, Bool-cases, Option-cases, arith,
}
use terraform_ls_rs.Base.Scan.{length-reverse, all-reverse, count_while-all, trims_overlap}
use terraform_ls_rs.Version.Constraint.{Range, Constraint, ConstraintError, Parsed}
use terraform_ls_rs.Version.Parse.{slice, split_commas, parse_piece, collect, parse_pieces, parse}
use terraform_ls_rs.Version.Pieces.{sliced, sliced-split_commas}

-- A piece that is not empty and holds only ASCII whitespace.
abbrev pub is_blank : Bytes → Bool
is_blank raw = not (is_empty raw) && all is_ascii_whitespace raw

slice-none_iff : (s : Bytes) (a b : ℕ) → b ≤ length s → (slice s a b ≡ none) ↔ (b < a)
slice-none_iff s a b h = ground arith

-- The second slice of `parse_piece`, which takes the whitespace off both ends.
abbrev trimmed : Bytes → Option Bytes
trimmed raw =
    slice raw (count_while is_ascii_whitespace raw)
      (length raw - count_while is_ascii_whitespace (reverse raw))

trimmed-none_iff : (raw : Bytes) → (trimmed raw ≡ none) ↔ (is_blank raw ≡ true)
trimmed-none_iff raw = elim (Bool-cases (all is_ascii_whitespace raw)) [
  | inl blank ↦
      let n = count_while-all is_ascii_whitespace raw blank in
      let m =
        count_while-all is_ascii_whitespace (reverse raw)
          (all-reverse is_ascii_whitespace raw ∙ blank) in
      blank_case raw n m blank
  | inr solid ↦
      let few = trims_overlap is_ascii_whitespace raw solid in
      let halves =
        slice-none_iff raw (count_while is_ascii_whitespace raw)
          (length raw - count_while is_ascii_whitespace (reverse raw)) (omega arith) in
      (λ e. absurd (omega (arith, halves.0 e)), λ b. absurd (ground (arith, solid)))
]
  where
    blank_case :
        (s : Bytes)
        → count_while is_ascii_whitespace s ≡ length s
        → count_while is_ascii_whitespace (reverse s) ≡ length (reverse s)
        → all is_ascii_whitespace s ≡ true
        → (trimmed s ≡ none) ↔ (is_blank s ≡ true)
    blank_case [] n m h = (
      λ e. absurd (
          omega (
            arith,
            (slice-none_iff [] (count_while is_ascii_whitespace [])
                  (0 - count_while is_ascii_whitespace []) (omega arith)).0
                e,
          )),
      λ b. cc,
    )
    blank_case (b ∷ s) n m h = (
      λ _. h,
      λ _.
          (slice-none_iff (b ∷ s) (count_while is_ascii_whitespace (b ∷ s))
              (length (b ∷ s) - count_while is_ascii_whitespace (reverse (b ∷ s))) (omega arith)).1
            (omega (arith, length-reverse (b ∷ s))),
    )

parse_piece-none_iff :
    (source raw : Bytes) (span : Range)
    → slice source span.start span.end ≡ some raw
    → (parse_piece source span ≡ none) ↔ (is_blank raw ≡ true)
unfolding parse_piece
parse_piece-none_iff source raw span e = rw e (elim (Option-cases (trimmed raw)) [
  | inl bad ↦ (λ _. (trimmed-none_iff raw).0 bad, λ _. rw bad)
  | inr (content, good) ↦
      rw good (λ h. absurd (ground arith), λ h. absurd (ground (arith, (trimmed-none_iff raw).1 h)))
])

parse_pieces-none_iff :
    (input : Bytes) (pieces : List Range) (texts : List Bytes)
    → sliced input pieces ≡ map some texts
    → (parse_pieces input pieces ≡ none) ↔ (any is_blank texts ≡ true)
unfolding parse_pieces
parse_pieces-none_iff input [] [] e = (λ h. cc, λ h. cc)
parse_pieces-none_iff input [] (t ∷ ts) e = absurd (cc)
parse_pieces-none_iff input (r ∷ rs) [] e = absurd (cc)
parse_pieces-none_iff input (r ∷ rs) (t ∷ ts) e = ground (
  arith,
  parse_piece-none_iff input t r (ground arith),
  parse_pieces-none_iff input rs ts (ground arith),
)

-- `parse` panics exactly on the inputs that have a comma-separated piece which is not empty and
-- holds only ASCII whitespace.
pub parse-none_iff :
    (input : Bytes) → (parse input ≡ none) ↔ (any is_blank (split b',' input) ≡ true)
unfolding parse
parse-none_iff input =
    parse_pieces-none_iff input (split_commas input) (split b',' input) (sliced-split_commas input)

abbrev entries : Parsed → ℕ
entries p = length p.constraints + length p.errors

collect-entries :
    (r : Result Constraint ConstraintError) (q p : Parsed)
    → some (collect r q) ≡ some p
    → entries p ≡ suc (entries q)
collect-entries (ok c) q p h = let e : collect (ok c) q ≡ p = cc in rw (← e) (omega arith)
collect-entries (err x) q p h = let e : collect (err x) q ≡ p = cc in rw (← e) (omega arith)

parse_pieces-length :
    (input : Bytes) (pieces : List Range) (texts : List Bytes) (p : Parsed)
    → sliced input pieces ≡ map some texts
    → parse_pieces input pieces ≡ some p
    → length p.constraints + length p.errors ≡ length texts
unfolding parse_pieces
parse_pieces-length input [] [] p e h = ground arith
parse_pieces-length input [] (t ∷ ts) p e h = absurd (cc)
parse_pieces-length input (r ∷ rs) [] p e h = absurd (cc)
parse_pieces-length input (r ∷ rs) (t ∷ ts) p e h = elim (Option-cases (parse_piece input r)) [
  | inl bad ↦ absurd (cc (rw bad at h))
  | inr (x, found) ↦ elim (Option-cases (parse_pieces input rs)) [
    | inl bad ↦ absurd (cc (rw (found, bad) at h))
    | inr (q, good) ↦ omega (
      arith,
      collect-entries x q p (rw (found, good) at h),
      parse_pieces-length input rs ts q (ground arith) good,
    )
  ]
]

-- What `parse` returns has one entry for each comma-separated piece: a constraint or an error.
pub parse-length :
    (input : Bytes) (p : Parsed)
    → parse input ≡ some p
    → length p.constraints + length p.errors ≡ length (split b',' input)
unfolding parse
parse-length input p =
    parse_pieces-length input (split_commas input) (split b',' input) p (sliced-split_commas input)
