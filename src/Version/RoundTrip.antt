-- ===== src/Version/RoundTrip.antt =====
-- Writing constraints out and reading them back with `parse`,
-- crates/tfls-core/src/version_constraint.rs.
use terraform_ls_rs.Base.{
  ◌+◌, true, not, Option, some, List, [], ◌∷◌, ◌++◌, map, append_assoc, ◌≡◌, refl, sym, ap, ◌∙◌,
  ◌==◌, ok, Bytes, length, all, All, is_ascii_whitespace, split, &&_iff, arith,
}
use terraform_ls_rs.Base.Scan.{all-append}
use terraform_ls_rs.Version.Constraint.{Range, ConstraintOp, gte, token, Parsed}
use terraform_ls_rs.Version.Parse.{slice, split_commas, collect, parse_pieces, parse}
use terraform_ls_rs.Version.Pieces.{sliced, sliced-split_commas}
use terraform_ls_rs.Version.Entry.{
  IsPlain, Entry, entry, written, entry_of, read_at, parse_piece-entry,
}

comma_free-entry :
    (op : ConstraintOp) (v : Bytes) → IsPlain v → all (λ b. not (b == b',')) (entry (op, v)) ≡ true
unfolding entry token
comma_free-entry gte v plain = plain.comma_free
comma_free-entry op v plain = plain.comma_free

split-comma_free : (s : Bytes) → all (λ b. not (b == b',')) s ≡ true → split b',' s ≡ s ∷ []
unfolding split
split-comma_free [] h = refl
split-comma_free (b ∷ s) h = ground (arith, split-comma_free s)

split-comma :
    (s t : Bytes)
    → all (λ b. not (b == b',')) s ≡ true
    → split b',' (s ++ b',' ∷ t) ≡ s ∷ split b',' t
unfolding split
split-comma [] t h = refl
split-comma (b ∷ s) t h = ground (arith, split-comma s t)

comma_free_behind :
    (pad : Bytes) (op : ConstraintOp) (v : Bytes)
    → all (λ b. not (b == b',')) pad ≡ true
    → IsPlain v
    → all (λ b. not (b == b',')) (pad ++ entry (op, v)) ≡ true
comma_free_behind pad op v blank plain =
    all-append (λ b. not (b == b',')) pad (entry (op, v))
    ∙ (&&_iff _ _).1 (blank, comma_free-entry op v plain)

-- The pieces of a written list: every entry but the first has a space in front.
abbrev spaced : List Entry → List Bytes
spaced [] = []
spaced (c ∷ cs) = (32 ∷ entry c) ∷ spaced cs

split-written :
    (pad : Bytes) (op : ConstraintOp) (v : Bytes) (cs : List Entry)
    → all (λ b. not (b == b',')) pad ≡ true
    → IsPlain v
    → All (λ e. IsPlain e.1) cs
    → split b',' (pad ++ written (op, v) cs) ≡ (pad ++ entry (op, v)) ∷ spaced cs
unfolding written
split-written pad op v [] blank plain plains =
    split-comma_free (pad ++ entry (op, v)) (comma_free_behind pad op v blank plain)
split-written pad op v ((op', v') ∷ cs) blank plain plains =
    ap (split b',') (sym (append_assoc pad (entry (op, v)) _))
    ∙ split-comma (pad ++ entry (op, v)) (32 ∷ written (op', v') cs)
        (comma_free_behind pad op v blank plain)
    ∙ ap (λ (l : List Bytes). (pad ++ entry (op, v)) ∷ l)
        (split-written (32 ∷ []) op' v' cs refl plains.0 plains.1)

-- What was read holds exactly the entries, in order, and no error.
abbrev IsRead : List Entry → Option Parsed → Type 0
IsRead cs o = (p : Parsed) × (o ≡ some p) × (map entry_of p.constraints ≡ cs) × (p.errors ≡ [])

parse_pieces-cons :
    (source pad : Bytes) (span : Range) (spans : List Range) (op : ConstraintOp) (v : Bytes)
    (cs : List Entry)
    → all is_ascii_whitespace pad ≡ true
    → IsPlain v
    → slice source span.start span.end ≡ some (pad ++ entry (op, v))
    → IsRead cs (parse_pieces source spans)
    → IsRead ((op, v) ∷ cs) (parse_pieces source (span ∷ spans))
unfolding parse_pieces
parse_pieces-cons source pad span spans op v cs blank plain e (p, good, same, clean) = (
  collect (ok (read_at (span.start + length pad) (op, v))) p,
  rw (parse_piece-entry source pad span op v blank plain e, good),
  ap (λ (l : List Entry). (op, v) ∷ l) same,
  clean,
)

parse_pieces-spaced :
    (source : Bytes) (spans : List Range) (cs : List Entry)
    → All (λ e. IsPlain e.1) cs
    → sliced source spans ≡ map some (spaced cs)
    → IsRead cs (parse_pieces source spans)
unfolding parse_pieces
parse_pieces-spaced source [] [] plains e =
    (record { constraints = []; errors = [] }, refl, refl, refl)
parse_pieces-spaced source [] (c ∷ cs) plains e = absurd (cc)
parse_pieces-spaced source (span ∷ spans) [] plains e = absurd (cc)
parse_pieces-spaced source (span ∷ spans) ((op, v) ∷ cs) plains e =
    parse_pieces-cons source (32 ∷ []) span spans op v cs refl plains.0 (cc)
      (parse_pieces-spaced source spans cs plains.1 (cc))

parse_pieces-written :
    (source : Bytes) (spans : List Range) (op : ConstraintOp) (v : Bytes) (cs : List Entry)
    → IsPlain v
    → All (λ e. IsPlain e.1) cs
    → sliced source spans ≡ map some (entry (op, v) ∷ spaced cs)
    → IsRead ((op, v) ∷ cs) (parse_pieces source spans)
parse_pieces-written source [] op v cs plain plains e = absurd (cc)
parse_pieces-written source (span ∷ spans) op v cs plain plains e =
    parse_pieces-cons source [] span spans op v cs refl plain (cc)
      (parse_pieces-spaced source spans cs plains (cc))

-- A list of constraints with valid, comma-free versions that no whitespace ends, written as
-- `op version, op version, ...`, parses to those operators and versions, in order, with no error.
pub parse-written :
    (op : ConstraintOp) (v : Bytes) (cs : List Entry)
    → IsPlain v
    → All (λ e. IsPlain e.1) cs
    → (p : Parsed) × (parse (written (op, v) cs) ≡ some p)
      × (map entry_of p.constraints ≡ (op, v) ∷ cs)
      × (p.errors ≡ [])
unfolding parse
parse-written op v cs plain plains =
    parse_pieces-written (written (op, v) cs) (split_commas (written (op, v) cs)) op v cs plain
      plains
      (sliced-split_commas (written (op, v) cs)
        ∙ ap (map some) (split-written [] op v cs refl plain plains))
