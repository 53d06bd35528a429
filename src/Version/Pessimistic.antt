-- ===== src/Version/Pessimistic.antt =====
-- The operator `~>` of crates/tfls-core/src/version_constraint.rs, against the range that its
-- documentation gives.
use terraform_ls_rs.Base.{
  ◌+◌, ◌≤◌, all, ◌&&◌, some, List, [], ◌∷◌, ◌≡◌, ◌≢◌, Ordering, Bytes, Option-cases, inl, inr,
  arith,
}
use terraform_ls_rs.Base.Order.{cmp_list}
use terraform_ls_rs.Version.Constraint.{ConstraintOp, gte, lt, pessimistic, Constraint, Range}
use terraform_ls_rs.Version.Key.{VersionKey, cmp_segment, cmp_key, version_key, PreSegment}
use terraform_ls_rs.Version.Satisfy.{
  op_matches, pessimistic_matches, pessimistic_key, within_segments, pre_excluded, segments,
  satisfies_key, satisfies_one, satisfies_all, satisfies_all_key,
}

abbrev pub constraint : ConstraintOp → Bytes → Range → Constraint
constraint op version span = record { op = op; version = version; span = span }

-- The first version past the range of `~> A.B.C`, and past that of `~> A.B`.
abbrev pub next_minor : VersionKey → VersionKey
next_minor k = record { major = k.major; minor = k.minor + 1; patch = 0; stability = 1; pre = [] }

abbrev pub next_major : VersionKey → VersionKey
next_major k = record { major = k.major + 1; minor = 0; patch = 0; stability = 1; pre = [] }

nil_least : (xs : List PreSegment) → cmp_list cmp_segment xs [] ≢ Ordering.lt
unfolding cmp_list
nil_least [] h = ground arith
nil_least (x ∷ xs) h = ground arith

version_key-stability : (v : Bytes) (k : VersionKey) → version_key v ≡ some k → k.stability ≤ 1
unfolding version_key
version_key-stability v k h = ground arith

module _ (version upper : Bytes) (k ck : VersionKey) (stable : ck.stability ≡ 1)
    (bounded : k.stability ≤ 1) (e : version_key version ≡ some ck) where
  two_segments :
      segments version ≡ 2
      → op_matches pessimistic version k ck
        ≡ (op_matches gte version k ck && op_matches lt upper k (next_major ck))
  unfolding op_matches pessimistic_matches pessimistic_key within_segments pre_excluded cmp_key
  two_segments s = ground (arith, nil_least k.pre) steps 10000000

-- Where the two lists agree at every key with a bounded stability, they admit the same versions.
satisfies_all_congr :
    (xs ys : List Constraint)
    → ((k : VersionKey)
        → k.stability ≤ 1
        → all (λ c. satisfies_one c k) xs ≡ all (λ c. satisfies_one c k) ys)
    → (candidate : Bytes) → satisfies_all xs candidate ≡ satisfies_all ys candidate
unfolding satisfies_all satisfies_all_key
satisfies_all_congr xs ys agree candidate = elim (Option-cases (version_key candidate)) [
  | inl bad ↦ rw bad
  | inr (k, e) ↦ rw e (agree k (version_key-stability candidate k e))
]

module _ (version upper candidate : Bytes) (span : Range) (ck : VersionKey)
    (e : version_key version ≡ some ck) (stable : ck.stability ≡ 1) where
  -- `~> A.B` (no pre-release) admits exactly the versions that `>= A.B, < (A+1).0` admits.
  pub pessimistic-major_range :
      segments version ≡ 2
      → version_key upper ≡ some (next_major ck)
      → satisfies_all (constraint pessimistic version span ∷ []) candidate
        ≡ satisfies_all (constraint gte version span ∷ constraint lt upper span ∷ []) candidate
  unfolding satisfies_one satisfies_key
  pessimistic-major_range two u =
      satisfies_all_congr (constraint pessimistic version span ∷ [])
        (constraint gte version span ∷ constraint lt upper span ∷ [])
        (λ k bounded. ground (arith, e, u, two_segments version upper k ck stable bounded e two))
        candidate
