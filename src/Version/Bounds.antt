-- ===== src/Version/Bounds.antt =====
-- `min_admitted_version` of crates/tfls-core/src/version_constraint.rs against `satisfies_all`.
use terraform_ls_rs.Base.{
  true, Option, none, some, List, [], ◌∷◌, ◌≡◌, refl, Bytes, All, all→All, Bool-cases, inl, inr,
  Option-cases, arith,
}
use terraform_ls_rs.Base.Order.{is_ge, is_lt}
use terraform_ls_rs.Version.Constraint.{
  ConstraintOp, eq, ne, gt, gte, lt, lte, pessimistic, Constraint,
}
use terraform_ls_rs.Version.Key.{VersionKey, cmp_key, version_key, compare_versions}
use terraform_ls_rs.Version.Satisfy.{
  op_matches, pessimistic_matches, pessimistic_key, satisfies_key, satisfies_one, satisfies_all,
  satisfies_all_key, is_lower_bound, better, improve, best_from, version_of, min_admitted_version,
  version_at_least,
}
use terraform_ls_rs.Version.Order.{cmp_key-IsTotalOrder, key_eq_iff}

-- A satisfied constraint whose operator bounds from below is met by a key not less than its own.
op_matches-is_ge :
    (op : ConstraintOp) (version : Bytes) (k ck : VersionKey)
    → version_key version ≡ some ck
    → is_lower_bound op ≡ true
    → op_matches op version k ck ≡ true
    → is_ge (cmp_key k ck) ≡ true
unfolding op_matches is_lower_bound pessimistic_matches pessimistic_key
op_matches-is_ge eq version k ck e low h =
    ground (arith, key_eq_iff k ck, cmp_key-IsTotalOrder.same k)
op_matches-is_ge gt version k ck e low h = ground arith
op_matches-is_ge gte version k ck e low h = ground arith
op_matches-is_ge pessimistic version k ck e low h = ground arith
op_matches-is_ge ne version k ck e low h = ground arith
op_matches-is_ge lt version k ck e low h = ground arith
op_matches-is_ge lte version k ck e low h = ground arith

-- The best bound so far is the key of its version, and `k` is not less.
abbrev AtMost : VersionKey → Option (Bytes × VersionKey) → Type 0
AtMost k none = Unit
AtMost k (some (v, key)) = (version_key v ≡ some key) × (is_ge (cmp_key k key) ≡ true)

better-AtMost :
    (k : VersionKey) (best : Option (Bytes × VersionKey)) (v : Bytes) (key : VersionKey)
    → AtMost k best
    → version_key v ≡ some key
    → is_ge (cmp_key k key) ≡ true
    → AtMost k (better best v key)
unfolding better
better-AtMost k none v key a e h = (e, h)
better-AtMost k (some (w, prev)) v key a e h = elim (Bool-cases (is_lt (cmp_key prev key))) [
  | inl up ↦ rw up (e, h)
  | inr stay ↦ rw stay a
]

improve-AtMost :
    (k : VersionKey) (best : Option (Bytes × VersionKey)) (c : Constraint) (o : Option VersionKey)
    → version_key c.version ≡ o
    → AtMost k best
    → satisfies_key c k o ≡ true
    → AtMost k (improve best c o)
unfolding improve satisfies_key
improve-AtMost k best c none e a h = a
improve-AtMost k best c (some key) e a h = elim (Bool-cases (is_lower_bound c.op)) [
  | inl low ↦
      rw low
        (better-AtMost k best c.version key a e (op_matches-is_ge c.op c.version k key e low h))
  | inr no_bound ↦ rw no_bound a
]

best_from-AtMost :
    (k : VersionKey) (best : Option (Bytes × VersionKey)) (cs : List Constraint)
    → AtMost k best
    → All (λ c. satisfies_one c k ≡ true) cs
    → AtMost k (best_from best cs)
unfolding best_from satisfies_one
best_from-AtMost k best [] a h = a
best_from-AtMost k best (c ∷ cs) a h =
    best_from-AtMost k (improve best c (version_key c.version)) cs
      (improve-AtMost k best c (version_key c.version) refl a h.0) h.1

at_least_of_AtMost :
    (candidate v : Bytes) (k : VersionKey) (best : Option (Bytes × VersionKey))
    → version_key candidate ≡ some k
    → version_of best ≡ some v
    → AtMost k best
    → version_at_least candidate v ≡ true
unfolding version_at_least compare_versions
at_least_of_AtMost candidate v k none e h a = ground arith
at_least_of_AtMost candidate v k (some (w, key)) e h a = ground arith

-- Every candidate that satisfies all the constraints is at least the version that
-- `min_admitted_version` returns.
pub satisfies_all-at_least_min :
    (cs : List Constraint) (candidate v : Bytes)
    → satisfies_all cs candidate ≡ true
    → min_admitted_version cs ≡ some v
    → version_at_least candidate v ≡ true
unfolding satisfies_all satisfies_all_key min_admitted_version
satisfies_all-at_least_min cs candidate v sat h = elim (Option-cases (version_key candidate)) [
  | inl bad ↦ absurd (ground (arith, bad))
  | inr (k, e) ↦ at_least_of_AtMost candidate v k (best_from none cs) e h (
      best_from-AtMost k none cs tt
        (all→All (λ c. satisfies_one c k) cs (rw (e, satisfies_all_key) at sat)))
]
