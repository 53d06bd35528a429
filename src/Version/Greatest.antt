-- ===== src/Version/Greatest.antt =====
-- `min_admitted_version` of crates/tfls-core/src/version_constraint.rs against the lower bounds that
-- are written.
use terraform_ls_rs.Base.{
  true, Option, none, some, List, [], ◌∷◌, ◌≡◌, refl, Bytes, All, Bool-cases, inl, inr,
  Option-cases, ◌⊎◌, arith,
}
use terraform_ls_rs.Base.Order.{is_ge, is_lt, ge_refl, ge_trans, ge_of_lt}
use terraform_ls_rs.Version.Constraint.{
  ConstraintOp, eq, ne, gt, gte, lt, lte, pessimistic, Constraint,
}
use terraform_ls_rs.Version.Key.{VersionKey, cmp_key, version_key, compare_versions}
use terraform_ls_rs.Version.Satisfy.{
  is_lower_bound, better, improve, best_from, version_of, min_admitted_version, version_at_least,
}
use terraform_ls_rs.Version.Order.{cmp_key-IsTotalOrder}

-- The best bound so far is the key of its version, and not less than `ck`.
abbrev Above : VersionKey → Option (Bytes × VersionKey) → Type 0
Above ck none = ⊥
Above ck (some (v, key)) = (version_key v ≡ some key) × (is_ge (cmp_key key ck) ≡ true)

better-Above :
    (ck : VersionKey) (best : Option (Bytes × VersionKey)) (v : Bytes) (key : VersionKey)
    → version_key v ≡ some key
    → Above ck best
    → Above ck (better best v key)
unfolding better
better-Above ck none v key e a = absurd a
better-Above ck (some (w, prev)) v key e a = elim (Bool-cases (is_lt (cmp_key prev key))) [
  | inl up ↦
      rw up (
        e,
        ge_trans cmp_key-IsTotalOrder key prev ck (ge_of_lt cmp_key-IsTotalOrder prev key up) a.1,
      )
  | inr stay ↦ rw stay a
]

-- The best bound so far is the key of its version.
abbrev Known : Option (Bytes × VersionKey) → Type 0
Known none = Unit
Known (some (v, key)) = version_key v ≡ some key

better-Above_self :
    (best : Option (Bytes × VersionKey)) (v : Bytes) (key : VersionKey)
    → Known best
    → version_key v ≡ some key
    → Above key (better best v key)
unfolding better
better-Above_self none v key a e = (e, ge_refl cmp_key-IsTotalOrder key)
better-Above_self (some (w, prev)) v key a e = elim (Bool-cases (is_lt (cmp_key prev key))) [
  | inl up ↦ rw up (e, ge_refl cmp_key-IsTotalOrder key)
  | inr stay ↦ rw stay (a, ground arith)
]

improve-Known :
    (best : Option (Bytes × VersionKey)) (c : Constraint) (o : Option VersionKey)
    → version_key c.version ≡ o
    → Known best
    → Known (improve best c o)
unfolding improve better
improve-Known best c none e a = a
improve-Known none c (some key) e a = elim (Bool-cases (is_lower_bound c.op)) [
  | inl low ↦ rw low e
  | inr no_bound ↦ rw no_bound a
]
improve-Known (some (w, prev)) c (some key) e a = ground arith

improve-Above :
    (ck : VersionKey) (best : Option (Bytes × VersionKey)) (c : Constraint) (o : Option VersionKey)
    → version_key c.version ≡ o
    → Above ck best
    → Above ck (improve best c o)
unfolding improve
improve-Above ck best c none e a = a
improve-Above ck best c (some key) e a = elim (Bool-cases (is_lower_bound c.op)) [
  | inl low ↦ rw low (better-Above ck best c.version key e a)
  | inr no_bound ↦ rw no_bound a
]

best_from-Above :
    (ck : VersionKey) (best : Option (Bytes × VersionKey)) (cs : List Constraint)
    → Above ck best
    → Above ck (best_from best cs)
unfolding best_from
best_from-Above ck best [] a = a
best_from-Above ck best (c ∷ cs) a =
    best_from-Above ck (improve best c (version_key c.version)) cs
      (improve-Above ck best c (version_key c.version) refl a)

-- `c` bounds from below with a version that has a key, and `best` is not less than it.
abbrev Covers : Option (Bytes × VersionKey) → Constraint → Type 0
Covers best c =
    (ck : VersionKey) → is_lower_bound c.op ≡ true → version_key c.version ≡ some ck → Above ck best

improve-Covers :
    (best : Option (Bytes × VersionKey)) (c : Constraint)
    → Known best
    → Covers (improve best c (version_key c.version)) c
unfolding improve
improve-Covers best c a ck low e = rw (e, improve, low) (better-Above_self best c.version ck a e)

best_from-Covers :
    (best : Option (Bytes × VersionKey)) (cs : List Constraint)
    → Known best
    → All (Covers (best_from best cs)) cs
unfolding best_from
best_from-Covers best [] a = tt
best_from-Covers best (c ∷ cs) a =
    let next = improve best c (version_key c.version) in
    (
      λ ck low e. best_from-Above ck next cs (improve-Covers best c a ck low e),
      best_from-Covers next cs (improve-Known best c (version_key c.version) refl a),
    )

-- The result exists and is at least the version of `c`.
abbrev Dominates : Option Bytes → Constraint → Type 0
Dominates result c = (v : Bytes) × (result ≡ some v) × (version_at_least v c.version ≡ true)

Above-Dominates :
    (best : Option (Bytes × VersionKey)) (c : Constraint) (ck : VersionKey)
    → version_key c.version ≡ some ck
    → Above ck best
    → Dominates (version_of best) c
unfolding version_at_least compare_versions
Above-Dominates none c ck e a = absurd a
Above-Dominates (some (v, key)) c ck e a = (v, refl, ground arith)

-- The constraint demands at least its version.
abbrev pub BoundsBelow : ConstraintOp → Type 0
BoundsBelow eq = Unit
BoundsBelow gt = Unit
BoundsBelow gte = Unit
BoundsBelow pessimistic = Unit
BoundsBelow ne = ⊥
BoundsBelow lt = ⊥
BoundsBelow lte = ⊥

-- It also has a version that parses.
abbrev pub IsBound : Constraint → Type 0
IsBound c = BoundsBelow c.op × ((key : VersionKey) × (version_key c.version ≡ some key))

-- Some constraint is such a bound, of the version `v`.
abbrev pub IsWritten : Bytes → List Constraint → Type 0
IsWritten v [] = ⊥
IsWritten v (c ∷ cs) = (IsBound c × (c.version ≡ v)) ⊎ IsWritten v cs

-- The result is the version of a bound, and at least the version of each; without a result there
-- is no bound.
abbrev pub IsGreatestBound : List Constraint → Option Bytes → Type 0
IsGreatestBound cs none = All (λ c. ¬ IsBound c) cs
IsGreatestBound cs (some v) =
    IsWritten v cs × All (λ c. (¬ IsBound c) ⊎ (version_at_least v c.version ≡ true)) cs

BoundsBelow-true : (op : ConstraintOp) → is_lower_bound op ≡ true → BoundsBelow op
unfolding is_lower_bound
BoundsBelow-true eq h = tt
BoundsBelow-true gt h = tt
BoundsBelow-true gte h = tt
BoundsBelow-true pessimistic h = tt
BoundsBelow-true ne h = ground arith
BoundsBelow-true lt h = ground arith
BoundsBelow-true lte h = ground arith

true-BoundsBelow : (op : ConstraintOp) → BoundsBelow op → is_lower_bound op ≡ true
unfolding is_lower_bound
true-BoundsBelow eq h = refl
true-BoundsBelow gt h = refl
true-BoundsBelow gte h = refl
true-BoundsBelow pessimistic h = refl
true-BoundsBelow ne h = absurd h
true-BoundsBelow lt h = absurd h
true-BoundsBelow lte h = absurd h

IsBound-cases : (c : Constraint) → IsBound c ⊎ (¬ IsBound c)
IsBound-cases c = elim (Bool-cases (is_lower_bound c.op)) [
  | inl low ↦ elim (Option-cases (version_key c.version)) [
    | inl bad ↦ inr (λ b. ground (arith, b.1.1))
    | inr known ↦ inl (BoundsBelow-true c.op low, known)
  ]
  | inr no_bound ↦ inr (λ b. ground (arith, true-BoundsBelow c.op b.0))
]

-- A version that a turn puts in is that of a bound.
improve-IsBound :
    (best : Option (Bytes × VersionKey)) (c : Constraint) (o : Option VersionKey) (v : Bytes)
    → version_key c.version ≡ o
    → version_of (improve best c o) ≡ some v
    → (version_of best ≡ some v) ⊎ (IsBound c × (c.version ≡ v))
unfolding improve better
improve-IsBound best c none v e h = inl h
improve-IsBound best c (some key) v e h = elim (Bool-cases (is_lower_bound c.op)) [
  | inl low ↦ elim (Option-cases (version_of best)) [
    | inl empty ↦ inr ((BoundsBelow-true c.op low, (key, e)), ground arith)
    | inr (w, old) ↦ ground (arith, BoundsBelow-true c.op low)
  ]
  | inr no_bound ↦ inl (rw no_bound at h)
]

best_from-IsWritten :
    (best : Option (Bytes × VersionKey)) (cs : List Constraint) (v : Bytes)
    → version_of (best_from best cs) ≡ some v
    → (version_of best ≡ some v) ⊎ IsWritten v cs
unfolding best_from
best_from-IsWritten best [] v h = inl h
best_from-IsWritten best (c ∷ cs) v h =
    let o = version_key c.version in
    elim (best_from-IsWritten (improve best c o) cs v h) [
      | inl here ↦ elim (improve-IsBound best c o v refl here) [
        | inl before ↦ inl before
        | inr own ↦ inr (inl own)
      ]
      | inr later ↦ inr (inr later)
    ]

-- What covers each constraint dominates each bound.
Covers-Dominates :
    (best : Option (Bytes × VersionKey)) (cs : List Constraint)
    → All (Covers best) cs
    → All (λ c. IsBound c → Dominates (version_of best) c) cs
Covers-Dominates best [] h = tt
Covers-Dominates best (c ∷ cs) h = (
  λ b. Above-Dominates best c b.1.0 b.1.1 (h.0 b.1.0 (true-BoundsBelow c.op b.0) b.1.1),
  Covers-Dominates best cs h.1,
)

Dominates-none :
    (cs : List Constraint) → All (λ c. IsBound c → Dominates none c) cs → All (λ c. ¬ IsBound c) cs
Dominates-none [] h = tt
Dominates-none (c ∷ cs) h = (λ b. let (v, e, above) = h.0 b in ground arith, Dominates-none cs h.1)

Dominates-some :
    (v : Bytes) (cs : List Constraint)
    → All (λ c. IsBound c → Dominates (some v) c) cs
    → All (λ c. (¬ IsBound c) ⊎ (version_at_least v c.version ≡ true)) cs
Dominates-some v [] h = tt
Dominates-some v (c ∷ cs) h = (
  elim (IsBound-cases c) [
    | inl bound ↦ let (w, e, above) = h.0 bound in inr (ground arith)
    | inr free ↦ inl free
  ],
  Dominates-some v cs h.1,
)

greatest :
    (cs : List Constraint) (o : Option Bytes)
    → ((v : Bytes) → o ≡ some v → IsWritten v cs)
    → All (λ c. IsBound c → Dominates o c) cs
    → IsGreatestBound cs o
greatest cs none written above = Dominates-none cs above
greatest cs (some v) written above = (written v refl, Dominates-some v cs above)

-- A constraint is a bound if its operator is one of `=`, `>`, `>=` and `~>` and its version parses.
-- `min_admitted_version` returns no version exactly if there is no bound, and otherwise the version
-- of one that is at least the version of each.
pub min_admitted_version-IsGreatestBound :
    (cs : List Constraint) → IsGreatestBound cs (min_admitted_version cs)
unfolding min_admitted_version
min_admitted_version-IsGreatestBound cs =
    greatest cs (version_of (best_from none cs))
      (λ v e. elim (best_from-IsWritten none cs v e) [
        | inl never ↦ absurd (ground arith)
        | inr found ↦ found
      ])
      (Covers-Dominates (best_from none cs) cs (best_from-Covers none cs tt))
