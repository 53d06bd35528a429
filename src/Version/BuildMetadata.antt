-- ===== src/Version/BuildMetadata.antt =====
-- Versions with build metadata, as crates/tfls-core/src/version_constraint.rs keys them.
use terraform_ls_rs.Base.{
  true, false, not, ◌&&◌, Option, none, some, [], ◌∷◌, ◌++◌, ◌≡◌, ◌≢◌, refl, ◌∙◌, ◌==◌, Bytes, all,
  any, before, after?, Option-cases, Bool-cases, inl, inr, arith,
}
use terraform_ls_rs.Version.Constraint.{eq, Constraint, Range}
use terraform_ls_rs.Version.Key.{VersionKey, key_eq, core_of, key_of, version_key}
use terraform_ls_rs.Version.Satisfy.{
  op_matches, satisfies_key, satisfies_one, satisfies_all, satisfies_all_key,
}
use terraform_ls_rs.Version.Order.{key_eq_iff}

-- Neither `-` nor `+`.
abbrev pub IsCore : Bytes → Type 0
IsCore s = all (λ b. not (b == b'-') && not (b == b'+')) s ≡ true

core_of-build : (core meta : Bytes) → IsCore core → core_of (core ++ b'+' ∷ meta) ≡ core
unfolding core_of before
core_of-build [] meta h = refl
core_of-build (b ∷ core) meta h = ground (arith, core_of-build core meta)

pub core_of-IsCore : (core : Bytes) → IsCore core → core_of core ≡ core
unfolding core_of before
core_of-IsCore [] h = refl
core_of-IsCore (b ∷ core) h = ground (arith, core_of-IsCore core)

after-build :
    (core meta : Bytes) → IsCore core → after? b'-' (core ++ b'+' ∷ meta) ≡ after? b'-' meta
unfolding after?
after-build [] meta h = refl
after-build (b ∷ core) meta h = ground (arith, after-build core meta)

pub after-IsCore : (core : Bytes) → IsCore core → after? b'-' core ≡ none
unfolding after?
after-IsCore [] h = refl
after-IsCore (b ∷ core) h = ground (arith, after-IsCore core)

after-none : (meta : Bytes) → any (λ b. b == b'-') meta ≡ false → after? b'-' meta ≡ none
unfolding after?
after-none [] h = refl
after-none (b ∷ meta) h = ground (arith, after-none meta)

after-ne-none : (meta : Bytes) → any (λ b. b == b'-') meta ≡ true → after? b'-' meta ≢ none
unfolding after?
after-ne-none [] h = absurd (cc)
after-ne-none (b ∷ meta) h = ground (arith, after-ne-none meta)

key_of-stability :
    (core : Bytes) (pre : Option Bytes) (k : VersionKey)
    → key_of core pre ≡ some k
    → k.stability ≡ (elim pre [ none ↦ 1 | some p ↦ 0 ])
unfolding key_of
key_of-stability core none k h = ground arith
key_of-stability core (some p) k h = ground arith

abbrev pub exact : Bytes → Range → Constraint
exact v span = record { op = eq; version = v; span = span }

plain_build :
    (core meta : Bytes) (k : VersionKey)
    → IsCore core
    → version_key core ≡ some k
    → any (λ b. b == b'-') meta ≡ false
    → version_key (core ++ b'+' ∷ meta) ≡ some k
unfolding version_key
plain_build core meta k core_ok e none_there =
    rw (core_of-build core meta core_ok, after-build core meta core_ok, after-none meta none_there)
      (rw (core_of-IsCore core core_ok, after-IsCore core core_ok) at e)

core-stability :
    (core : Bytes) (k : VersionKey) → IsCore core → version_key core ≡ some k → k.stability ≡ 1
unfolding version_key
core-stability core k core_ok e =
    rw (after-IsCore core core_ok) at (key_of-stability (core_of core) (after? b'-' core) k e)

dashed-stability :
    (core meta : Bytes) (k : VersionKey)
    → IsCore core
    → any (λ b. b == b'-') meta ≡ true
    → version_key (core ++ b'+' ∷ meta) ≡ some k
    → k.stability ≡ 0
unfolding version_key
dashed-stability core meta k core_ok dash e = elim (Option-cases (after? b'-' meta)) [
  | inl bad ↦ absurd (after-ne-none meta dash bad)
  | inr (rest, found) ↦
      rw (after-build core meta core_ok ∙ found) at
        (key_of-stability (core_of (core ++ b'+' ∷ meta)) (after? b'-' (core ++ b'+' ∷ meta)) k e)
]

satisfies_exact :
    (core candidate : Bytes) (span : Range) (k k' : VersionKey)
    → version_key core ≡ some k
    → version_key candidate ≡ some k'
    → satisfies_all (exact core span ∷ []) candidate ≡ key_eq k' k
unfolding satisfies_all satisfies_all_key satisfies_one satisfies_key op_matches
satisfies_exact core candidate span k k' e f = rw (f, satisfies_all_key) (ground (arith, e))

-- For a version core without `-` and `+` that parses, the constraint `= core` admits the same core
-- with build metadata behind a `+` exactly if the metadata holds no `-`: a dash there is read as
-- the start of a pre-release.
pub exact-build_metadata :
    (core meta : Bytes) (span : Range) (k : VersionKey)
    → IsCore core
    → version_key core ≡ some k
    → satisfies_all (exact core span ∷ []) (core ++ b'+' ∷ meta) ≡ not (any (λ b. b == b'-') meta)
exact-build_metadata core meta span k core_ok e = elim (Bool-cases (any (λ b. b == b'-') meta)) [
  | inr none_there ↦ rw none_there (
      satisfies_exact core (core ++ b'+' ∷ meta) span k k e
        (plain_build core meta k core_ok e none_there)
      ∙ (key_eq_iff k k).1 refl)
  | inl dash ↦ rw dash (elim (Option-cases (version_key (core ++ b'+' ∷ meta))) [
    | inl bad ↦ unfold satisfies_all satisfies_all_key in rw (bad, satisfies_all_key)
    | inr (k', f) ↦
        satisfies_exact core (core ++ b'+' ∷ meta) span k k' e f
        ∙ ground (
          arith,
          key_eq_iff k' k,
          core-stability core k core_ok e,
          dashed-stability core meta k' core_ok dash f,
        )
  ])
]
