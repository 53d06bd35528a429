-- ===== src/Version/Satisfy.antt =====
-- The evaluation of constraints, crates/tfls-core/src/version_constraint.rs: `satisfies_all`,
-- `satisfies_one`, `pessimistic_matches`, `min_admitted_version`, `version_at_least`.
use terraform_ls_rs.Base.{
  ℕ, zero, suc, Bool, true, false, not, ◌&&◌, ◌||◌, Option, none, some, List, [], ◌∷◌, Ordering,
  ◌==◌, if◌then◌else◌, Bytes, length, all, before, split,
}
use terraform_ls_rs.Base.Order.{is_lt, is_ge, flip}
use terraform_ls_rs.Version.Constraint.{
  ConstraintOp, eq, ne, gt, gte, lt, lte, pessimistic, Constraint,
}
use terraform_ls_rs.Version.Key.{VersionKey, cmp_key, key_eq, version_key, compare_versions}

-- The number of dot-separated segments that the constraint was written with.
unfoldable pub segments : Bytes → ℕ
unfolding before split
segments v = length (split b'.' (before b'+' (before b'-' v)))

-- `ck` is `version_key(constraint_version)`, read a second time by the code.
unfoldable pub within_segments : ℕ → VersionKey → VersionKey → Bool
within_segments zero k ck = true
within_segments (suc zero) k ck = true
within_segments (suc (suc zero)) k ck = k.major == ck.major
within_segments (suc (suc (suc n))) k ck = k.major == ck.major && k.minor == ck.minor

unfoldable pub pessimistic_key : ℕ → VersionKey → Option VersionKey → Bool
unfolding cmp_key within_segments
pessimistic_key n candidate_key none = false
pessimistic_key n candidate_key (some ck) =
    if is_lt (cmp_key candidate_key ck) then false else within_segments n candidate_key ck

unfoldable pub pessimistic_matches : Bytes → VersionKey → Bool
unfolding version_key pessimistic_key segments
pessimistic_matches constraint_version candidate_key =
    pessimistic_key (segments constraint_version) candidate_key (version_key constraint_version)

-- A pre-release candidate is kept out of a range whose operand is stable and of another core.
unfoldable pub pre_excluded : VersionKey → VersionKey → Bool
pre_excluded k ck =
    k.stability == 0
    && ck.stability == 1
    && (not (k.major == ck.major) || not (k.minor == ck.minor) || not (k.patch == ck.patch))

-- The `match c.op` of `satisfies_one`.
unfoldable pub op_matches : ConstraintOp → Bytes → VersionKey → VersionKey → Bool
unfolding key_eq cmp_key pre_excluded pessimistic_matches
op_matches eq version k ck = key_eq k ck
op_matches ne version k ck = not (key_eq k ck)
op_matches gt version k ck = not (pre_excluded k ck) && is_lt (flip (cmp_key k ck))
op_matches gte version k ck = not (pre_excluded k ck) && is_ge (cmp_key k ck)
op_matches lt version k ck = not (pre_excluded k ck) && is_lt (cmp_key k ck)
op_matches lte version k ck = not (pre_excluded k ck) && is_ge (flip (cmp_key k ck))
op_matches pessimistic version k ck = not (pre_excluded k ck) && pessimistic_matches version k

unfoldable pub satisfies_key : Constraint → VersionKey → Option VersionKey → Bool
unfolding op_matches
satisfies_key c candidate_key none = false
satisfies_key c candidate_key (some constraint_key) =
    op_matches c.op c.version candidate_key constraint_key

unfoldable pub satisfies_one : Constraint → VersionKey → Bool
unfolding satisfies_key version_key
satisfies_one c candidate_key = satisfies_key c candidate_key (version_key c.version)

unfoldable pub satisfies_all_key : List Constraint → Option VersionKey → Bool
unfolding satisfies_one
satisfies_all_key constraints none = false
satisfies_all_key constraints (some candidate_key) =
    all (λ c. satisfies_one c candidate_key) constraints

unfoldable pub satisfies_all : List Constraint → Bytes → Bool
unfolding satisfies_all_key version_key
satisfies_all constraints candidate = satisfies_all_key constraints (version_key candidate)

-- Operators whose operand bounds the admitted versions from below.
unfoldable pub is_lower_bound : ConstraintOp → Bool
is_lower_bound eq = true
is_lower_bound gt = true
is_lower_bound gte = true
is_lower_bound pessimistic = true
is_lower_bound lt = false
is_lower_bound lte = false
is_lower_bound ne = false

-- `best` after a lower bound `v` with the key `key`.
unfoldable pub better :
    Option (Bytes × VersionKey) → Bytes → VersionKey → Option (Bytes × VersionKey)
unfolding cmp_key
better none v key = some (v, key)
better (some (w, prev_key)) v key =
    if is_lt (cmp_key prev_key key) then some (v, key) else some (w, prev_key)

-- One turn of the loop of `min_admitted_version`.
unfoldable pub improve :
    Option (Bytes × VersionKey) → Constraint → Option VersionKey → Option (Bytes × VersionKey)
unfolding is_lower_bound better
improve best c none = best
improve best c (some key) = if is_lower_bound c.op then better best c.version key else best

unfoldable pub best_from :
    Option (Bytes × VersionKey) → List Constraint → Option (Bytes × VersionKey)
unfolding improve version_key
best_from best [] = best
best_from best (c ∷ cs) = best_from (improve best c (version_key c.version)) cs

abbrev pub version_of : Option (Bytes × VersionKey) → Option Bytes
version_of none = none
version_of (some (v, key)) = some v

unfoldable pub min_admitted_version : List Constraint → Option Bytes
unfolding best_from
min_admitted_version constraints = version_of (best_from none constraints)

abbrev at_least : Option Ordering → Bool
at_least none = false
at_least (some o) = is_ge o

unfoldable pub version_at_least : Bytes → Bytes → Bool
unfolding compare_versions
version_at_least version threshold = at_least (compare_versions version threshold)
