-- ===== src/Version/Tests.antt =====
-- Runs of the model at small inputs, and the theorems' instances.
use terraform_ls_rs.Base.{
  Ordering, if◌then◌else◌, ℕ, true, false, none, some, List, [], ◌∷◌, ◌++◌, map, ◌≡◌, ◌↔◌, refl,
  codes, split, before, after?, any, trim_end,
}
use terraform_ls_rs.Version.Constraint.{
  range, gte, lt, pessimistic, token, Constraint, Parsed, after_operator, inside_version,
}
use terraform_ls_rs.Version.Parse.{parse, validate_version, check_parts}
use terraform_ls_rs.Version.Cursor.{cursor_slot}
use terraform_ls_rs.Version.Key.{
  VersionKey, version_key, compare_versions, core_of, parse_i64, classify_all,
}
use terraform_ls_rs.Version.Satisfy.{
  satisfies_all, min_admitted_version, version_at_least, segments,
}
use terraform_ls_rs.Version.Bounds.{satisfies_all-at_least_min}
use terraform_ls_rs.Version.Greatest.{IsGreatestBound, min_admitted_version-IsGreatestBound}
use terraform_ls_rs.Version.Pessimistic.{constraint, pessimistic-major_range}
use terraform_ls_rs.Version.Panics.{is_blank, parse-none_iff}
use terraform_ls_rs.Version.Entry.{IsPlain, entry_of, written}
use terraform_ls_rs.Version.RoundTrip.{parse-written}
use terraform_ls_rs.Version.Slots.{cursor_at, cursor_slot-operator, cursor_slot-version}
use terraform_ls_rs.Version.Prerelease.{compare_versions-prerelease}
use terraform_ls_rs.Version.BuildMetadata.{exact, exact-build_metadata}

abbrev at_least_one : Constraint
at_least_one = record { op = gte; version = codes "1.0"; span = range 0 6 }

abbrev below_two : Constraint
below_two = record { op = lt; version = codes "2.0"; span = range 8 13 }

parse_two :
    parse (codes ">= 1.0, < 2.0")
    ≡ some (record { constraints = at_least_one ∷ below_two ∷ []; errors = [] })
unfolding parse
parse_two = refl

parse_blank : parse (codes ">= 1.0, ") ≡ none
unfolding parse
parse_blank = refl

program : Unit {0}
unfolding split before after? core_of parse_i64 classify_all
program = tt

satisfies_pre : satisfies_all (at_least_one ∷ below_two ∷ []) (codes "1.5.0-rc1") ≡ false
unfolding satisfies_all program
satisfies_pre = refl

satisfies_mid : satisfies_all (at_least_one ∷ below_two ∷ []) (codes "1.5.0") ≡ true
unfolding satisfies_all program
satisfies_mid = refl

slot : cursor_slot (codes ">= 1.0, ~> 2") 11 ≡ after_operator pessimistic
unfolding cursor_slot
slot = refl

slot_typed : cursor_slot (codes ">= 1.0, ~> 2") 12 ≡ inside_version pessimistic (codes "2")
unfolding cursor_slot
slot_typed = refl

abbrev two_bounds : List Constraint
two_bounds = at_least_one ∷ below_two ∷ []

min_admitted-two_bounds : min_admitted_version two_bounds ≡ some (codes "1.0")
unfolding min_admitted_version program
min_admitted-two_bounds = refl

satisfies_all-at_least_min_example : version_at_least (codes "1.5.0") (codes "1.0") ≡ true
satisfies_all-at_least_min_example =
    satisfies_all-at_least_min two_bounds (codes "1.5.0") (codes "1.0") satisfies_mid
      min_admitted-two_bounds

abbrev stable_key : ℕ → ℕ → ℕ → VersionKey
stable_key a b c = record { major = a; minor = b; patch = c; stability = 1; pre = [] }

key_one : version_key (codes "1.0") ≡ some (stable_key 1 0 0)
unfolding version_key program
key_one = refl

key_next_minor : version_key (codes "1.3.0") ≡ some (stable_key 1 3 0)
unfolding version_key program
key_next_minor = refl

key_two : version_key (codes "1.2") ≡ some (stable_key 1 2 0)
unfolding version_key program
key_two = refl

key_next_major : version_key (codes "2.0") ≡ some (stable_key 2 0 0)
unfolding version_key program
key_next_major = refl

min_admitted_version-IsGreatestBound_example :
    IsGreatestBound two_bounds (min_admitted_version two_bounds)
min_admitted_version-IsGreatestBound_example = min_admitted_version-IsGreatestBound two_bounds

two : segments (codes "1.2") ≡ 2
unfolding segments program
two = refl

pessimistic-major_range_example :
    satisfies_all (constraint pessimistic (codes "1.2") (range 0 6) ∷ []) (codes "1.9.0")
    ≡ satisfies_all
        (constraint gte (codes "1.2") (range 0 6) ∷ constraint lt (codes "2.0") (range 0 6) ∷ [])
        (codes "1.9.0")
pessimistic-major_range_example =
    pessimistic-major_range (codes "1.2") (codes "2.0") (codes "1.9.0") (range 0 6)
      (stable_key 1 2 0) key_two refl two key_next_major

parse-none_iff_example :
    (parse (codes ">= 1.0, ") ≡ none) ↔ (any is_blank (split b',' (codes ">= 1.0, ")) ≡ true)
parse-none_iff_example = parse-none_iff (codes ">= 1.0, ")

abbrev parsed_two : Parsed
parsed_two = record { constraints = two_bounds; errors = [] }

IsPlain-one : IsPlain (codes "1.0")
unfolding validate_version check_parts trim_end program
IsPlain-one = record { valid = refl; comma_free = refl; trimmed = refl }

IsPlain-two : IsPlain (codes "2.0-rc1")
unfolding validate_version check_parts trim_end program
IsPlain-two = record { valid = refl; comma_free = refl; trimmed = refl }

parse-written_example :
    (p : Parsed) × (parse (written (gte, codes "1.0") ((lt, codes "2.0-rc1") ∷ [])) ≡ some p)
    × (map entry_of p.constraints ≡ (gte, codes "1.0") ∷ (lt, codes "2.0-rc1") ∷ [])
    × (p.errors ≡ [])
parse-written_example =
    parse-written gte (codes "1.0") ((lt, codes "2.0-rc1") ∷ []) IsPlain-one (IsPlain-two, tt)

cursor_slot-operator_example :
    cursor_slot
      (codes ">= 1.0" ++ b',' ∷ ((codes " " ++ (token pessimistic ++ codes " ")) ++ codes "2"))
      (cursor_at (codes ">= 1.0") (codes " " ++ (token pessimistic ++ codes " ")))
    ≡ after_operator pessimistic
cursor_slot-operator_example =
    cursor_slot-operator (codes ">= 1.0") (codes " ") (codes " ") (codes "2") pessimistic refl refl

cursor_slot-version_example :
    cursor_slot
      (codes ">= 1.0"
        ++ b',' ∷ ((codes " " ++ (token pessimistic ++ (codes " " ++ codes "2."))) ++ codes "0"))
      (cursor_at (codes ">= 1.0") (codes " " ++ (token pessimistic ++ (codes " " ++ codes "2."))))
    ≡ inside_version pessimistic (codes "2.")
cursor_slot-version_example =
    cursor_slot-version (codes ">= 1.0") (codes " ") (codes " ") (codes "0") pessimistic refl refl
      b'2' (codes ".") refl refl refl

exact-build_metadata_example :
    satisfies_all (exact (codes "1.2") (range 0 5) ∷ []) (codes "1.2" ++ b'+' ∷ codes "a-b") ≡ false
exact-build_metadata_example =
    exact-build_metadata (codes "1.2") (codes "a-b") (range 0 5) (stable_key 1 2 0) refl key_two

compare_versions-prerelease_example :
    compare_versions (codes "1.2" ++ b'-' ∷ codes "rc1") (codes "1.3.0")
    ≡ some (if version_at_least (codes "1.3.0") (codes "1.2") then Ordering.lt else Ordering.gt)
compare_versions-prerelease_example =
    compare_versions-prerelease (codes "1.2") (codes "rc1") (codes "1.3.0") (stable_key 1 2 0)
      (stable_key 1 3 0) refl key_two refl key_next_minor
