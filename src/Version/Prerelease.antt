-- ===== src/Version/Prerelease.antt =====
-- Where a pre-release stands among the releases, crates/tfls-core/src/version_constraint.rs.
use terraform_ls_rs.Base.{
  none, some, [], ◌∷◌, ◌++◌, ◌≡◌, refl, ap, Ordering, Bytes, before, after?, if◌then◌else◌,
  Option-cases, inl, inr, arith,
}
use terraform_ls_rs.Base.Order.{is_ge, cmp_list}
use terraform_ls_rs.Version.Key.{
  VersionKey, cmp_key, core_of, key_of, version_key, compare_versions,
}
use terraform_ls_rs.Version.Satisfy.{version_at_least}
use terraform_ls_rs.Version.BuildMetadata.{IsCore, core_of-IsCore, after-IsCore}

core_of-dash : (core pre : Bytes) → IsCore core → core_of (core ++ b'-' ∷ pre) ≡ core
unfolding core_of before
core_of-dash [] pre h = refl
core_of-dash (b ∷ core) pre h = ground (arith, core_of-dash core pre)

after-dash : (core pre : Bytes) → IsCore core → after? b'-' (core ++ b'-' ∷ pre) ≡ some pre
unfolding after?
after-dash [] pre h = refl
after-dash (b ∷ core) pre h = ground (arith, after-dash core pre)

-- `k` is the key of a release.
abbrev IsRelease : VersionKey → Type 0
IsRelease k = (k.stability ≡ 1) × (k.pre ≡ [])

-- `k'` is the key of a pre-release of the release with the key `k`.
abbrev IsBeforeRelease : VersionKey → VersionKey → Type 0
IsBeforeRelease k' k =
    (k'.major ≡ k.major) × (k'.minor ≡ k.minor) × (k'.patch ≡ k.patch) × (k'.stability ≡ 0)

key_of-IsRelease : (core : Bytes) (k : VersionKey) → key_of core none ≡ some k → IsRelease k
unfolding key_of
key_of-IsRelease core k h = ground arith

key_of-IsBeforeRelease :
    (core pre : Bytes) (k : VersionKey)
    → key_of core none ≡ some k
    → (k' : VersionKey) × (key_of core (some pre) ≡ some k') × IsBeforeRelease k' k
key_of-IsBeforeRelease core pre k h = elim (Option-cases (key_of core (some pre))) [
  | inl bad ↦ absurd (unfold key_of in ground arith)
  | inr (k', e) ↦ (k', e, unfold key_of in ground arith)
]

cmp_key-prerelease :
    (k' k ck : VersionKey)
    → IsBeforeRelease k' k
    → IsRelease k
    → IsRelease ck
    → cmp_key k' ck ≡ (if is_ge (cmp_key ck k) then Ordering.lt else Ordering.gt)
unfolding cmp_key cmp_list
cmp_key-prerelease k' k ck p r s = ground arith

-- The key of a core is made of it as it stands.
version_key-IsCore :
    (core : Bytes) (k : VersionKey)
    → IsCore core
    → version_key core ≡ some k
    → key_of core none ≡ some k
unfolding version_key
version_key-IsCore core k core_ok e =
    rw (core_of-IsCore core core_ok, after-IsCore core core_ok) at e

-- For two versions without `-` and `+` that parse, a pre-release of the first one is less than the
-- second one if that is at least the first one, and greater otherwise.
pub compare_versions-prerelease :
    (core pre release : Bytes) (k ck : VersionKey)
    → IsCore core
    → version_key core ≡ some k
    → IsCore release
    → version_key release ≡ some ck
    → compare_versions (core ++ b'-' ∷ pre) release
      ≡ some (if version_at_least release core then Ordering.lt else Ordering.gt)
compare_versions-prerelease core pre release k ck core_ok e release_ok f =
    let plain = version_key-IsCore core k core_ok e in
    let (k', e', below) = key_of-IsBeforeRelease core pre k plain in
    let dashed : version_key (core ++ b'-' ∷ pre) ≡ some k' =
      unfold version_key in rw (core_of-dash core pre core_ok, after-dash core pre core_ok) e' in
    let s = key_of-IsRelease release ck (version_key-IsCore release ck release_ok f) in
    unfold compare_versions version_at_least in
    rw (dashed, compare_versions)
      (rw (f, compare_versions)
        (rw (e, version_at_least)
          (ap some (cmp_key-prerelease k' k ck below (key_of-IsRelease core k plain) s))))
