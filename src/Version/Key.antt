-- ===== src/Version/Key.antt =====
-- `VersionKey`, its derived order, `version_key` and `compare_versions`,
-- crates/tfls-core/src/version_constraint.rs. An `i64` segment of a core has no sign: the core is
-- what stands before the first `-` and the first `+`.
use Prim.Native.Nat.{compare}
use terraform_ls_rs.Base.{
  ℕ, ◌^◌, Bool, true, false, ◌&&◌, Option, none, some, List, [], ◌∷◌, Ordering, ◌==◌, if◌then◌else◌,
  ◌>>=◌, Bytes, get_elem?, all, is_empty, is_ascii_digit, bytes_eq, before, after?, split,
  parse_below,
}
use terraform_ls_rs.Base.Order.{then_with, cmp_list}

pub data PreSegment : Type 0 where
  num : ℕ → PreSegment
  text : Bytes → PreSegment

pub record VersionKey : Type 0 where
  pub major : ℕ
  pub minor : ℕ
  pub patch : ℕ
  pub stability : ℕ
  pub pre : List PreSegment

unfoldable pub cmp_segment : PreSegment → PreSegment → Ordering
unfolding cmp_list
cmp_segment (num m) (num n) = compare m n
cmp_segment (num m) (text t) = Ordering.lt
cmp_segment (text s) (num n) = Ordering.gt
cmp_segment (text s) (text t) = cmp_list compare s t

unfoldable pub cmp_key : VersionKey → VersionKey → Ordering
unfolding cmp_list cmp_segment
cmp_key a b = then_with (compare a.major b.major) (
    then_with (compare a.minor b.minor) (
      then_with (compare a.patch b.patch)
        (then_with (compare a.stability b.stability) (cmp_list cmp_segment a.pre b.pre))))

unfoldable pub segment_eq : PreSegment → PreSegment → Bool
unfolding bytes_eq
segment_eq (num m) (num n) = m == n
segment_eq (num m) (text t) = false
segment_eq (text s) (num n) = false
segment_eq (text s) (text t) = bytes_eq s t

unfoldable pub segments_eq : List PreSegment → List PreSegment → Bool
unfolding segment_eq
segments_eq [] [] = true
segments_eq [] (y ∷ ys) = false
segments_eq (x ∷ xs) [] = false
segments_eq (x ∷ xs) (y ∷ ys) = segment_eq x y && segments_eq xs ys

unfoldable pub key_eq : VersionKey → VersionKey → Bool
unfolding segments_eq
key_eq a b =
    a.major == b.major
    && a.minor == b.minor
    && a.patch == b.patch
    && a.stability == b.stability
    && segments_eq a.pre b.pre

-- `parse::<i64>()` and `parse::<u64>()` of a text with no sign.
unfoldable pub parse_i64 : Bytes → Option ℕ
unfolding parse_below
parse_i64 = parse_below (2 ^ 63)

unfoldable pub parse_u64 : Bytes → Option ℕ
unfolding parse_below
parse_u64 = parse_below (2 ^ 64)

abbrev unwrap_or : ℕ → Option ℕ → ℕ
unwrap_or d none = d
unwrap_or d (some n) = n

abbrev num_or_text : Bytes → Option ℕ → PreSegment
num_or_text seg (some n) = num n
num_or_text seg none = text seg

unfoldable pub classify : Bytes → PreSegment
unfolding parse_u64
classify seg = if all is_ascii_digit seg then num_or_text seg (parse_u64 seg) else text seg

-- `filter(|s| !s.is_empty()).map(..)`.
unfoldable pub classify_all : List Bytes → List PreSegment
unfolding classify
classify_all [] = []
classify_all (seg ∷ segs) =
    if is_empty seg then classify_all segs else classify seg ∷ classify_all segs

abbrev pre_segments : Option Bytes → List PreSegment
pre_segments none = []
pre_segments (some p) = classify_all (split b'.' (before b'+' p))

abbrev stability_of : Option Bytes → ℕ
stability_of none = 1
stability_of (some p) = 0

-- What stands before the pre-release and the build metadata.
unfoldable pub core_of : Bytes → Bytes
unfolding before
core_of v = before b'+' (before b'-' v)

-- The key of a core and of what follows the first `-`.
unfoldable pub key_of : Bytes → Option Bytes → Option VersionKey
key_of core pre =
    let parts = split b'.' core in
    (do
      part ← get_elem? parts 0
      major ← parse_i64 part
      some (record {
        major = major;
        minor = unwrap_or 0 (get_elem? parts 1 >>= parse_i64);
        patch = unwrap_or 0 (get_elem? parts 2 >>= parse_i64);
        stability = stability_of pre;
        pre = pre_segments pre;
      }))

unfoldable pub version_key : Bytes → Option VersionKey
unfolding key_of
version_key v = key_of (core_of v) (after? b'-' v)

unfoldable pub compare_versions : Bytes → Bytes → Option Ordering
unfolding version_key cmp_key
compare_versions a b = do ak ← version_key a; bk ← version_key b; some (cmp_key ak bk)
