-- ===== src/Version/Order.antt =====
-- The order of version keys, crates/tfls-core/src/version_constraint.rs: the derived `Ord` and `Eq`.
use Prim.Native.Nat.{compare}
use terraform_ls_rs.Base.{true, List, [], ◌∷◌, ◌≡◌, refl, ap, ◌↔◌, Ordering, arith}
use terraform_ls_rs.Base.Scan.{bytes_eq_iff}
use terraform_ls_rs.Base.Order.{
  IsTotalOrder, compare-IsTotalOrder, cmp_list, cmp_list-IsTotalOrder, flip,
}
use terraform_ls_rs.Version.Key.{
  PreSegment, num, text, VersionKey, cmp_segment, cmp_key, segment_eq, segments_eq, key_eq,
}

abbrev bytes_order : IsTotalOrder (cmp_list compare)
bytes_order = cmp_list-IsTotalOrder compare-IsTotalOrder

cmp_segment_same : (a : PreSegment) → cmp_segment a a ≡ Ordering.eq
unfolding cmp_segment
cmp_segment_same (num m) = ground arith
cmp_segment_same (text s) = bytes_order.same s

cmp_segment_eq : (a b : PreSegment) → cmp_segment a b ≡ Ordering.eq → a ≡ b
unfolding cmp_segment
cmp_segment_eq (num m) (num n) h = ground arith
cmp_segment_eq (num m) (text t) h = ground arith
cmp_segment_eq (text s) (num n) h = ground arith
cmp_segment_eq (text s) (text t) h = ap text (bytes_order.eq_of_cmp s t h)

cmp_segment_flipped : (a b : PreSegment) → cmp_segment b a ≡ flip (cmp_segment a b)
unfolding cmp_segment
cmp_segment_flipped (num m) (num n) = ground arith
cmp_segment_flipped (num m) (text t) = refl
cmp_segment_flipped (text s) (num n) = refl
cmp_segment_flipped (text s) (text t) = bytes_order.flipped s t

cmp_segment_trans :
    (a b c : PreSegment)
    → cmp_segment a b ≡ Ordering.lt
    → cmp_segment b c ≡ Ordering.lt
    → cmp_segment a c ≡ Ordering.lt
unfolding cmp_segment
cmp_segment_trans (num l) (num m) (num n) h k = ground arith
cmp_segment_trans (num l) b (text t) h k = refl
cmp_segment_trans (num l) (text s) (num n) h k = ground arith
cmp_segment_trans (text s) (num m) c h k = ground arith
cmp_segment_trans (text s) (text t) (num n) h k = ground arith
cmp_segment_trans (text s) (text t) (text u) h k = bytes_order.lt_trans s t u h k

pub cmp_segment-IsTotalOrder : IsTotalOrder cmp_segment
cmp_segment-IsTotalOrder = record {
  same = cmp_segment_same;
  eq_of_cmp = cmp_segment_eq;
  flipped = cmp_segment_flipped;
  lt_trans = cmp_segment_trans;
}

abbrev pre_order : IsTotalOrder (cmp_list cmp_segment)
pre_order = cmp_list-IsTotalOrder cmp_segment-IsTotalOrder

key_same : (a : VersionKey) → cmp_key a a ≡ Ordering.eq
unfolding cmp_key
key_same a = ground (arith, pre_order.same a.pre)

key_eq_of_cmp : (a b : VersionKey) → cmp_key a b ≡ Ordering.eq → a ≡ b
unfolding cmp_key
key_eq_of_cmp a b h = ground (arith, pre_order.eq_of_cmp a.pre b.pre)

key_flipped : (a b : VersionKey) → cmp_key b a ≡ flip (cmp_key a b)
unfolding cmp_key
key_flipped a b = ground (arith, pre_order.flipped a.pre b.pre)

key_trans :
    (a b c : VersionKey)
    → cmp_key a b ≡ Ordering.lt
    → cmp_key b c ≡ Ordering.lt
    → cmp_key a c ≡ Ordering.lt
unfolding cmp_key
key_trans a b c h k = ground (arith, pre_order.lt_trans a.pre b.pre c.pre)

-- The comparison of version keys is a total order: a key equals itself and only itself, swapping
-- the keys flips the answer, and less-than is transitive.
pub cmp_key-IsTotalOrder : IsTotalOrder cmp_key
cmp_key-IsTotalOrder = record {
  same = key_same;
  eq_of_cmp = key_eq_of_cmp;
  flipped = key_flipped;
  lt_trans = key_trans;
}

segment_eq_iff : (a b : PreSegment) → (segment_eq a b ≡ true) ↔ (a ≡ b)
unfolding segment_eq
segment_eq_iff (num m) (num n) = ground arith
segment_eq_iff (num m) (text t) = ground arith
segment_eq_iff (text s) (num n) = ground arith
segment_eq_iff (text s) (text t) = ground (arith, bytes_eq_iff s t)

segments_eq_iff : (xs ys : List PreSegment) → (segments_eq xs ys ≡ true) ↔ (xs ≡ ys)
unfolding segments_eq
segments_eq_iff [] [] = ground arith
segments_eq_iff [] (y ∷ ys) = ground arith
segments_eq_iff (x ∷ xs) [] = ground arith
segments_eq_iff (x ∷ xs) (y ∷ ys) = ground (arith, segment_eq_iff x y, segments_eq_iff xs ys)

-- The derived equality is equality.
pub key_eq_iff : (a b : VersionKey) → (key_eq a b ≡ true) ↔ (a ≡ b)
unfolding key_eq
key_eq_iff a b = ground (arith, segments_eq_iff a.pre b.pre)
