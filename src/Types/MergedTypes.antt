-- ===== src/Types/MergedTypes.antt =====
-- What `merge_types` of crates/tfls-core/src/variable_type.rs returns for two objects, and on `Any`.
use Prim.Native.Nat.{compare}
use terraform_ls_rs.Base.{
  ℕ, zero, suc, ◌<◌, max, Bool, true, false, ◌||◌, Option, none, some, List, [], ◌∷◌, ◌≡◌, refl,
  sym, ap, ◌∙◌, Ordering, if◌then◌else◌, Bytes, bytes_eq, any, Bool-cases, inl, inr, arith,
}
use terraform_ls_rs.Base.Scan.{bytes_eq_iff}
use terraform_ls_rs.Base.Order.{cmp_list, cmp_list-IsTotalOrder, compare-IsTotalOrder}
use terraform_ls_rs.Types.Shape.{
  VariableType, any as any_type, primitive, list, set, map, tuple, object, Fields, end, field, get,
  insert, contains_key,
}
use terraform_ls_rs.Types.Merged.{get-insert}
use terraform_ls_rs.Types.MergeTypes.{
  type_eq, insert_key, insert_keys, merged_val, merge_keys, merge_pair, merge_within, depth,
  depth_fields, merge_types,
}
use terraform_ls_rs.Types.Enough.{Merge, depth_of, depth-get}
use terraform_ls_rs.Types.Equal.{type_eq-eq, type_eq_refl}
use terraform_ls_rs.Types.Agree.{merge_within-eq}

cmp_eq : (k j : Bytes) → cmp_list compare k j ≡ Ordering.eq → k ≡ j
cmp_eq = (cmp_list-IsTotalOrder compare-IsTotalOrder).eq_of_cmp

-- The keys have `j`.
abbrev has_key : Bytes → List Bytes → Bool
has_key j ks = any (bytes_eq j) ks

has_key-insert_key :
    (j k : Bytes) (ks : List Bytes) → has_key j (insert_key k ks) ≡ (bytes_eq j k || has_key j ks)
unfolding insert_key
has_key-insert_key j k [] = refl
has_key-insert_key j k (i ∷ ks) =
    ground (arith, has_key-insert_key j k ks, cmp_eq k i, bytes_eq_iff j k, bytes_eq_iff j i)

has_key-insert_keys :
    (j : Bytes) (fs : Fields) (ks : List Bytes)
    → has_key j (insert_keys fs ks) ≡ (contains_key j fs || has_key j ks)
unfolding insert_keys contains_key
has_key-insert_keys j end ks = refl
has_key-insert_keys j (field k v fs) ks =
    ground (arith, has_key-insert_key j k (insert_keys fs ks), has_key-insert_keys j fs ks)

get-merge_keys :
    (merge : Merge) (xs ys : Fields) (j : Bytes) (ks : List Bytes) (fs : Fields)
    → get j (merge_keys merge xs ys ks fs)
      ≡ (if has_key j ks then some (merged_val merge (get j xs) (get j ys)) else get j fs)
unfolding merge_keys
get-merge_keys merge xs ys j [] fs = refl
get-merge_keys merge xs ys j (k ∷ ks) fs =
    let v = merged_val merge (get k xs) (get k ys) in
    get-merge_keys merge xs ys j ks (insert k v fs) ∙ elim (Bool-cases (has_key j ks)) [
      | inl later ↦ elim (Bool-cases (bytes_eq j k)) [
        | inl same ↦ rw (later, same) refl
        | inr other ↦ rw (later, other) refl
      ]
      | inr last ↦
          rw (last, get-insert j k v fs)
            (elim (Bool-cases (bytes_eq j k)) [
              | inl same ↦ rw same (
                  ap (λ (i : Bytes). some (merged_val merge (get i xs) (get i ys)))
                    (sym ((bytes_eq_iff j k).0 same)))
              | inr other ↦ rw other refl
            ])
    ]

contains-get : (j : Bytes) (fs : Fields) → (get j fs ≡ none) → contains_key j fs ≡ false
unfolding get contains_key
contains-get j end h = refl
contains-get j (field k v fs) h = ground (arith, contains-get j fs)

contains-some :
    (j : Bytes) (fs : Fields) (v : VariableType) → get j fs ≡ some v → contains_key j fs ≡ true
unfolding get contains_key
contains-some j end v h = absurd (ground arith)
contains-some j (field k w fs) v h = ground (arith, contains-some j fs v)

merge_within_any : (n : ℕ) (a : VariableType) → merge_within (suc n) a any_type ≡ a
unfolding merge_within
merge_within_any n any_type = refl
merge_within_any n (primitive p) = refl
merge_within_any n (list t) = refl
merge_within_any n (set t) = refl
merge_within_any n (map t) = refl
merge_within_any n (tuple ts) = refl
merge_within_any n (object fs) = refl

merge_types_self : (a : VariableType) → merge_types a a ≡ a
unfolding merge_types
merge_types_self a = rw (merge_within, type_eq_refl a) refl

-- Any fuel above the depths of both types gives what `merge_types` gives.
pub merge_within-merge_types :
    (fuel : ℕ) (a b : VariableType)
    → depth a < fuel
    → depth b < fuel
    → merge_within fuel a b ≡ merge_types a b
unfolding merge_types
merge_within-merge_types fuel a b h k =
    merge_within-eq (max (depth a) (depth b)) fuel (suc (max (depth a) (depth b))) a b (omega arith)
      (omega arith) (omega arith) (omega arith)

-- The value under a key of the merged object, from those of its two parts.
abbrev pub united : Option VariableType → Option VariableType → Option VariableType
united none none = none
united (some a) none = some a
united none (some b) = some b
united (some a) (some b) = some (merge_types a b)

united-merged_val :
    (fuel : ℕ) (o p : Option VariableType)
    → depth_of o < fuel
    → depth_of p < fuel
    → (o ≡ none → p ≡ none → ⊥)
    → some (merged_val (merge_within fuel) o p) ≡ united o p
united-merged_val zero o p h k some_ = absurd (omega arith)
united-merged_val (suc n) none none h k some_ = absurd (some_ refl refl)
united-merged_val (suc n) (some a) none h k some_ = ap some (merge_within_any n a)
united-merged_val (suc n) none (some b) h k some_ = ap some (merge_within_any n b)
united-merged_val (suc n) (some a) (some b) h k some_ =
    ap some (merge_within-merge_types (suc n) a b h k)

abbrev fields_in : VariableType → Fields
fields_in (object fs) = fs
fields_in _ = end

united_self : (o : Option VariableType) → o ≡ united o o
united_self none = refl
united_self (some a) = ap some (sym (merge_types_self a))

united_if :
    (fuel : ℕ) (c d : Bool) (o p : Option VariableType)
    → (o ≡ none → c ≡ false)
    → (p ≡ none → d ≡ false)
    → ((v : VariableType) → o ≡ some v → c ≡ true)
    → ((v : VariableType) → p ≡ some v → d ≡ true)
    → depth_of o < fuel
    → depth_of p < fuel
    → (if c || (d || false) then some (merged_val (merge_within fuel) o p) else none) ≡ united o p
united_if fuel c d none none c0 d0 c1 d1 h k = rw (c0 refl, d0 refl) refl
united_if fuel c d none (some b) c0 d0 c1 d1 h k =
    rw (c0 refl, d1 b refl) (united-merged_val fuel none (some b) h k (λ e e'. cc))
united_if fuel c d (some a) p c0 d0 c1 d1 h k =
    rw (c1 a refl) (united-merged_val fuel (some a) p h k (λ e e'. cc))

get-united :
    (xs ys : Fields) (j : Bytes) (fuel : ℕ)
    → depth_fields xs < fuel
    → depth_fields ys < fuel
    → get j (merge_keys (merge_within fuel) xs ys (insert_keys xs (insert_keys ys [])) end)
      ≡ united (get j xs) (get j ys)
get-united xs ys j fuel h k =
    get-merge_keys (merge_within fuel) xs ys j (insert_keys xs (insert_keys ys [])) end
    ∙ ap
        (λ (b : Bool).
          if b then some (merged_val (merge_within fuel) (get j xs) (get j ys)) else get j end)
        (has_key-insert_keys j xs (insert_keys ys [])
          ∙ ap (λ (b : Bool). contains_key j xs || b) (has_key-insert_keys j ys []))
    ∙ unfold get in
      united_if fuel (contains_key j xs) (contains_key j ys) (get j xs) (get j ys)
        (contains-get j xs) (contains-get j ys) (contains-some j xs) (contains-some j ys)
        (omega (arith, depth-get j xs)) (omega (arith, depth-get j ys))

-- The objects are not equal.
merge_types-objects :
    (xs ys : Fields)
    → type_eq (object xs) (object ys) ≡ false
    → merge_types (object xs) (object ys)
      ≡ object (
          merge_keys
            (merge_within (max (depth (object xs)) (depth (object ys))))
            xs
            ys
            (insert_keys xs (insert_keys ys []))
            end)
unfolding merge_types
merge_types-objects xs ys other = rw (merge_within, other) (unfold merge_pair in refl)

-- Two objects merge to an object: under each key stands nothing if neither has it, the value of the
-- one that has it, or the merge of both values.
pub merge_types-object :
    (xs ys : Fields)
    → (fs : Fields) × (merge_types (object xs) (object ys) ≡ object fs)
      × ((j : Bytes) → get j fs ≡ united (get j xs) (get j ys))
merge_types-object xs ys = elim (Bool-cases (type_eq (object xs) (object ys))) [
  | inl same ↦
      let e = type_eq-eq (object xs) (object ys) same in
      (
        xs,
        ap (λ (t : VariableType). merge_types (object xs) t) (sym e) ∙ merge_types_self (object xs),
        λ j.
            united_self (get j xs)
            ∙ ap (λ (t : VariableType). united (get j xs) (get j (fields_in t))) e,
      )
  | inr other ↦ (
    merge_keys (merge_within (max (depth (object xs)) (depth (object ys)))) xs ys
        (insert_keys xs (insert_keys ys [])) end,
    merge_types-objects xs ys other,
    λ j.
        get-united xs ys j (max (depth (object xs)) (depth (object ys)))
          (unfold depth in omega arith) (unfold depth in omega arith),
  )
]
