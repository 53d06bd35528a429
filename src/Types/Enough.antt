-- ===== src/Types/Enough.antt =====
-- The fuel of `merge_types`, crates/tfls-core/src/variable_type.rs, is enough: the merge of two types
-- is no deeper than they are, and more fuel gives the same.
use terraform_ls_rs.Base.{
  ℕ, zero, suc, ◌-◌, ◌≤◌, Bool, true, false, Option, none, some, List, [], ◌∷◌, ◌==◌, if◌then◌else◌,
  Bytes, Bool-cases, inl, inr, arith,
}
use terraform_ls_rs.Types.Shape.{
  VariableType, any, list, set, map, tuple, object, Items, nil, cons, Fields, end, field, is_any,
  items_len, get, insert,
}
use terraform_ls_rs.Types.MergeTypes.{
  type_eq, fold_items, chain_items, fold_all, zip_items, insert_keys, merged_val, merge_keys,
  merge_pair, merge_within, depth, depth_items, depth_fields,
}

abbrev pub Merge : Type 0
Merge = VariableType → VariableType → VariableType

-- No merge of two types is deeper than they are.
abbrev pub Bounded : Merge → Type 0
Bounded merge = (d : ℕ) (a b : VariableType) → depth a ≤ d → depth b ≤ d → depth (merge a b) ≤ d

abbrev pub depth_of : Option VariableType → ℕ
depth_of none = 0
depth_of (some v) = depth v

pub depth-get : (k : Bytes) (fs : Fields) → depth_of (get k fs) ≤ depth_fields fs
unfolding get depth
depth-get k end = omega arith
depth-get k (field j w fs) = ground (arith, depth-get k fs)

depth-insert :
    (d : ℕ) (k : Bytes) (v : VariableType) (fs : Fields)
    → depth v ≤ d
    → depth_fields fs ≤ d
    → depth_fields (insert k v fs) ≤ d
unfolding insert depth
depth-insert d k v end h l = omega arith
depth-insert d k v (field j w fs) h l = ground (arith, depth-insert d k v fs)

pub depth-chain_items :
    (d : ℕ) (xs ys : Items)
    → depth_items xs ≤ d
    → depth_items ys ≤ d
    → depth_items (chain_items xs ys) ≤ d
unfolding chain_items depth
depth-chain_items d nil ys h k = k
depth-chain_items d (cons x xs) ys h k = omega (arith, depth-chain_items d xs ys (omega arith) k)

module _ (merge : Merge) (bounded : Bounded merge) where
  depth-fold_items :
      (d : ℕ) (acc : VariableType) (ts : Items)
      → depth acc ≤ d
      → depth_items ts ≤ d
      → depth (fold_items merge acc ts) ≤ d
  unfolding fold_items depth
  depth-fold_items d acc nil h k = h
  depth-fold_items d acc (cons t ts) h k =
      depth-fold_items d (merge acc t) ts (bounded d acc t h (omega arith)) (omega arith)

  depth-fold_all : (d : ℕ) (ts : Items) → depth_items ts ≤ d → depth (fold_all merge ts) ≤ d
  unfolding fold_all depth
  depth-fold_all d nil h = omega arith
  depth-fold_all d (cons t ts) h = depth-fold_items d t ts (omega arith) (omega arith)

  depth-zip_items :
      (d : ℕ) (xs ys : Items)
      → depth_items xs ≤ d
      → depth_items ys ≤ d
      → depth_items (zip_items merge xs ys) ≤ d
  unfolding zip_items depth
  depth-zip_items d nil ys h k = omega arith
  depth-zip_items d (cons x xs) nil h k = omega arith
  depth-zip_items d (cons x xs) (cons y ys) h k = omega (
    arith,
    bounded d x y (omega arith) (omega arith),
    depth-zip_items d xs ys (omega arith) (omega arith),
  )

  depth-merged_val :
      (d : ℕ) (o p : Option VariableType)
      → depth_of o ≤ d
      → depth_of p ≤ d
      → depth (merged_val merge o p) ≤ d
  unfolding depth
  depth-merged_val d (some a) (some b) h k = bounded d a b h k
  depth-merged_val d (some a) none h k = bounded d a any h (omega arith)
  depth-merged_val d none (some b) h k = bounded d b any k (omega arith)
  depth-merged_val d none none h k = omega arith

  depth-merge_keys :
      (d : ℕ) (xs ys : Fields) (ks : List Bytes) (fs : Fields)
      → depth_fields xs ≤ d
      → depth_fields ys ≤ d
      → depth_fields fs ≤ d
      → depth_fields (merge_keys merge xs ys ks fs) ≤ d
  unfolding merge_keys
  depth-merge_keys d xs ys [] fs h k l = l
  depth-merge_keys d xs ys (key ∷ ks) fs h k l =
      let v = merged_val merge (get key xs) (get key ys) in
      depth-merge_keys d xs ys ks (insert key v fs) h k (
        depth-insert d key v fs
          (depth-merged_val d (get key xs) (get key ys) (omega (arith, depth-get key xs))
            (omega (arith, depth-get key ys)))
          l)

  depth-merge_pair :
      (d : ℕ) (a b : VariableType) → depth a ≤ d → depth b ≤ d → depth (merge_pair merge a b) ≤ d
  unfolding merge_pair depth
  depth-merge_pair d (list x) (list y) h k =
      omega (arith, bounded (d - 1) x y (omega arith) (omega arith))
  depth-merge_pair d (set x) (set y) h k =
      omega (arith, bounded (d - 1) x y (omega arith) (omega arith))
  depth-merge_pair d (map x) (map y) h k =
      omega (arith, bounded (d - 1) x y (omega arith) (omega arith))
  depth-merge_pair d (tuple xs) (tuple ys) h k = elim (Bool-cases (items_len xs == items_len ys)) [
    | inl same ↦ rw same (omega (arith, depth-zip_items (d - 1) xs ys (omega arith) (omega arith)))
    | inr other ↦ rw other (
        omega (
          arith,
          depth-fold_all (d - 1) (chain_items xs ys)
              (depth-chain_items (d - 1) xs ys (omega arith) (omega arith)),
        ))
  ]
  depth-merge_pair d (list x) (tuple ys) h k =
      omega (arith, depth-fold_items (d - 1) x ys (omega arith) (omega arith))
  depth-merge_pair d (tuple ys) (list x) h k =
      omega (arith, depth-fold_items (d - 1) x ys (omega arith) (omega arith))
  depth-merge_pair d (set x) (tuple ys) h k =
      omega (arith, depth-fold_items (d - 1) x ys (omega arith) (omega arith))
  depth-merge_pair d (tuple ys) (set x) h k =
      omega (arith, depth-fold_items (d - 1) x ys (omega arith) (omega arith))
  depth-merge_pair d (object xs) (object ys) h k = omega (
    arith,
    depth-merge_keys (d - 1) xs ys (insert_keys xs (insert_keys ys [])) end (omega arith)
        (omega arith) (omega arith),
  )
  depth-merge_pair d _ _ h k = omega arith

depth_either :
    (p q r : Bool) (d : ℕ) (a b c : VariableType)
    → depth a ≤ d
    → depth b ≤ d
    → depth c ≤ d
    → depth (if p then a else if q then b else if r then a else c) ≤ d
depth_either true q r d a b c h k l = h
depth_either false true r d a b c h k l = k
depth_either false false true d a b c h k l = h
depth_either false false false d a b c h k l = l

pub merge_within-Bounded : (fuel : ℕ) → Bounded (merge_within fuel)
unfolding merge_within
merge_within-Bounded zero d a b h k = unfold depth in omega arith
merge_within-Bounded (suc fuel) d a b h k =
    depth_either (type_eq a b) (is_any a) (is_any b) d a b (merge_pair (merge_within fuel) a b) h k
      (depth-merge_pair (merge_within fuel) (merge_within-Bounded fuel) d a b h k)
