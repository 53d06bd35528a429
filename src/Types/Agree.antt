-- ===== src/Types/Agree.antt =====
-- The fuel of `merge_types`, crates/tfls-core/src/variable_type.rs, is enough: more of it gives the
-- same merge.
use terraform_ls_rs.Base.{
  ℕ, zero, suc, ◌≤◌, ◌<◌, Option, none, some, List, [], ◌∷◌, ◌≡◌, refl, ap, ap₂, ◌∙◌, ◌==◌, Bytes,
  Bool-cases, inl, inr, arith,
}
use terraform_ls_rs.Types.Shape.{
  VariableType, any, primitive, list, set, map, tuple, object, Items, nil, cons, Fields, end,
  items_len, get, insert,
}
use terraform_ls_rs.Types.MergeTypes.{
  fold_items, chain_items, fold_all, zip_items, insert_keys, merged_val, merge_keys, merge_pair,
  merge_within, depth, depth_items, depth_fields,
}
use terraform_ls_rs.Types.Enough.{
  Merge, Bounded, depth_of, depth-get, depth-chain_items, merge_within-Bounded,
}

-- The two agree on types of this depth at most.
abbrev Agree : ℕ → Merge → Merge → Type 0
Agree d f g = (a b : VariableType) → depth a ≤ d → depth b ≤ d → f a b ≡ g a b

module _ (f g : Merge) (bounded : Bounded f) (d : ℕ) (agree : Agree d f g) where
  fold_items-eq :
      (acc : VariableType) (ts : Items)
      → depth acc ≤ d
      → depth_items ts ≤ d
      → fold_items f acc ts ≡ fold_items g acc ts
  unfolding fold_items depth
  fold_items-eq acc nil h k = refl
  fold_items-eq acc (cons t ts) h k =
      fold_items-eq (f acc t) ts (bounded d acc t h (omega arith)) (omega arith)
      ∙ ap (λ (a : VariableType). fold_items g a ts) (agree acc t h (omega arith))

  fold_all-eq : (ts : Items) → depth_items ts ≤ d → fold_all f ts ≡ fold_all g ts
  unfolding fold_all depth
  fold_all-eq nil h = refl
  fold_all-eq (cons t ts) h = fold_items-eq t ts (omega arith) (omega arith)

  zip_items-eq :
      (xs ys : Items)
      → depth_items xs ≤ d
      → depth_items ys ≤ d
      → zip_items f xs ys ≡ zip_items g xs ys
  unfolding zip_items depth
  zip_items-eq nil ys h k = refl
  zip_items-eq (cons x xs) nil h k = refl
  zip_items-eq (cons x xs) (cons y ys) h k =
      ap₂ (λ (t : VariableType) (ts : Items). cons t ts) (agree x y (omega arith) (omega arith))
        (zip_items-eq xs ys (omega arith) (omega arith))

  merged_val-eq :
      (o p : Option VariableType)
      → depth_of o ≤ d
      → depth_of p ≤ d
      → merged_val f o p ≡ merged_val g o p
  merged_val-eq (some a) (some b) h k = agree a b h k
  merged_val-eq (some a) none h k = agree a any h (unfold depth in omega arith)
  merged_val-eq none (some b) h k = agree b any k (unfold depth in omega arith)
  merged_val-eq none none h k = refl

  merge_keys-eq :
      (xs ys : Fields) (ks : List Bytes) (fs : Fields)
      → depth_fields xs ≤ d
      → depth_fields ys ≤ d
      → merge_keys f xs ys ks fs ≡ merge_keys g xs ys ks fs
  unfolding merge_keys
  merge_keys-eq xs ys [] fs h k = refl
  merge_keys-eq xs ys (key ∷ ks) fs h k =
      merge_keys-eq xs ys ks (insert key (merged_val f (get key xs) (get key ys)) fs) h k
      ∙ ap (λ (v : VariableType). merge_keys g xs ys ks (insert key v fs))
          (merged_val-eq (get key xs) (get key ys) (omega (arith, depth-get key xs))
            (omega (arith, depth-get key ys)))

  merge_pair-eq :
      (a b : VariableType) → depth a ≤ suc d → depth b ≤ suc d → merge_pair f a b ≡ merge_pair g a b
  unfolding merge_pair depth
  merge_pair-eq (list x) (list y) h k = ap list (agree x y (omega arith) (omega arith))
  merge_pair-eq (set x) (set y) h k = ap set (agree x y (omega arith) (omega arith))
  merge_pair-eq (map x) (map y) h k = ap map (agree x y (omega arith) (omega arith))
  merge_pair-eq (tuple xs) (tuple ys) h k = elim (Bool-cases (items_len xs == items_len ys)) [
    | inl same ↦ rw same (ap tuple (zip_items-eq xs ys (omega arith) (omega arith)))
    | inr other ↦ rw other (
        ap list
          (fold_all-eq (chain_items xs ys) (depth-chain_items d xs ys (omega arith) (omega arith))))
  ]
  merge_pair-eq (list x) (tuple ys) h k = ap list (fold_items-eq x ys (omega arith) (omega arith))
  merge_pair-eq (tuple ys) (list x) h k = ap list (fold_items-eq x ys (omega arith) (omega arith))
  merge_pair-eq (set x) (tuple ys) h k = ap list (fold_items-eq x ys (omega arith) (omega arith))
  merge_pair-eq (tuple ys) (set x) h k = ap list (fold_items-eq x ys (omega arith) (omega arith))
  merge_pair-eq (object xs) (object ys) h k =
      ap object
        (merge_keys-eq xs ys (insert_keys xs (insert_keys ys [])) end (omega arith) (omega arith))
  merge_pair-eq _ _ h k = refl

merge_pair-flat :
    (f g : Merge) (a b : VariableType)
    → depth a ≤ 0
    → depth b ≤ 0
    → merge_pair f a b ≡ merge_pair g a b
unfolding merge_pair depth
merge_pair-flat f g any b h k = refl
merge_pair-flat f g (primitive p) b h k = refl
merge_pair-flat f g (list x) b h k = absurd (omega arith)
merge_pair-flat f g (set x) b h k = absurd (omega arith)
merge_pair-flat f g (map x) b h k = absurd (omega arith)
merge_pair-flat f g (tuple x) b h k = absurd (omega arith)
merge_pair-flat f g (object x) b h k = absurd (omega arith)

merge_step :
    (m n : ℕ) (a b : VariableType)
    → merge_pair (merge_within m) a b ≡ merge_pair (merge_within n) a b
    → merge_within (suc m) a b ≡ merge_within (suc n) a b
unfolding merge_within
merge_step m n a b e = ground arith

-- With any two amounts of fuel above the depths of both types, `merge_types` computes the same.
pub merge_within-eq :
    (d m n : ℕ) (a b : VariableType)
    → d < m
    → d < n
    → depth a ≤ d
    → depth b ≤ d
    → merge_within m a b ≡ merge_within n a b
merge_within-eq d zero n a b h k p q = absurd (omega arith)
merge_within-eq d (suc m) zero a b h k p q = absurd (omega arith)
merge_within-eq zero (suc m) (suc n) a b h k p q =
    merge_step m n a b (merge_pair-flat (merge_within m) (merge_within n) a b p q)
merge_within-eq (suc d) (suc m) (suc n) a b h k p q = merge_step m n a b (
    merge_pair-eq (merge_within m) (merge_within n) (merge_within-Bounded m) d
      (λ x y u v. merge_within-eq d m n x y (omega arith) (omega arith) u v) a b p q)
