-- ===== src/Base/Order.antt =====
-- Rust's derived `Ord`: comparisons, their laws, and the lexicographic combinations.
use Prim.Native.Nat.{compare, Ordering}
use mathlib.Core.Path.{◌≡◌, refl}
use mathlib.Core.Bool.{Bool, true, false}
use mathlib.Core.List.{List, [], ◌∷◌}
use native.Mathlib.Omega.{arith}

abbrev pub then_with : Ordering → Ordering → Ordering
then_with Ordering.eq second = second
then_with first _ = first

abbrev pub flip : Ordering → Ordering
flip Ordering.lt = Ordering.gt
flip Ordering.eq = Ordering.eq
flip Ordering.gt = Ordering.lt

abbrev pub is_eq : Ordering → Bool
is_eq Ordering.eq = true
is_eq _ = false

abbrev pub is_lt : Ordering → Bool
is_lt Ordering.lt = true
is_lt _ = false

abbrev pub is_ge : Ordering → Bool
is_ge Ordering.lt = false
is_ge _ = true

-- What a total order's comparison satisfies.
pub record IsTotalOrder {ℓ} {A : Type ℓ} (cmp : A → A → Ordering) : Type ℓ where
  pub same : (a : A) → cmp a a ≡ Ordering.eq
  pub eq_of_cmp : (a b : A) → cmp a b ≡ Ordering.eq → a ≡ b
  pub flipped : (a b : A) → cmp b a ≡ flip (cmp a b)
  pub lt_trans : (a b c : A) → cmp a b ≡ Ordering.lt → cmp b c ≡ Ordering.lt → cmp a c ≡ Ordering.lt

pub compare-IsTotalOrder : IsTotalOrder compare
compare-IsTotalOrder = record {
  same = λ a. ground arith;
  eq_of_cmp = λ a b h. ground arith;
  flipped = λ a b. ground arith;
  lt_trans = λ a b c h k. ground arith;
}

-- `Ord` of a slice: element by element, and a proper prefix is less.
module _ {ℓ} {A : Type ℓ} (cmp : A → A → Ordering) where
  unfoldable pub cmp_list : List A → List A → Ordering
  cmp_list [] [] = Ordering.eq
  cmp_list [] (y ∷ ys) = Ordering.lt
  cmp_list (x ∷ xs) [] = Ordering.gt
  cmp_list (x ∷ xs) (y ∷ ys) = then_with (cmp x y) (cmp_list xs ys)

module _ {ℓ} {A : Type ℓ} {cmp : A → A → Ordering} (o : IsTotalOrder cmp) where
  cmp_list_same : (xs : List A) → cmp_list cmp xs xs ≡ Ordering.eq
  unfolding cmp_list
  cmp_list_same [] = refl
  cmp_list_same (x ∷ xs) = ground (arith, o.same x, cmp_list_same xs)

  cmp_list_eq : (xs ys : List A) → cmp_list cmp xs ys ≡ Ordering.eq → xs ≡ ys
  unfolding cmp_list
  cmp_list_eq [] [] h = refl
  cmp_list_eq [] (y ∷ ys) h = ground arith
  cmp_list_eq (x ∷ xs) [] h = ground arith
  cmp_list_eq (x ∷ xs) (y ∷ ys) h = ground (arith, o.eq_of_cmp x y, cmp_list_eq xs ys)

  cmp_list_flipped : (xs ys : List A) → cmp_list cmp ys xs ≡ flip (cmp_list cmp xs ys)
  unfolding cmp_list
  cmp_list_flipped [] [] = refl
  cmp_list_flipped [] (y ∷ ys) = refl
  cmp_list_flipped (x ∷ xs) [] = refl
  cmp_list_flipped (x ∷ xs) (y ∷ ys) = ground (arith, o.flipped x y, cmp_list_flipped xs ys)

  cmp_list_trans :
      (xs ys zs : List A)
      → cmp_list cmp xs ys ≡ Ordering.lt
      → cmp_list cmp ys zs ≡ Ordering.lt
      → cmp_list cmp xs zs ≡ Ordering.lt
  unfolding cmp_list
  cmp_list_trans [] [] zs h k = ground arith
  cmp_list_trans [] (y ∷ ys) [] h k = ground arith
  cmp_list_trans [] (y ∷ ys) (z ∷ zs) h k = refl
  cmp_list_trans (x ∷ xs) [] zs h k = ground arith
  cmp_list_trans (x ∷ xs) (y ∷ ys) [] h k = ground arith
  cmp_list_trans (x ∷ xs) (y ∷ ys) (z ∷ zs) h k =
      ground (
        arith,
        o.eq_of_cmp x y,
        o.eq_of_cmp y z,
        o.same x,
        o.lt_trans x y z,
        cmp_list_trans xs ys zs,
      )

  pub cmp_list-IsTotalOrder : IsTotalOrder (cmp_list cmp)
  cmp_list-IsTotalOrder = record {
    same = cmp_list_same;
    eq_of_cmp = cmp_list_eq;
    flipped = cmp_list_flipped;
    lt_trans = cmp_list_trans;
  }

-- At-least is reflexive and transitive, and less-than and at-least exclude one another.
module _ {ℓ} {A : Type ℓ} {cmp : A → A → Ordering} (o : IsTotalOrder cmp) where
  pub ge_refl : (a : A) → is_ge (cmp a a) ≡ true
  ge_refl a = ground (arith, o.same a)

  pub ge_trans :
      (a b c : A) → is_ge (cmp a b) ≡ true → is_ge (cmp b c) ≡ true → is_ge (cmp a c) ≡ true
  ge_trans a b c h k = ground (
    arith,
    o.flipped a b,
    o.flipped b c,
    o.flipped a c,
    o.eq_of_cmp a b,
    o.eq_of_cmp b c,
    o.lt_trans c b a,
    o.same a,
    o.same b,
  )

  pub ge_of_lt : (a b : A) → is_lt (cmp a b) ≡ true → is_ge (cmp b a) ≡ true
  ge_of_lt a b h = ground (arith, o.flipped a b)

  pub ge_of_flip_lt : (a b : A) → is_lt (flip (cmp a b)) ≡ true → is_ge (cmp a b) ≡ true
  ge_of_flip_lt a b h = ground arith
