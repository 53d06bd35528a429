-- ===== src/Base/Scan.antt =====
-- Laws of the text scans: what `count_while`, `trim_end`, `before` and `split` find.
use mathlib.Core.List.{reverse, reverse-append, reverse-reverse}
use terraform_ls_rs.Base.Tests.{Bool-cases}
use terraform_ls_rs.Base.Lists.{length, all, length-append, drop}
use terraform_ls_rs.Base.Text.{
  Bytes, bytes_eq, count_while, blank1, trim_end_rev, trim_end, is_ascii_whitespace,
}
use Prim.Native.Nat.{ℕ, zero, suc, ◌+◌, ◌-◌, ◌≤◌, ◌<◌}
use mathlib.Core.Path.{◌≡◌, refl, sym, ap, ◌∙◌}
use mathlib.Core.Logic.{◌↔◌}
use mathlib.Core.Logic.{inl, inr}
use mathlib.Core.Bool.{Bool, true, false, ◌&&◌}
use mathlib.Core.List.{List, [], ◌∷◌, ◌++◌, append_assoc}
use native.Mathlib.Omega.{arith}

pub length-reverse {ℓ} : {A : Type ℓ} (xs : List A) → length (reverse xs) ≡ length xs
length-reverse [] = refl
length-reverse (x ∷ xs) =
    ap length (reverse-append (x ∷ []) xs)
    ∙ omega (arith, length-append (reverse xs) (x ∷ []), length-reverse xs)

pub all-append {ℓ} :
    {A : Type ℓ} (p : A → Bool) (xs ys : List A) → all p (xs ++ ys) ≡ (all p xs && all p ys)
all-append p [] ys = refl
all-append p (x ∷ xs) ys = ground (arith, all-append p xs ys)

pub all-reverse {ℓ} : {A : Type ℓ} (p : A → Bool) (xs : List A) → all p (reverse xs) ≡ all p xs
all-reverse p [] = refl
all-reverse p (x ∷ xs) =
    ap (all p) (reverse-append (x ∷ []) xs)
    ∙ ground (arith, all-append p (reverse xs) (x ∷ []), all-reverse p xs)

pub count_while-all : (p : ℕ → Bool) (s : Bytes) → all p s ≡ true → count_while p s ≡ length s
unfolding count_while
count_while-all p [] h = refl
count_while-all p (b ∷ s) h = ground (arith, count_while-all p s)

pub count_while_stops :
    (p : ℕ → Bool) (a : Bytes) (x : ℕ) (b : Bytes)
    → p x ≡ false
    → count_while p (a ++ x ∷ b) ≤ length a
unfolding count_while
count_while_stops p [] x b h = ground arith
count_while_stops p (c ∷ a) x b h = ground (arith, count_while_stops p a x b h)

-- A byte where the test fails, with what is on its two sides.
pub all-false :
    (p : ℕ → Bool) (s : Bytes)
    → all p s ≡ false
    → (a : Bytes) × (x : ℕ) × (b : Bytes) × (s ≡ a ++ x ∷ b) × (p x ≡ false)
all-false p [] h = absurd (ground arith)
all-false p (c ∷ s) h = elim (Bool-cases (p c)) [
  | inr stop ↦ ([], c, s, refl, stop)
  | inl on ↦
      let (a, x, b, e, stop) = all-false p s (ground arith) in
      (c ∷ a, x, b, ap (λ (t : Bytes). c ∷ t) e, stop)
]

-- The two trims overlap exactly on a non-empty text that passes the test everywhere.
pub trims_overlap :
    (p : ℕ → Bool) (s : Bytes)
    → all p s ≡ false
    → count_while p s + count_while p (reverse s) < length s
trims_overlap p s h =
    let (a, x, b, e, stop) = all-false p s h in
    let back : reverse s ≡ reverse b ++ x ∷ reverse a =
      ap reverse e
      ∙ reverse-append a (x ∷ b)
      ∙ ap (λ (t : Bytes). t ++ reverse a) (reverse-append (x ∷ []) b)
      ∙ append_assoc (reverse b) (x ∷ []) (reverse a) in
    rw back (
      rw e (
        omega (
          arith,
          count_while_stops p a x b stop,
          count_while_stops p (reverse b) x (reverse a) stop,
          length-append a (x ∷ b),
          length-reverse b,
        )))

trim_end_rev-length : (s : Bytes) → length (trim_end_rev s) ≤ length s
unfolding trim_end_rev
trim_end_rev-length [] = omega arith
trim_end_rev-length (c ∷ []) = ground arith
trim_end_rev-length (c ∷ b ∷ []) = ground (arith, trim_end_rev-length (b ∷ []))
trim_end_rev-length (c ∷ b ∷ a ∷ s) =
    ground
      (arith, trim_end_rev-length (b ∷ a ∷ s), trim_end_rev-length (a ∷ s), trim_end_rev-length s)

blank1_of : (c : ℕ) → is_ascii_whitespace c ≡ true → blank1 c ≡ true
blank1_of c h = ground arith

-- One blank byte at the end goes.
trim_end_rev_blank :
    (c : ℕ) (s : Bytes) → is_ascii_whitespace c ≡ true → trim_end_rev (c ∷ s) ≡ trim_end_rev s
unfolding trim_end_rev
trim_end_rev_blank c [] h = ground arith
trim_end_rev_blank c (b ∷ []) h = rw (blank1_of c h)
trim_end_rev_blank c (b ∷ a ∷ s) h = rw (blank1_of c h)

solid_rev : (c : ℕ) (s : Bytes) → trim_end_rev (c ∷ s) ≡ c ∷ s → is_ascii_whitespace c ≡ false
solid_rev c s h = elim (Bool-cases (is_ascii_whitespace c)) [
  | inr solid ↦ solid
  | inl blank ↦
      absurd
        (omega (arith, ap length (sym (trim_end_rev_blank c s blank) ∙ h), trim_end_rev-length s))
]

first_solid : (s : Bytes) → trim_end_rev s ≡ s → count_while is_ascii_whitespace s ≡ 0
unfolding count_while
first_solid [] h = refl
first_solid (c ∷ s) h = rw (solid_rev c s h)

count_while-append-zero :
    (p : ℕ → Bool) (s t : Bytes) → 0 < length s → count_while p s ≡ 0 → count_while p (s ++ t) ≡ 0
unfolding count_while
count_while-append-zero p [] t h e = absurd (omega arith)
count_while-append-zero p (b ∷ s) t h e = ground arith

pub count_while-append :
    (p : ℕ → Bool) (s t : Bytes)
    → all p s ≡ true
    → count_while p (s ++ t) ≡ length s + count_while p t
unfolding count_while
count_while-append p [] t h = omega arith
count_while-append p (b ∷ s) t h = ground (arith, count_while-append p s t)

-- A text that `trim_end` leaves alone has no whitespace at its end, whatever stands in front of it.
pub trim_end-solid :
    (front s : Bytes)
    → 0 < length s
    → trim_end s ≡ s
    → count_while is_ascii_whitespace (reverse (front ++ s)) ≡ 0
unfolding trim_end
trim_end-solid front s long h =
    let kept : trim_end_rev (reverse s) ≡ reverse s =
      sym (reverse-reverse (trim_end_rev (reverse s))) ∙ ap reverse h in
    rw (reverse-append front s) (
      count_while-append-zero is_ascii_whitespace (reverse s) (reverse front)
        (omega (arith, length-reverse s)) (first_solid (reverse s) kept))

pub count_while_stop : (p : ℕ → Bool) (b : ℕ) (s : Bytes) → p b ≡ false → count_while p (b ∷ s) ≡ 0
unfolding count_while
count_while_stop p b s h = rw h

-- The equality of texts is equality.
pub bytes_eq_iff : (s t : Bytes) → (bytes_eq s t ≡ true) ↔ (s ≡ t)
unfolding bytes_eq
bytes_eq_iff [] [] = ground arith
bytes_eq_iff [] (y ∷ ys) = ground arith
bytes_eq_iff (x ∷ xs) [] = ground arith
bytes_eq_iff (x ∷ xs) (y ∷ ys) = ground (arith, bytes_eq_iff xs ys)

pub length-drop : (n : ℕ) (s : Bytes) → length (drop n s) ≡ length s - n
length-drop zero s = omega arith
length-drop (suc n) [] = omega arith
length-drop (suc n) (b ∷ s) = omega (arith, length-drop n s)

pub count_while-le : (p : ℕ → Bool) (s : Bytes) → count_while p s ≤ length s
unfolding count_while
count_while-le p [] = omega arith
count_while-le p (b ∷ s) = ground (arith, count_while-le p s)
