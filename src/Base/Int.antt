-- ===== src/Base/Int.antt =====
-- The signed integers, with the order that the code compares versions by.
use Prim.Native.Nat.{ℕ, zero, suc}
use mathlib.Core.Bool.{Bool, true, false}
use terraform_ls_rs.Base.Tests.{leb, ◌==◌}

-- `negsuc n` is -(n + 1).
pub data ℤ : Type 0 where
  pos : ℕ → ℤ
  negsuc : ℕ → ℤ

abbrev pub leb_ℤ : ℤ → ℤ → Bool
leb_ℤ (pos m) (pos n) = leb m n
leb_ℤ (pos m) (negsuc n) = false
leb_ℤ (negsuc m) (pos n) = true
leb_ℤ (negsuc m) (negsuc n) = leb n m

abbrev pub eq_ℤ : ℤ → ℕ → Bool
eq_ℤ (pos m) n = m == n
eq_ℤ (negsuc m) n = false

abbrev pub succ : ℤ → ℤ
succ (pos m) = pos (suc m)
succ (negsuc zero) = pos zero
succ (negsuc (suc m)) = negsuc m

abbrev pub pred : ℤ → ℤ
pred (pos zero) = negsuc zero
pred (pos (suc m)) = pos m
pred (negsuc m) = negsuc (suc m)
