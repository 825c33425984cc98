-- ===== src/Base/Int.antt =====
-- C `int`: integers over the native numbers. The model does not bound them: the code only adds 1
-- to an `int`, compares it and passes it on.
use Prim.Native.Nat.{ℕ, zero, suc, ◌+◌, ◌-◌}
use mathlib.Core.Path.{◌≡◌}
use mathlib.Core.Bool.{Bool, true, false}
use native.Mathlib.Omega.{arith}
use mpi_ruby.Base.Tests.{◌==◌, ltb, leb, if◌then◌else◌}

-- `negsuc n` is -(n + 1).
pub data ℤ : Type 0 where
  pos : ℕ → ℤ
  negsuc : ℕ → ℤ

-- `n + 1`
abbrev pub succ : ℤ → ℤ
succ (pos n) = pos (suc n)
succ (negsuc zero) = pos 0
succ (negsuc (suc n)) = negsuc n

-- How often a loop `for (i = 0; i < n; i++)` runs, and how many cells `ALLOCA_N(T, n)` has.
abbrev pub pos_part : ℤ → ℕ
pos_part (pos n) = n
pos_part (negsuc _) = 0

abbrev pub eq_int : ℤ → ℤ → Bool
eq_int (pos a) (pos b) = a == b
eq_int (pos _) (negsuc _) = false
eq_int (negsuc _) (pos _) = false
eq_int (negsuc a) (negsuc b) = a == b

abbrev pub is_negative : ℤ → Bool
is_negative (pos _) = false
is_negative (negsuc _) = true

-- `a < b`
abbrev pub lt_int : ℤ → ℤ → Bool
lt_int (pos a) (pos b) = ltb a b
lt_int (pos _) (negsuc _) = false
lt_int (negsuc _) (pos _) = true
lt_int (negsuc a) (negsuc b) = ltb b a

-- `n > 0`
abbrev pub is_positive : ℤ → Bool
is_positive (pos (suc _)) = true
is_positive _ = false

-- `a - b`
abbrev pub sub_nat : ℕ → ℕ → ℤ
sub_nat a b = if leb b a then pos (a - b) else negsuc (b - a - 1)

infixl 6 ◌+ℤ◌
abbrev pub ◌+ℤ◌ : ℤ → ℤ → ℤ
pos a +ℤ pos b = pos (a + b)
pos a +ℤ negsuc b = sub_nat a (suc b)
negsuc a +ℤ pos b = sub_nat b (suc a)
negsuc a +ℤ negsuc b = negsuc (suc (a + b))

pub eq_int_refl : (a : ℤ) → eq_int a a ≡ true
eq_int_refl (pos a) = ground arith
eq_int_refl (negsuc a) = ground arith

pub eq_of_eq_int : (a b : ℤ) → eq_int a b ≡ true → a ≡ b
eq_of_eq_int (pos a) (pos b) h = ground arith
eq_of_eq_int (pos a) (negsuc b) h = cc
eq_of_eq_int (negsuc a) (pos b) h = cc
eq_of_eq_int (negsuc a) (negsuc b) h = ground arith
