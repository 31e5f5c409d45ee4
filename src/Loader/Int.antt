-- ===== src/Loader/Int.antt =====
-- The integers that C functions return, and their tests. A pointer is an integer, NULL is 0.
use bpf_ringbuf.Common.{ℕ, zero, suc, Bool, true, false, ◌==◌, ◌≡◌, ◌<◌, arith}

pub data ℤ : Type 0 where
  pos : ℕ → ℤ
  negsuc : ℕ → ℤ

-- `a == 0`, which is also `!a`.
abbrev pub is_zero : ℤ → Bool
is_zero (pos zero) = true
is_zero (pos (suc n)) = false
is_zero (negsuc n) = false

-- `a < 0`
abbrev pub is_negative : ℤ → Bool
is_negative (pos n) = false
is_negative (negsuc n) = true

-- `a < 1`
abbrev pub is_below_one : ℤ → Bool
is_below_one (pos zero) = true
is_below_one (pos (suc n)) = false
is_below_one (negsuc n) = true

abbrev pub same : ℤ → ℤ → Bool
same (pos m) (pos n) = m == n
same (negsuc m) (negsuc n) = m == n
same (pos m) (negsuc n) = false
same (negsuc m) (pos n) = false

-- `-a`
abbrev pub negate : ℤ → ℤ
negate (pos zero) = pos zero
negate (pos (suc n)) = negsuc n
negate (negsuc n) = pos (suc n)

-- The number of iterations of a loop that counts from 0 up to `a`.
abbrev pub to_nat : ℤ → ℕ
to_nat (pos n) = n
to_nat (negsuc n) = 0

pub same_refl : (a : ℤ) → same a a ≡ true
same_refl (pos n) = ground arith
same_refl (negsuc n) = ground arith

pub is_below_one_lem : (a : ℤ) → is_below_one a ≡ false → 0 < to_nat a
is_below_one_lem (pos zero) h = ground arith
is_below_one_lem (pos (suc n)) h = omega arith
is_below_one_lem (negsuc n) h = ground arith
