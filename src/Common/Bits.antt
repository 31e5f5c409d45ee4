-- ===== src/Common/Bits.antt =====
-- `&` with a single bit and with a mask of low bits, as arithmetic. Both follow the recursion on
-- binary digits that `bit_and` stands for, whose fuel is a bound on the first number.
use Prim.Native.Nat.{
  ℕ, zero, suc, ◌+◌, ◌-◌, ◌*◌, ◌/◌, ◌%◌, ◌^◌, ◌≤◌, ◌<◌, min, bit_and, digits, bit_and-bitwise,
}
use mathlib.Core.Path.{◌≡◌, refl, ap, sym, ◌∙◌}
use native.Mathlib.Nat.{
  two-pow-succ, one-le-pow, div-div-eq-div-mul, zero-mod, zero-div, mul-add-mod_self_left,
  mod-eq_of_lt, mod-lt, div-add-mod, le_refl,
}
use native.Mathlib.Omega.{arith}

abbrev and_digits : ℕ → ℕ → ℕ → ℕ
and_digits n a b = digits (λ b. zero) min n a b

and_digits-zero : (n a : ℕ) → and_digits n a 0 ≡ 0
and_digits-zero zero a = refl
and_digits-zero (suc n) zero = refl
and_digits-zero (suc n) (suc a) = omega (arith, and_digits-zero n (suc a / 2))

half-two-pow : (k : ℕ) → 2 ^ suc k / 2 ≡ 2 ^ k
half-two-pow k = omega (arith, two-pow-succ k)

half-mask : (k : ℕ) → (2 ^ suc k - 1) / 2 ≡ 2 ^ k - 1
half-mask k = omega (arith, two-pow-succ k, one-le-pow k 2)

div-two-pow : (a k : ℕ) → a / 2 / 2 ^ k ≡ a / 2 ^ suc k
div-two-pow a k =
    rw (div-div-eq-div-mul a 2 (2 ^ k)) (ap (λ m. a / m) (omega (arith, two-pow-succ k)))

mod-two-pow : (a k : ℕ) → a % 2 ^ suc k ≡ a / 2 % 2 ^ k * 2 + a % 2
mod-two-pow a k =
    ap (λ b. b % 2 ^ suc k) split ∙ (mul-add-mod_self_left (2 ^ suc k) q low ∙ mod-eq_of_lt small)
  where
    q : ℕ
    q = a / 2 / 2 ^ k

    low : ℕ
    low = a / 2 % 2 ^ k * 2 + a % 2

    small : low < 2 ^ suc k
    small = omega (arith, two-pow-succ k, mod-lt (a / 2) (one-le-pow k 2 (omega arith)))

    split : a ≡ 2 ^ suc k * q + low
    split = omega (arith, ap (λ (t : ℕ). t * q) (two-pow-succ k), div-add-mod (a / 2) (2 ^ k))

and_digits-pow : (n k a : ℕ) → a ≤ n → and_digits n a (2 ^ k) ≡ a / 2 ^ k % 2 * 2 ^ k
and_digits-pow zero k zero h = rw (zero-div, zero-mod) (omega arith)
and_digits-pow zero k (suc a) h = absurd (omega arith)
and_digits-pow (suc n) k zero h = rw (zero-div, zero-mod) (omega arith)
and_digits-pow (suc n) zero (suc a) h = omega (arith, and_digits-zero n (suc a / 2))
and_digits-pow (suc n) (suc k) (suc a) h =
    rw (half-two-pow k, and_digits-pow n k (suc a / 2) (omega arith), div-two-pow (suc a) k)
      (omega (arith, two-pow-succ k, ap (λ (t : ℕ). suc a / 2 ^ suc k % 2 * t) (two-pow-succ k)))

-- `a & (1 << k)`.
pub bit_and-pow : (k a : ℕ) → bit_and a (2 ^ k) ≡ a / 2 ^ k % 2 * 2 ^ k
bit_and-pow k a = rw bit_and-bitwise (and_digits-pow a k a (le_refl a))

and_digits-mask : (n k a : ℕ) → a ≤ n → and_digits n a (2 ^ k - 1) ≡ a % 2 ^ k
and_digits-mask zero k zero h = sym (zero-mod (2 ^ k))
and_digits-mask zero k (suc a) h = absurd (omega arith)
and_digits-mask (suc n) k zero h = sym (zero-mod (2 ^ k))
and_digits-mask (suc n) zero (suc a) h = omega (arith, and_digits-zero n (suc a / 2))
and_digits-mask (suc n) (suc k) (suc a) h =
    rw (half-mask k, and_digits-mask n k (suc a / 2) (omega arith), mod-two-pow (suc a) k)
      (omega (arith, two-pow-succ k, one-le-pow k 2))

-- `a & (size - 1)` where the size is a power of two.
pub bit_and-mask : (k a : ℕ) → bit_and a (2 ^ k - 1) ≡ a % 2 ^ k
bit_and-mask k a = rw bit_and-bitwise (and_digits-mask a k a (le_refl a))
