-- ===== src/Bpf/Sizes.antt =====
-- The sizes that the programs ask for: `switch(i)` over the random number, with the macros `KB_2`
-- and so on. `byte` is the macro BYTE.
use native.Mathlib.Nat.{mul-le-mul_right}
use bpf_ringbuf.Common.{
  ℕ, ◌+◌, ◌*◌, ◌%◌, ◌^◌, ◌≤◌, ◌<◌, ◌≡◌, refl, ap, [], ◌∷◌, Bool, true, arith, ◌==◌, get_or,
  all_below_sound,
}
use bpf_ringbuf.Header.{roundup_len}
use bpf_ringbuf.Header.Bounds.{roundup_len_lem}

-- `KB_2`, `KB_3` and so on: so many times BYTE.
abbrev pub kb : ℕ → ℕ → ℕ
kb k byte = k * byte

-- multi_ringbuf_reserve.bpf.c: the cases 0 to 6, and the default.
unfoldable pub reserve_size : ℕ → ℕ → ℕ
reserve_size byte i = kb (get_or (2 ∷ 3 ∷ 4 ∷ 5 ∷ 6 ∷ 7 ∷ 8 ∷ []) i 8) byte

-- single_ringbuf_reserve.bpf.c: the cases 0 to 18, and the default.
unfoldable pub single_size : ℕ → ℕ → ℕ
single_size byte i =
    kb
      (get_or
        (2 ∷ 3 ∷ 4 ∷ 5 ∷ 6 ∷ 7 ∷ 8 ∷ 9 ∷ 10 ∷ 11 ∷ 12 ∷ 13 ∷ 14 ∷ 15 ∷ 16 ∷ 17 ∷ 18 ∷ 19 ∷ 20 ∷ [])
        i 20)
      byte

-- `RING_BUF_DIM` and `MAX_BUF_DIM`.
abbrev pub ring_buf_dim : ℕ
ring_buf_dim = 8 * 1024 * 1024

abbrev pub max_buf_dim : ℕ
max_buf_dim = 64 * 1024 * 1024

==-eq : (a b : ℕ) → (a == b) ≡ true → a ≡ b
==-eq a b h = ground arith

-- Each case label asks for two units more than its number; the default is not reached.
pub reserve_size_lem : (byte i : ℕ) → i < 7 → reserve_size byte i ≡ (i + 2) * byte
unfolding reserve_size
reserve_size_lem byte i h = ap (λ k. k * byte) (==-eq _ _ (all_below_sound 7 row i refl h))
  where
    row : ℕ → Bool
    row j = get_or (2 ∷ 3 ∷ 4 ∷ 5 ∷ 6 ∷ 7 ∷ 8 ∷ []) j 8 == j + 2

pub single_size_lem : (byte i : ℕ) → i < 19 → single_size byte i ≡ (i + 2) * byte
unfolding single_size
single_size_lem byte i h = ap (λ k. k * byte) (==-eq _ _ (all_below_sound 19 row i refl h))
  where
    row : ℕ → Bool
    row j =
        get_or
          (2 ∷ 3 ∷ 4 ∷ 5 ∷ 6 ∷ 7 ∷ 8 ∷ 9 ∷ 10 ∷ 11 ∷ 12 ∷ 13 ∷ 14 ∷ 15 ∷ 16 ∷ 17 ∷ 18 ∷ 19 ∷ 20
            ∷ [])
          j 20
        == j + 2

units_bounds :
    (byte k n size : ℕ) → size ≡ (k + 2) * byte → k + 2 ≤ n → (2 * byte ≤ size) × (size ≤ n * byte)
units_bounds byte k n size e h = omega (arith, mul-le-mul_right byte h)

-- For every random number and every BYTE up to 2048, the largest that the programs accept, the
-- programs over one ring for each CPU ask for a whole number of units between 2 and 8; the length
-- leaves the two flag bits of a header free, and the record fits a ring of RING_BUF_DIM bytes.
pub reserve_size_bounds :
    (byte r : ℕ)
    → byte ≤ 2048
    → let size = reserve_size byte (r % 7) in
      (size ≡ (r % 7 + 2) * byte)
      × (2 * byte ≤ size)
      × (size ≤ 8 * byte)
      × (size < 2 ^ 30)
      × (roundup_len size ≤ ring_buf_dim)
reserve_size_bounds byte r small =
    let size = reserve_size byte (r % 7) in
    let e = reserve_size_lem byte (r % 7) (omega arith) in
    let (lo, hi) = units_bounds byte (r % 7) 8 size e (omega arith) in
    (e, lo, hi, omega arith, omega (arith, roundup_len_lem size))

-- The same for the program over a single ring, between 2 and 20 units, with BYTE up to 1024 and a
-- ring of MAX_BUF_DIM bytes.
pub single_size_bounds :
    (byte r : ℕ)
    → byte ≤ 1024
    → let size = single_size byte (r % 19) in
      (size ≡ (r % 19 + 2) * byte)
      × (2 * byte ≤ size)
      × (size ≤ 20 * byte)
      × (size < 2 ^ 30)
      × (roundup_len size ≤ max_buf_dim)
single_size_bounds byte r small =
    let size = single_size byte (r % 19) in
    let e = single_size_lem byte (r % 19) (omega arith) in
    let (lo, hi) = units_bounds byte (r % 19) 20 size e (omega arith) in
    (e, lo, hi, omega arith, omega (arith, roundup_len_lem size))
