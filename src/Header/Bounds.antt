-- ===== src/Header/Bounds.antt =====
-- What `roundup_len` and the flag tests compute, for every header word.
use bpf_ringbuf.Common.{
  ℕ, ◌+◌, ◌*◌, ◌/◌, ◌%◌, ◌^◌, ◌≤◌, ◌<◌, ◌≡◌, Bool, true, false, arith, ◌==◌, if◌then◌else◌,
}
use bpf_ringbuf.Common.Bits.{bit_and-pow}
use bpf_ringbuf.Header.{is_busy, is_discarded, roundup_len, advance}

-- `roundup_len` in closed form: no step of the computation wraps once the two flags are cleared.
pub roundup_len_lem : (len : ℕ) → roundup_len len ≡ (len % 2 ^ 30 + 15) / 8 * 8
unfolding roundup_len
roundup_len_lem len = omega arith

-- `roundup_len` ignores the two flags and returns the least multiple of 8 that holds the payload
-- and the header of 8 bytes; the result fits an `int`.
pub roundup_len_bounds :
    (len : ℕ)
    → (roundup_len len % 8 ≡ 0)
      × (len % 2 ^ 30 + 8 ≤ roundup_len len)
      × (roundup_len len < len % 2 ^ 30 + 16)
      × (roundup_len len ≤ 2 ^ 30 + 8)
roundup_len_bounds len = omega (arith, roundup_len_lem len)

pub is_busy_lem : (len : ℕ) → is_busy len ≡ (if len / 2 ^ 31 % 2 == 1 then true else false)
unfolding is_busy
is_busy_lem len = ground (arith, bit_and-pow 31 len)

pub is_discarded_lem :
    (len : ℕ) → is_discarded len ≡ (if len / 2 ^ 30 % 2 == 1 then true else false)
unfolding is_discarded
is_discarded_lem len = ground (arith, bit_and-pow 30 len)

abbrev pub flag : Bool → ℕ
flag true = 1
flag false = 0

-- A header word that packs the busy flag, the discard flag and a length below 2 ^ 30 is read back
-- exactly: each test sees its own flag, and the record takes the space of its length.
pub header_fields :
    (busy discarded : Bool) (len : ℕ)
    → len < 2 ^ 30
    → let word = flag busy * 2 ^ 31 + flag discarded * 2 ^ 30 + len in
      (is_busy word ≡ busy) × (is_discarded word ≡ discarded) × (roundup_len word ≡ roundup_len len)
header_fields busy discarded len h =
    ground
      (arith, is_busy_lem word, is_discarded_lem word, roundup_len_lem word, roundup_len_lem len)
  where
    word : ℕ
    word = flag busy * 2 ^ 31 + flag discarded * 2 ^ 30 + len

-- A position below 2 ^ 64 after the addition is the plain sum.
pub advance_lem :
    (pos len : ℕ) → pos + roundup_len len < 2 ^ 64 → advance pos len ≡ pos + roundup_len len
unfolding advance
advance_lem pos len h = ground (arith, roundup_len_bounds len)

-- Positions stay multiples of 8, also where they wrap.
pub advance-mod : (pos len : ℕ) → pos % 8 ≡ 0 → advance pos len % 8 ≡ 0
unfolding advance
advance-mod pos len h = ground (arith, roundup_len_bounds len)
