-- ===== src/Header.antt =====
-- The header word in front of each record of a BPF ring buffer, and `roundup_len`
-- (multi_ringbuf_reserve/shared_code.h; single_ringbuf_reserve/case1.c has the same text). The
-- flags and the header's size are constants of vmlinux/vmlinux.h. An `int` or a `uint32_t` is its
-- bit pattern, a number below 2 ^ 32.
pub mod Bounds
mod Tests
use bpf_ringbuf.Common.{
  ℕ, ◌+◌, ◌-◌, ◌*◌, ◌/◌, ◌%◌, ◌^◌, Bool, not, bit_and, ltb, ◌==◌, if◌then◌else◌,
}

abbrev pub busy_bit : ℕ
busy_bit = 2 ^ 31

abbrev pub discard_bit : ℕ
discard_bit = 2 ^ 30

abbrev pub hdr_sz : ℕ
hdr_sz = 8

abbrev pub u32 : ℕ → ℕ
u32 n = n % 2 ^ 32

abbrev pub u64 : ℕ → ℕ
u64 n = n % 2 ^ 64

-- The conversion of an `int` to `unsigned long`, which extends the sign.
abbrev pub sign_extend : ℕ → ℕ
sign_extend w = if ltb w (2 ^ 31) then w else w + (2 ^ 64 - 2 ^ 32)

-- `len & BPF_RINGBUF_BUSY_BIT`, as a condition.
unfoldable pub is_busy : ℕ → Bool
is_busy len = not (bit_and len busy_bit == 0)

-- The opposite of `(len & BPF_RINGBUF_DISCARD_BIT) == 0`.
unfoldable pub is_discarded : ℕ → Bool
is_discarded len = not (bit_and len discard_bit == 0)

-- Each line of the body; the sum, the division and the product are done in `uint32_t`.
unfoldable pub roundup_len : ℕ → ℕ
roundup_len len =
    let shifted = u32 (len * 4) in
    let cleared = shifted / 4 in
    let prefixed = u32 (cleared + hdr_sz) in u32 (u32 (prefixed + 7) / 8 * 8)

-- `cons_pos += roundup_len(len)` on an `unsigned long`.
unfoldable pub advance : ℕ → ℕ → ℕ
advance pos len = u64 (pos + sign_extend (roundup_len len))
