-- ===== src/Reader/Offsets.antt =====
-- Where the reader touches the data area, which the ring maps twice, one copy behind the other.
use native.Mathlib.Nat.{div-add-mod, mod-lt, one-le-pow}
use native.Mathlib.Numerals.{towards_suc}
use bpf_ringbuf.Common.{
  ℕ, ◌*◌, ◌∙◌, ◌+◌, ◌-◌, ◌%◌, ◌^◌, ◌<◌, ◌≤◌, ◌≡◌, true, Option, none, some, arith, bit_and, Bool,
}
use bpf_ringbuf.Common.Bits.{bit_and-mask}
use bpf_ringbuf.Header.{hdr_sz}
use bpf_ringbuf.Header.Bounds.{advance-mod}
use bpf_ringbuf.Reader.{Reader, reload, take_record, process_one_from_ring}
use bpf_ringbuf.Ring.Chain.{Kernel}

two-pow-shift : (k : ℕ) → 2 ^ (k + 3) ≡ 8 * 2 ^ k
two-pow-shift k = simp towards_suc (omega arith)

mask-mod : (k p : ℕ) → p % 8 ≡ 0 → (p % (8 * 2 ^ k) % 8 ≡ 0) × (p % (8 * 2 ^ k) + 8 ≤ 8 * 2 ^ k)
mask-mod k p h =
    omega
      (arith, div-add-mod p (8 * 2 ^ k), mod-lt p {m = 8 * 2 ^ k} (omega (arith, one-le-pow k 2)))

-- The ring's size is a power of two, at least 8, and the reader's position is a multiple of 8.
pub record IsAligned (k : ℕ) (s : Reader) : Type 0 where
  pub position : s.cons_pos % 8 ≡ 0
  pub size : s.ring.mask ≡ 2 ^ (k + 3) - 1

abbrev offset : Reader → ℕ
offset s = bit_and s.cons_pos s.ring.mask

-- The header that the reader loads is aligned and lies inside the data area, its 8 bytes included.
pub header_bounds :
    (k : ℕ) (s : Reader)
    → IsAligned k s
    → (offset s % 8 ≡ 0) × (offset s + hdr_sz ≤ s.ring.mask + 1)
header_bounds k s a =
    rw (a.size, bit_and-mask (k + 3) s.cons_pos, two-pow-shift k)
      (omega (arith, mask-mod k s.cons_pos, one-le-pow k 2))

-- A sample is aligned and begins inside the data area or right behind it, in the second copy.
abbrev pub SampleIn : ℕ → Option ℕ → Type 0
SampleIn size none = Unit
SampleIn size (some d) = (d % 8 ≡ 0) × (hdr_sz ≤ d) × (d ≤ size)

take_record-IsAligned :
    (k : ℕ) (release : Bool) (s : Reader)
    → IsAligned k s
    → let (sample, s') = take_record release s in IsAligned k s' × SampleIn (s.ring.mask + 1) sample
unfolding take_record
take_record-IsAligned k release s a =
    ground (arith, header_bounds k s a, advance-mod s.cons_pos (s.ring.data_word (offset s)))

-- Every call keeps the reader's position a multiple of 8, whatever the header words are, and a
-- sample that it hands out is aligned and begins behind a header inside the data area.
pub process_one_from_ring-IsAligned :
    (k : ℕ) (late : Kernel) (s : Reader)
    → s.ring.producer_pos < 2 ^ 64
    → IsAligned k s
    → let (sample, s') = process_one_from_ring late s in
      IsAligned k s' × SampleIn (s.ring.mask + 1) sample
unfolding process_one_from_ring reload
process_one_from_ring-IsAligned k late s fits a = ground (
  arith,
  same_mask,
  take_record-IsAligned k true (record (reload s) { ring = late.act s.ring }) moved,
)
  where
    open (late.grows s.ring fits) use {same_mask}

    moved : IsAligned k (record (reload s) { ring = late.act s.ring })
    moved = record { position = a.position; size = same_mask ∙ a.size }
