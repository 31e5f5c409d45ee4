-- ===== src/Ring/Chain.antt =====
-- The records of a ring between two positions, and what a reader relies on from the kernel.
use bpf_ringbuf.Common.{ℕ, ◌+◌, ◌≤◌, ◌<◌, ◌^◌, ◌≡◌, refl, [], ◌∷◌, arith, bit_and}
use bpf_ringbuf.Header.{roundup_len}
use bpf_ringbuf.Header.Bounds.{roundup_len_bounds}
use bpf_ringbuf.Queue.{Queue, span, Extends, Extends-refl}
use bpf_ringbuf.Ring.{Ring}

-- The header word of the record at a position.
abbrev pub header_at : Ring → ℕ → ℕ
header_at r p = r.data_word (bit_and p r.mask)

-- The headers of `q` lie one behind another from position `p` up to position `end`.
abbrev pub Chain : (ℕ → ℕ) → ℕ → Queue → ℕ → Type 0
Chain header p [] end = p ≡ end
Chain header p (h ∷ q) end = (header p ≡ h) × Chain header (p + roundup_len h) q end

module _ (header : ℕ → ℕ) where
  pub Chain-le : (p : ℕ) (q : Queue) {end : ℕ} → Chain header p q end → p ≤ end
  Chain-le p [] c = omega arith
  Chain-le p (h ∷ q) c = omega (arith, Chain-le (p + roundup_len h) q c.1)

  -- A record takes at least the 8 bytes of its header.
  pub Chain-first :
      (p h : ℕ) (q : Queue) {end : ℕ}
      → Chain header p (h ∷ q) end
      → (p < end) × (p + roundup_len h ≤ end)
  Chain-first p h q c = omega (arith, Chain-le (p + roundup_len h) q c.1, roundup_len_bounds h)

  pub Chain-span : (p : ℕ) (q : Queue) {end : ℕ} → Chain header p q end → end ≡ p + span q
  Chain-span p [] c = omega arith
  Chain-span p (h ∷ q) c = omega (arith, Chain-span (p + roundup_len h) q c.1)

-- The kernel's side of the ring buffer, as its documentation has it: while the reader has not
-- released a record it stays where it is, a busy one may be committed, and new ones come behind.
-- Positions do not reach 2 ^ 64.
pub record Grows (r r' : Ring) : Type 0 where
  pub same_mask : r'.mask ≡ r.mask
  pub same_consumer : r'.consumer_pos ≡ r.consumer_pos
  pub produced : r.producer_pos ≤ r'.producer_pos
  pub fits : r'.producer_pos < 2 ^ 64
  pub keeps :
      (p : ℕ) (q : Queue)
      → r.consumer_pos ≤ p
      → Chain (header_at r) p q r.producer_pos
      → (q' : Queue) × Extends q q' × Chain (header_at r') p q' r'.producer_pos

-- A kernel that does nothing.
pub Grows-refl : (r : Ring) → r.producer_pos < 2 ^ 64 → Grows r r
Grows-refl r h = record {
  same_mask = refl;
  same_consumer = refl;
  produced = omega arith;
  fits = h;
  keeps = λ p q _ c. (q, Extends-refl q, c);
}

-- A move of the kernel on one ring, which keeps that side at every ring that it may find.
pub record Kernel : Type 0 where
  pub act : Ring → Ring
  pub grows : (r : Ring) → r.producer_pos < 2 ^ 64 → Grows r (act r)

abbrev pub idle : Kernel
idle = record { act = λ r. r; grows = Grows-refl }
