-- ===== src/Ring/Example.antt =====
-- A ring of 128 bytes and a kernel that puts four records into it, for the tests.
use bpf_ringbuf.Common.{
  ℕ, ◌+◌, ◌<◌, ◌^◌, ◌≡◌, refl, inl, inr, Bool, true, ◌&&◌, [], ◌∷◌, arith, bit_and, ◌==◌,
  if◌then◌else◌, Bool-cases,
}
use bpf_ringbuf.Header.{roundup_len}
use bpf_ringbuf.Queue.{Queue, Extends}
use bpf_ringbuf.Ring.{Ring}
use bpf_ringbuf.Ring.Chain.{header_at, Chain, Chain-first, Grows, Grows-refl, Kernel}

abbrev pub fresh : Ring
fresh = record { data_word = λ _. 0; consumer_pos = 0; producer_pos = 0; mask = 127 }

-- Payloads of 16, 8 and 20 bytes, the second discarded, and 8 bytes that are not yet committed.
abbrev pub headers : Queue
headers = 16 ∷ (2 ^ 30 + 8) ∷ 20 ∷ (2 ^ 31 + 8) ∷ []

abbrev pub words : ℕ → ℕ
words d = if d == 0 then 16 else if d == 24 then 2 ^ 30 + 8 else if d == 40 then 20 else 2 ^ 31 + 8

abbrev is_fresh : Ring → Bool
is_fresh r = r.producer_pos == 0 && r.mask == 127

-- Fills a ring in which nothing was produced, and leaves any other alone.
abbrev pub fill : Ring → Ring
fill r = record r {
  data_word = if is_fresh r then words else r.data_word;
  producer_pos = if is_fresh r then 88 else r.producer_pos;
}

pub headers-Chain : Chain (λ p. words (bit_and p 127)) 0 headers 88
unfolding roundup_len
headers-Chain = (refl, (refl, (refl, (refl, refl))))

fill-keeps :
    (r : Ring) (p : ℕ) (q : Queue)
    → is_fresh r ≡ true
    → Chain (header_at r) p q r.producer_pos
    → (q' : Queue) × Extends q q' × Chain (λ p. words (bit_and p r.mask)) p q' 88
fill-keeps r p [] e c =
    let start : p ≡ 0 = ground arith in
    let size : r.mask ≡ 127 = ground arith in rw (start, size) (headers, tt, headers-Chain)
fill-keeps r p (h ∷ q) e c = absurd (ground (arith, Chain-first (header_at r) p h q c))

pub fill-Grows : (r : Ring) → r.producer_pos < 2 ^ 64 → Grows r (fill r)
fill-Grows r h = elim (Bool-cases (is_fresh r)) [
  | inl e ↦ rw e (record {
    same_mask = refl;
    same_consumer = refl;
    produced = ground arith;
    fits = omega arith;
    keeps = λ p q _ c. fill-keeps r p q e c;
  })
  | inr e ↦ rw e (Grows-refl r h)
]

abbrev pub filling : Kernel
filling = record { act = fill; grows = fill-Grows }

abbrev pub full : Ring
full = fill fresh
