-- ===== src/Bench/Example.antt =====
-- Rings whose data words are all 16, for the tests: every record has 16 bytes.
use mathlib.Core.Option.{some-injective, none-ne-some}
use bpf_ringbuf.Common.{
  ℕ, ◌+◌, ◌<◌, ◌^◌, ◌≡◌, refl, Bool, true, false, none, some, [], ◌∷◌, ◌++◌, arith, if◌then◌else◌,
}
use bpf_ringbuf.Header.{roundup_len, is_busy, is_discarded}
use bpf_ringbuf.Queue.{Queue}
use bpf_ringbuf.Ring.{Ring}
use bpf_ringbuf.Ring.Chain.{Chain}
use bpf_ringbuf.Bench.{AddsOne}

abbrev pub ring_of : ℕ → ℕ → Ring
ring_of consumer producer = record {
  data_word = λ _. 16;
  consumer_pos = consumer;
  producer_pos = producer;
  mask = 127;
}

one_more :
    (p : ℕ) (q : Queue) (end : ℕ)
    → Chain (λ _. 16) p q end
    → Chain (λ _. 16) p (q ++ (16 ∷ [])) (end + 24)
unfolding roundup_len
one_more p [] end c = (refl, omega arith)
one_more p (x ∷ q) end c = (c.0, one_more (p + roundup_len x) q end c.1)

pub ring_of-AddsOne :
    (consumer producer : ℕ)
    → producer + 24 < 2 ^ 64
    → AddsOne false (ring_of consumer producer) (ring_of consumer (producer + 24))
unfolding is_busy is_discarded
ring_of-AddsOne consumer producer room = record {
  same_mask = refl;
  same_consumer = refl;
  produced = omega arith;
  fits = omega arith;
  added = 16;
  committed = refl;
  kept = refl;
  adds = λ p q released c. one_more p q producer c;
}

-- What an answer tells of its test.
pub answered :
    (room : Bool) (x y : ℕ) → (if room then some x else none) ≡ some y → (room ≡ true) × (x ≡ y)
answered true x y e = (refl, some-injective x y e)
answered false x y e = absurd (none-ne-some y e)
