-- ===== src/Bench/Cpus/Example.antt =====
-- Rings of one record of 16 bytes, for the tests: the record is busy or committed.
use mathlib.Core.Path.{subst}
use bpf_ringbuf.Common.{
  ℕ, ◌+◌, ◌<◌, ◌≤◌, ◌^◌, ◌≡◌, refl, sym, ap, Bool, true, false, List, [], ◌∷◌, ◌++◌, length, arith,
  inr,
}
use bpf_ringbuf.Header.{roundup_len, is_busy, is_discarded}
use bpf_ringbuf.Queue.{Queue, Commit, Extends}
use bpf_ringbuf.Queue.Committed.{Kept, busies}
use bpf_ringbuf.Ring.{Ring}
use bpf_ringbuf.Ring.Chain.{Chain, Chain-first}
use bpf_ringbuf.Bench.{AddsOne}
use bpf_ringbuf.Bench.Cpus.{Submits}

abbrev word : Bool → ℕ
word true = 2 ^ 31 + 16
word false = 16

abbrev pub ring_with : ℕ → ℕ → Bool → Ring
ring_with consumer producer busy = record {
  data_word = λ _. word busy;
  consumer_pos = consumer;
  producer_pos = producer;
  mask = 127;
}

none_behind :
    (w p end : ℕ) (q : Queue)
    → end ≤ p
    → Chain (λ _. w) p q end
    → Chain (λ _. word true) p (q ++ (word true ∷ [])) (end + 24)
unfolding roundup_len
none_behind w p end [] le c = (refl, omega arith)
none_behind w p end (x ∷ q) le c = absurd (omega (arith, Chain-first (λ _. w) p x q c))

-- A reservation, in a ring that is empty.
pub ring_with-AddsOne :
    (consumer producer : ℕ) (busy : Bool)
    → consumer ≡ producer
    → producer + 24 < 2 ^ 64
    → AddsOne true (ring_with consumer producer busy) (ring_with consumer (producer + 24) true)
unfolding is_busy is_discarded
ring_with-AddsOne consumer producer busy same room = record {
  same_mask = refl;
  same_consumer = refl;
  produced = omega arith;
  fits = omega arith;
  added = word true;
  committed = refl;
  kept = refl;
  adds = λ p q released c. none_behind (word busy) p producer q (omega arith) c;
}

one_committed :
    (p end : ℕ) (q : Queue)
    → Chain (λ _. word true) p q end
    → busies q ≡ 1
    → (q' : Queue) × Chain (λ _. word false) p q' end
      × Extends q q'
      × Kept q'
      × (busies q' + 1 ≡ busies q)
unfolding is_busy is_discarded roundup_len
one_committed p end [] c busy = absurd (omega arith)
one_committed p end (x ∷ []) (e, c) busy = (
  word false ∷ [],
  (refl, subst (λ w. p + roundup_len w ≡ end) (sym e) c),
  (subst (λ w. Commit w (word false)) e (inr (refl, refl, refl)), tt),
  (refl, tt),
  sym busy,
)
one_committed p end (x ∷ y ∷ q) (e, (f, c)) busy =
    absurd (omega (arith, ap (λ w. busies (w ∷ [])) e, ap (λ w. busies (w ∷ [])) f, busy))

-- A submit of the one record that is reserved.
pub ring_with-Submits :
    (consumer producer : ℕ)
    → Submits 1 (ring_with consumer producer true) (ring_with consumer producer false)
ring_with-Submits consumer producer = record {
  same_mask = refl;
  same_consumer = refl;
  same_producer = refl;
  commits = λ p q released c k busy. one_committed p producer q c busy;
}

pub nothing_else : (before after : List ℕ) → length before + length after ≡ 0 → [] ≡ before ++ after
nothing_else [] [] e = refl
nothing_else [] (x ∷ after) e = absurd (omega arith)
nothing_else (x ∷ before) after e = absurd (omega arith)
