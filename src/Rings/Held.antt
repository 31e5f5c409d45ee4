-- ===== src/Rings/Held.antt =====
-- Queues of records behind the positions of the reader, one for each ring.
use mathlib.Core.Path.{subst}
use bpf_ringbuf.Common.{
  ℕ, zero, suc, ◌+◌, ◌<◌, ◌≡◌, refl, ap, false, length, arith, ◌==◌, update, Bool-cases, inl, inr,
  ◌∙◌, [], ◌∷◌,
}
use bpf_ringbuf.Queue.{Queue}
use bpf_ringbuf.Reader.{Reader}
use bpf_ringbuf.Reader.Refine.{Tracks}
use bpf_ringbuf.Rings.{Rings, reader}
use bpf_ringbuf.Rings.Store.{==-eq, ==-refl}

-- `f 0 + ... + f (n - 1)`.
abbrev pub total : ℕ → (ℕ → ℕ) → ℕ
total zero f = 0
total (suc n) f = total n f + f n

total-same : (n : ℕ) (f f' : ℕ → ℕ) → ((j : ℕ) → j < n → f' j ≡ f j) → total n f' ≡ total n f
total-same zero f f' same = refl
total-same (suc n) f f' same =
    omega (arith, same n (omega arith), total-same n f f' (λ j lt. same j (omega arith)))

ne_of_lt : (i j : ℕ) → j < i → (i == j) ≡ false
ne_of_lt i j lt = ground arith

pub total-change :
    (n i : ℕ) (f f' : ℕ → ℕ)
    → i < n
    → ((j : ℕ) → (i == j) ≡ false → f' j ≡ f j)
    → total n f' + f i ≡ total n f + f' i
total-change zero i f f' lt same = absurd (omega arith)
total-change (suc n) i f f' lt same = elim (Bool-cases (i == n)) [
  | inl last ↦
      let e : i ≡ n = ==-eq i n last in
      let before = total-same n f f' (λ j below. same j (ne_of_lt i j (omega arith))) in
      omega (arith, before, ap f e, ap f' e)
  | inr other ↦ omega (arith, same n other, total-change n i f f' (ground arith) same)
]

-- Ring `i` holds the queue `waiting i`, of which `P` is true, for each of the first `cnt` rings.
abbrev pub Held : (Queue → Type 0) → ℕ → Rings → (ℕ → Queue) → Type 0
Held P cnt r waiting = (i : ℕ) → i < cnt → P (waiting i) × Tracks (reader r i) (waiting i)

abbrev pub waits : ℕ → (ℕ → Queue) → ℕ
waits cnt waiting = total cnt (λ i. length (waiting i))

-- One ring has changed.
module _ (P : Queue → Type 0) (cnt i : ℕ) (r r' : Rings) (waiting : ℕ → Queue) (q : Queue)
    (others : (j : ℕ) → (i == j) ≡ false → reader r' j ≡ reader r j) where
  pub Held-update :
      P q → Tracks (reader r' i) q → Held P cnt r waiting → Held P cnt r' (update waiting i q)
  Held-update c t held j lt = elim (Bool-cases (i == j)) [
    | inl same ↦ rw same (c, subst (λ k. Tracks (reader r' k) q) (==-eq i j same) t)
    | inr other ↦ rw (other, others j other) (held j lt)
  ]

pub waits-update :
    (cnt i : ℕ) (waiting : ℕ → Queue) (q : Queue)
    → i < cnt
    → waits cnt (update waiting i q) + length (waiting i) ≡ waits cnt waiting + length q
waits-update cnt i waiting q lt =
    let f' : ℕ → ℕ = λ j. length (update waiting i q j) in
    let own : f' i ≡ length q = rw (==-refl i) refl in
    omega (arith, own, total-change cnt i (λ j. length (waiting j)) f' lt (λ j e. rw e refl))

total-zero : (n : ℕ) (f : ℕ → ℕ) → total n f ≡ 0 → (i : ℕ) → i < n → f i ≡ 0
total-zero zero f none_wait i lt = absurd (omega arith)
total-zero (suc n) f none_wait i lt = elim (Bool-cases (i == n)) [
  | inl last ↦ ap f (==-eq i n last) ∙ omega arith
  | inr other ↦ total-zero n f (omega arith) i (ground arith)
]

pub empty-at_end :
    (s : Reader) (q : Queue) → length q ≡ 0 → Tracks s q → s.cons_pos ≡ s.ring.producer_pos
empty-at_end s [] e t = t.chain
empty-at_end s (x ∷ q) e t = absurd (omega arith)

-- Where no record waits, the reader has come to the end of each ring.
pub waits_none-at_end :
    (P : Queue → Type 0) (cnt : ℕ) (r : Rings) (waiting : ℕ → Queue)
    → Held P cnt r waiting
    → waits cnt waiting ≡ 0
    → (i : ℕ) → i < cnt
    → r.cons_pos i ≡ (r.rings i).producer_pos
waits_none-at_end P cnt r waiting held none_wait i lt =
    empty-at_end (reader r i) (waiting i) (total-zero cnt (λ j. length (waiting j)) none_wait i lt)
      (held i lt).1

pub waits_empty : (n : ℕ) → waits n (λ i. []) ≡ 0
waits_empty zero = refl
waits_empty (suc n) = omega (arith, waits_empty n)
