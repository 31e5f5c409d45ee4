-- ===== src/Rings/Sticky/Returns.antt =====
-- multi_ringbuf_reserve/case3.c and case4.c: how long `ring_buffer__consume_one` runs when there is
-- something to read.
use native.Mathlib.Nat.{mod-eq_of_lt, add-mod_right, add-zero}
use bpf_ringbuf.Common.{
  ℕ, zero, suc, ◌+◌, ◌*◌, ◌%◌, ◌≤◌, ◌<◌, ◌≡◌, refl, sym, ap, ◌∙◌, ◌⊎◌, inl, inr, List, [], ◌∷◌,
  Bool, true, false, arith, length, ◌==◌, leb, Bool-cases,
}
use mathlib.Core.Path.{subst}
use bpf_ringbuf.Reader.{Reader}
use bpf_ringbuf.Rings.{
  Rings, in_range, reader, store, Sample, Round, Outcome, returned, return_or, after_kernel, tag,
  switch,
}
use bpf_ringbuf.Rings.Progress.{IsValid}
use bpf_ringbuf.Rings.Store.{reader-store, reader-other, ==-eq}
use bpf_ringbuf.Rings.RoundRobin.Fair.{Returns, step-nearer, distance, distance_lem}
use bpf_ringbuf.Rings
use bpf_ringbuf.Rings.Sticky.{
  reload, process_one_from_ring, consume_one, case3_consume_one, case4_consume_one,
}
use bpf_ringbuf.Rings.Sticky.Settled.{
  AllCommit, Commits, Settled, HasRecord, Knows, kernel-Settled, kernel-HasRecord, reload-Settled,
  switched, process-Goes, AllSettled,
}

module _ (each : Bool) where
  switched-IsValid : (m : Rings) → IsValid m → IsValid (switched each m)
  switched-IsValid m v = record {
    current = let lt = v.current in omega arith;
    allocated = v.allocated;
  }

  -- The ring that the reader leaves is reloaded, and any other is as before.
  switched-here :
      (m : Rings) → reader (switched each m) m.ringbuf_pos ≡ reload each (reader m m.ringbuf_pos)
  switched-here m = reader-store m m.ringbuf_pos (reload each (reader m m.ringbuf_pos))

  switched-there :
      (m : Rings) (j : ℕ) → (m.ringbuf_pos == j) ≡ false → reader (switched each m) j ≡ reader m j
  switched-there m j e =
      reader-other m m.ringbuf_pos (reload each (reader m m.ringbuf_pos))
        ((m.ringbuf_pos + 1) % m.ring_cnt) j e

  switched-AllSettled : (m : Rings) → AllSettled m → AllSettled (switched each m)
  switched-AllSettled m all i lt = elim (Bool-cases (m.ringbuf_pos == i)) [
    | inl here ↦
        subst (λ k. k < m.ring_cnt → Settled (reader (switched each m) k)) (==-eq _ _ here)
          (λ lt'. subst Settled (sym (switched-here m)) (reload-Settled each _ (all _ lt'))) lt
    | inr there ↦ subst Settled (sym (switched-there m i there)) (all i lt)
  ]

  -- Ring `j` has a record, and lies `d` iterations ahead, or more than a turn ahead when the reader
  -- may still have to load its producer position.
  record Ahead (m : Rings) (j d : ℕ) : Type 0 where
    valid : IsValid m
    inside : j < m.ring_cnt
    settled : AllSettled m
    waiting : HasRecord (reader m j)
    lands : (m.ringbuf_pos + d) % m.ring_cnt ≡ j
    known : Knows (reader m j) ⊎ (m.ring_cnt ≤ d)

  kernel-Ahead :
      (w : Round)
      → ((i : ℕ) → Commits (w.before i))
      → (m : Rings) (j d : ℕ) → Ahead m j d
      → Ahead (after_kernel w m) j d
  kernel-Ahead w law m j d a = record {
    valid = record { current = a.valid.current; allocated = a.valid.allocated };
    inside = a.inside;
    settled = λ i lt. kernel-Settled (w.before i) (law i) (reader m i) (a.settled i lt);
    waiting = kernel-HasRecord (w.before j) (reader m j) (a.settled j a.inside) a.waiting;
    lands = a.lands;
    known = a.known;
  }

  -- What holds of the ring that is left after its reload, or of any other before the switch.
  switched-lift :
      (P Q : Reader → Type 0) (m : Rings) (j : ℕ)
      → ((s : Reader) → P s → Q (reload each s))
      → (m.ringbuf_pos == j) ≡ true
      → P (reader m j)
      → Q (reader (switched each m) j)
  switched-lift P Q m j law here p =
      subst (λ k. P (reader m k) → Q (reader (switched each m) k)) (==-eq _ _ here)
        (λ p'. subst Q (sym (switched-here m)) (law _ p')) p

  reload-HasRecord : (s : Reader) → HasRecord s → HasRecord (reload each s)
  unfolding reload
  reload-HasRecord s h = h

  reload-Knows : (s : Reader) → HasRecord s → Knows (reload each s)
  unfolding reload
  reload-Knows s h = h

  -- A whole turn does not lead to another ring.
  not-a-turn : (a n j d : ℕ) → a < n → (a == j) ≡ false → (a + suc d) % n ≡ j → n ≤ suc d → n ≤ d
  not-a-turn a n j d lt other lands le = elim (Bool-cases (leb n d)) [
    | inl e ↦ ground arith
    | inr e ↦
        let turn : suc d ≡ n = ground arith in
        let same : a ≡ j =
          sym (add-mod_right a n ∙ mod-eq_of_lt lt) ∙ (ap (λ x. (a + x) % n) (sym turn) ∙ lands) in
        absurd (ground arith)
  ]

  -- A switch brings the ring nearer, and one that is left has been loaded.
  switched-Ahead : (m : Rings) (j d : ℕ) → Ahead m j (suc d) → Ahead (switched each m) j d
  switched-Ahead m j d a = elim (Bool-cases (m.ringbuf_pos == j)) [
    | inl here ↦
        go (switched-lift HasRecord HasRecord m j reload-HasRecord here a.waiting)
          (inl (switched-lift HasRecord Knows m j reload-Knows here a.waiting))
    | inr there ↦ go (subst HasRecord (sym (switched-there m j there)) a.waiting) (elim a.known [
      | inl k ↦ inl (subst Knows (sym (switched-there m j there)) k)
      | inr le ↦ inr (not-a-turn m.ringbuf_pos m.ring_cnt j d a.valid.current there a.lands le)
    ])
  ]
    where
      go :
          HasRecord (reader (switched each m) j)
          → Knows (reader (switched each m) j) ⊎ (m.ring_cnt ≤ d)
          → Ahead (switched each m) j d
      go waiting known = record {
        valid = switched-IsValid m a.valid;
        inside = a.inside;
        settled = switched-AllSettled m a.settled;
        waiting = waiting;
        lands =
            step-nearer m.ringbuf_pos ((m.ringbuf_pos + 1) % m.ring_cnt) m.ring_cnt j d refl
              a.lands;
        known = known;
      }

  -- At the ring itself the reader knows of the record.
  here-known :
      (m : Rings) (j : ℕ) → Ahead m j zero → m.prod_pos m.ringbuf_pos ≤ m.cons_pos m.ringbuf_pos → ⊥
  here-known m j a reached =
      let here : m.ringbuf_pos ≡ j = sym (mod-eq_of_lt a.valid.current) ∙ rw add-zero at a.lands in
      let k : Knows (reader m m.ringbuf_pos) =
        subst (λ i. Knows (reader m i)) (sym here)
          (elim a.known [ inl k ↦ k | inr le ↦ let lt = a.inside in absurd (omega arith) ]) in
      omega arith

  consume_one-Ahead :
      (ws : List Round)
      → AllCommit ws
      → (m : Rings) (j d : ℕ) → Ahead m j d
      → d < length ws
      → Returns (Rings.consume_one (process_one_from_ring each) ws m)
  unfolding Rings.consume_one
  consume_one-Ahead [] law m j d a enough = absurd (omega arith)
  consume_one-Ahead (w ∷ ws) ((before, late), law) m j zero a enough =
      let a1 = kernel-Ahead w before m j zero a in
      let m1 = after_kernel w m in
      elim (process-Goes each w.late late m1 a1.valid
        (a1.settled m1.ringbuf_pos a1.valid.current)) [
          | inl (s, m', e) ↦ rw e (s, m', refl)
          | inr (e, reached) ↦ absurd (here-known m1 j a1 reached)
        ]
  consume_one-Ahead (w ∷ ws) ((before, late), law) m j (suc d) a enough =
      let a1 = kernel-Ahead w before m j (suc d) a in
      let m1 = after_kernel w m in
      elim (process-Goes each w.late late m1 a1.valid
        (a1.settled m1.ringbuf_pos a1.valid.current)) [
          | inl (s, m', e) ↦ rw e (s, m', refl)
          | inr (e, reached) ↦ rw e (
              consume_one-Ahead ws law (switched each m1) j d (switched-Ahead m1 j d a1)
                (omega arith))
        ]

-- The general case.
sticky-Returns :
    (each : Bool) (ws : List Round) (m : Rings) (j : ℕ)
    → IsValid m
    → AllSettled m
    → j < m.ring_cnt
    → HasRecord (reader m j)
    → AllCommit ws
    → 2 * m.ring_cnt ≤ length ws
    → Returns (Rings.consume_one (process_one_from_ring each) ws m)
sticky-Returns each ws m j v settled lt has law enough =
    let d = distance m.ring_cnt m.ringbuf_pos j in
    let (near, lands) = distance_lem m.ring_cnt m.ringbuf_pos j v.current lt in
    consume_one-Ahead each ws law m j (d + m.ring_cnt)
      (record {
        valid = v;
        inside = lt;
        settled = settled;
        waiting = has;
        lands =
            ap (λ x. x % m.ring_cnt) (omega arith)
            ∙ (add-mod_right (m.ringbuf_pos + d) m.ring_cnt ∙ lands);
        known = inr (omega arith);
      })
      (omega arith)

-- On valid rings, while every record that the reader finds is committed and not discarded, and
-- some ring has a record, a call of ring_buffer__consume_one of case 3 or of case 4 terminates:
-- it returns with a sample after at most twice as many iterations as there are rings, wherever
-- it starts and whatever committed records the kernel adds meanwhile.
pub consume_one-Terminates :
    (ws : List Round) (m : Rings) (j : ℕ)
    → IsValid m
    → AllSettled m
    → j < m.ring_cnt
    → HasRecord (reader m j)
    → AllCommit ws
    → 2 * m.ring_cnt ≤ length ws
    → Returns (case3_consume_one ws m) × Returns (case4_consume_one ws m)
unfolding consume_one
consume_one-Terminates ws m j v settled lt has law enough = (
  sticky-Returns false ws m j v settled lt has law enough,
  sticky-Returns true ws m j v settled lt has law enough,
)
