-- ===== src/Rings/RoundRobin/Fair.antt =====
-- multi_ringbuf_reserve/case1.c: how long a ring waits whose first record can be handed out.
use mathlib.Core.Option
use mathlib.Core.Path.{subst}
use native.Mathlib.Nat.{mod-add-mod, mod-eq_of_lt, add-mod_right, add-zero}
use bpf_ringbuf.Common.{
  ℕ, zero, suc, ◌+◌, ◌-◌, ◌%◌, ◌≤◌, ◌<◌, ◌≡◌, refl, sym, ap, ◌∙◌, inl, inr, List, [], ◌∷◌, Option,
  none, some, false, arith, length, ◌==◌, leb, if◌then◌else◌, Bool-cases,
}
use bpf_ringbuf.Header.{is_busy, is_discarded}
use bpf_ringbuf.Queue.Committed.{Commit-ready}
use bpf_ringbuf.Queue.{Queue, pop, Extends}
use bpf_ringbuf.Ring.Chain.{Kernel}
use bpf_ringbuf.Reader
use bpf_ringbuf.Reader.{Reader}
use bpf_ringbuf.Reader.Refine.{Tracks, payload, Kernel-Tracks, process_one_from_ring-pop}
use bpf_ringbuf.Rings.{
  Rings, in_range, reader, store, Sample, Round, Outcome, returned, return_or, after_kernel, tag,
  switch,
}
use bpf_ringbuf.Rings.Progress.{IsValid}
use bpf_ringbuf.Rings.Store.{IsValid-in_range, reader-other, ==-eq}
use bpf_ringbuf.Rings
use bpf_ringbuf.Rings.RoundRobin.{process_one_from_ring, iterate, consume_one}

-- The first record of the queue is committed and not discarded.
abbrev pub IsReady : Queue → Type 0
IsReady [] = ⊥
IsReady (h ∷ q) = (is_busy h ≡ false) × (is_discarded h ≡ false)

abbrev pub Returns : Outcome → Type 0
Returns o = (d : Sample) × (m : Rings) × (o ≡ returned d m)

Extends-IsReady : (q q' : Queue) → Extends q q' → IsReady q → IsReady q'
Extends-IsReady [] q' e r = absurd r
Extends-IsReady (h ∷ q) [] e r = absurd e
Extends-IsReady (h ∷ q) (h' ∷ q') e r = rw (Commit-ready h h' r.0 e.0) at r

pop-IsReady : (q : Queue) (a : ℕ) → IsReady q → Option.map (λ _. a) (pop q).0 ≡ some a
unfolding pop
pop-IsReady [] a r = absurd r
pop-IsReady (h ∷ q) a r = rw (r.0, r.1)

-- A ready record is handed out at once.
process-IsReady :
    (late : Kernel) (s : Reader) (q : Queue)
    → Tracks s q
    → IsReady q
    → (Reader.process_one_from_ring late s).0 ≡ some (payload s)
process-IsReady late s q t r =
    let (q', e, p) = process_one_from_ring-pop late s q t in
    p.sample ∙ pop-IsReady q' (payload s) (Extends-IsReady q q' e r)

iterate-IsReady :
    (late : Kernel) (m : Rings) (q : Queue)
    → IsValid m
    → Tracks (reader m m.ringbuf_pos) q
    → IsReady q
    → (d : Sample) × (m' : Rings) × (iterate late m ≡ some (some d, m'))
unfolding iterate process_one_from_ring
iterate-IsReady late m q v t r =
    rw (IsValid-in_range m v, process-IsReady late (reader m m.ringbuf_pos) q t r) (_, _, refl)

-- On another ring: the index goes on by one, and ring `j` is left alone.
record Passes (m : Rings) (j : ℕ) (result : Option (Option Sample × Rings)) : Type 0 where
  out : Option Sample
  rings : Rings
  returns : result ≡ some (out, rings)
  same : reader rings j ≡ reader m j
  moved : rings.ringbuf_pos ≡ (m.ringbuf_pos + 1) % m.ring_cnt
  same_cnt : rings.ring_cnt ≡ m.ring_cnt
  same_cpus : rings.n_cpus ≡ m.n_cpus

iterate-Passes :
    (late : Kernel) (m : Rings) (j : ℕ)
    → IsValid m
    → (m.ringbuf_pos == j) ≡ false
    → Passes m j (iterate late m)
unfolding iterate process_one_from_ring
iterate-Passes late m j v e = rw (IsValid-in_range m v) (record {
  out = _;
  rings = _;
  returns = refl;
  same =
      reader-other m m.ringbuf_pos (Reader.process_one_from_ring late (reader m m.ringbuf_pos)).1
        ((m.ringbuf_pos + 1) % m.ring_cnt) j e;
  moved = refl;
  same_cnt = refl;
  same_cpus = refl;
})

Passes-IsValid :
    {m : Rings} {j : ℕ} {result : Option (Option Sample × Rings)} (p : Passes m j result)
    → IsValid m
    → IsValid p.rings
Passes-IsValid p v = record {
  current = omega (arith, p.moved, p.same_cnt, v.current);
  allocated = omega (arith, p.same_cnt, p.same_cpus, v.allocated);
}

-- The next index is one step nearer.
pub step-nearer : (a b n j d : ℕ) → b ≡ (a + 1) % n → (a + suc d) % n ≡ j → (b + d) % n ≡ j
step-nearer a b n j d e h =
    ap (λ x. (x + d) % n) e ∙ (mod-add-mod (a + 1) n d ∙ (ap (λ x. x % n) (omega arith) ∙ h))

-- The case of a call whose ring `j` is `d` steps ahead.
return_or-Returns :
    (again : Rings → Outcome) (out : Option Sample) (m : Rings)
    → Returns (again m)
    → Returns (return_or again (some (out, m)))
return_or-Returns again none m r = r
return_or-Returns again (some d) m r = (d, m, refl)

module _ (j : ℕ) where
  -- The kernel's move before an iteration leaves a ready ring ready.
  kernel-IsReady :
      (w : Round) (m : Rings) (q : Queue)
      → Tracks (reader m j) q
      → IsReady q
      → (q' : Queue) × Tracks (reader (after_kernel w m) j) q' × IsReady q'
  kernel-IsReady w m q t r =
      let (q', e, t') = Kernel-Tracks (w.before j) (reader m j) q t in
      (q', t', Extends-IsReady q q' e r)

  return-here :
      (again : Rings → Outcome) (late : Kernel) (m : Rings) (q : Queue)
      → IsValid m
      → Tracks (reader m j) q
      → IsReady q
      → m.ringbuf_pos ≡ j
      → Returns (return_or again (iterate late m))
  return-here again late m q v t r here =
      let t' = subst (λ k. Tracks (reader m k) q) (sym here) t in
      let (d, m', e) = iterate-IsReady late m q v t' r in rw e (d, m', refl)

  consume_one-near :
      (ws : List Round) (m : Rings) (d : ℕ) (q : Queue)
      → IsValid m
      → Tracks (reader m j) q
      → IsReady q
      → (m.ringbuf_pos + d) % m.ring_cnt ≡ j
      → d < length ws
      → Returns (Rings.consume_one iterate ws m)
  unfolding Rings.consume_one
  consume_one-near [] m d q v t r near enough = absurd (omega arith)
  consume_one-near (w ∷ ws) m zero q v t r near enough =
      let (q', t', r') = kernel-IsReady w m q t r in
      let here : m.ringbuf_pos % m.ring_cnt ≡ j = rw add-zero at near in
      return-here (Rings.consume_one iterate ws) w.late (after_kernel w m) q'
        (record { current = v.current; allocated = v.allocated }) t' r'
        (sym (mod-eq_of_lt v.current) ∙ here)
  consume_one-near (w ∷ ws) m (suc d) q v t r near enough =
      let (q', t', r') = kernel-IsReady w m q t r in
      let m1 = after_kernel w m in
      let v1 : IsValid m1 = record { current = v.current; allocated = v.allocated } in
      elim (Bool-cases (m.ringbuf_pos == j)) [
        | inl here ↦
            return-here (Rings.consume_one iterate ws) w.late m1 q' v1 t' r' (==-eq _ _ here)
        | inr there ↦
            let p = iterate-Passes w.late m1 j v1 there in
            let near' = step-nearer m.ringbuf_pos p.rings.ringbuf_pos m.ring_cnt j d p.moved near in
            rw p.returns (
              return_or-Returns (Rings.consume_one iterate ws) p.out p.rings (
                consume_one-near ws p.rings d q' (Passes-IsValid p v1) (rw p.same t') r'
                  (rw p.same_cnt near') (omega arith)))
      ]

-- How many steps ahead an index lies.
abbrev pub distance : ℕ → ℕ → ℕ → ℕ
distance n a j = if leb a j then j - a else j + n - a

pub distance_lem :
    (n a j : ℕ) → a < n → j < n → (distance n a j < n) × ((a + distance n a j) % n ≡ j)
distance_lem n a j ha hj = elim (Bool-cases (leb a j)) [
  | inl ahead ↦
      let le : a ≤ j = ground arith in
      rw ahead (omega arith, ap (λ x. x % n) (omega arith) ∙ mod-eq_of_lt hj)
  | inr behind ↦
      let lt : j < a = ground arith in
      rw behind (omega arith, ap (λ x. x % n) (omega arith) ∙ (add-mod_right j n ∙ mod-eq_of_lt hj))
]

-- If the first record of some ring is committed and not discarded, a call of case 1 returns with a
-- sample after at most `ring_cnt` iterations, wherever it starts and whatever the kernel and the
-- other rings do meanwhile.
pub consume_one-Returns :
    (ws : List Round) (m : Rings) (j : ℕ) (q : Queue)
    → IsValid m
    → j < m.ring_cnt
    → Tracks (reader m j) q
    → IsReady q
    → m.ring_cnt ≤ length ws
    → Returns (consume_one ws m)
unfolding consume_one
consume_one-Returns ws m j q v lt t r enough =
    let (near, lands) = distance_lem m.ring_cnt m.ringbuf_pos j v.current lt in
    consume_one-near j ws m (distance m.ring_cnt m.ringbuf_pos j) q v t r lands (omega arith)
