-- ===== src/Bench/Smp/Laws.antt =====
-- What a test over one ring for each CPU counts whose runs overlap.
use mathlib.Core.Path.{subst}
use mathlib.Core.Option
use bpf_ringbuf.Common.{
  ℕ, ◌+◌, ◌<◌, ◌≡◌, refl, sym, ap, ◌∙◌, Option, none, some, List, [], ◌∷◌, Bool, true, false, arith,
  ◌==◌, update, Bool-cases, inl, inr,
}
use bpf_ringbuf.Queue.Committed.{Kept}
use bpf_ringbuf.Ring.Chain.{idle}
use bpf_ringbuf.Reader.{Reader, reads_of}
use bpf_ringbuf.Reader.Refine.{Tracks}
use bpf_ringbuf.Rings.{reader}
use bpf_ringbuf.Rings.Progress.{IsValid}
use bpf_ringbuf.Rings.Store.{==-eq}
use bpf_ringbuf.Rings.Takes.{TakesOne, IterationTakes, round_robin-Takes}
use bpf_ringbuf.Rings.Sticky.Takes.{sticky-Takes}
use bpf_ringbuf.Rings.Held.{Held-update, waits-update, waits_empty}
use bpf_ringbuf.Bpf.{Helpers}
use bpf_ringbuf.Bench.Cpus.{Step, start, finish, read, starts}
use bpf_ringbuf.Bench.Smp.{
  count_at, Case, case_1, case_3, case_4, iterate_of, Mapped, Bench, view, pending, mapped,
  after_read, step, steps,
}
use bpf_ringbuf.Bench.Smp.Balance.{Balance, start-Balance}
use bpf_ringbuf.Bench.Smp.Finish.{finish-Balance}

iterate_of-Takes : (c : Case) → IterationTakes (iterate_of c)
iterate_of-Takes case_1 = round_robin-Takes
iterate_of-Takes case_3 = sticky-Takes false
iterate_of-Takes case_4 = sticky-Takes true

module _ (h : Helpers) (cnt : ℕ) (m : Mapped h cnt) where
  abbrev pub Balanced : ℕ → Option (Bench h) → Type 0
  Balanced k none = ⊥
  Balanced k (some b) = Balance h cnt m k b

  module _ (c : Case) (customized : Bool) (byte : ℕ) where
    -- What is in the current ring is what the iteration has left.
    pub after_read-rest :
        (k : ℕ) (b : Bench h) (a : Balance h cnt m k b)
        → (x : TakesOne
            (mapped h cnt m b)
            (a.waiting b.ringbuf_pos)
            (iterate_of c idle (mapped h cnt m b)))
        → (a' : Balance h cnt m k (after_read h cnt m b (x.out, x.rings))) × (a'.waiting
            ≡ update a.waiting b.ringbuf_pos x.rest)
    after_read-rest k b a x =
        let i = b.ringbuf_pos in
        let r = mapped h cnt m b in
        let p = (x.rings.rings i).consumer_pos in
        let b' = after_read h cnt m b (x.out, x.rings) in
        let current = a.valid.current in
        let lt : i < cnt = omega (arith, a.count) in
        let fewer = waits-update cnt i a.waiting x.rest lt in
        (
          record {
            drops = a.drops;
            skipped = a.skipped;
            elaborated = a.elaborated + reads_of x.out;
            waiting = update a.waiting i x.rest;
            all = omega (arith, a.all, x.counted, fewer);
            n_drops = a.n_drops;
            n_skipped = a.n_skipped;
            n_elaborated = omega (arith, a.n_elaborated);
            on = a.on;
            valid = record {
              current = let next = x.valid.current in omega (arith, x.same_cnt);
              allocated = a.valid.allocated;
            };
            count = a.count;
            held =
                Held-update Kept cnt i r (mapped h cnt m b') a.waiting x.rest
                  (λ j other.
                    ap {A = Reader} (λ s. record s { ring = view h cnt m b'.kernel j })
                      (x.others j other)
                    ∙ ap (λ g. record (reader r j) { ring = g })
                        (m.view-others i p b.kernel j other))
                  x.kept
                  (subst (λ g. Tracks (record (reader x.rings i) { ring = g }) x.rest)
                    (x.frame ∙ sym (m.view-release i p b.kernel)) x.tracks)
                  a.held;
            reserved = m.pending-release i p b.kernel ∙ a.reserved;
            placed = a.placed;
            busy = λ j below. elim (Bool-cases (i == j)) [
              | inl here ↦ rw here (
                  x.same_busy
                  ∙ (a.busy i lt ∙ ap (λ k. count_at m.place k b.in_flight) (==-eq i j here)))
              | inr other ↦ rw other (a.busy j below)
            ];
          },
          refl,
        )

    pub taken :
        (k : ℕ) (b : Bench h) (a : Balance h cnt m k b)
        → TakesOne
            (mapped h cnt m b)
            (a.waiting b.ringbuf_pos)
            (iterate_of c idle (mapped h cnt m b))
    taken k b a =
        let current = a.valid.current in
        let (kept, t) = a.held b.ringbuf_pos (omega (arith, a.count)) in
        iterate_of-Takes c (mapped h cnt m b) (a.waiting b.ringbuf_pos) a.valid t kept

    read-Balance :
        (k : ℕ) (b : Bench h)
        → Balance h cnt m k b
        → Balanced k (step h cnt m c customized byte read b)
    unfolding step
    read-Balance k b a = let x = taken k b a in rw x.returns (after_read-rest k b a x).0

    pub then-Balanced :
        (k k' : ℕ) (f : Bench h → Option (Bench h)) (o : Option (Bench h))
        → Balanced k o
        → ((b : Bench h) → Balance h cnt m k b → Balanced k' (f b))
        → Balanced k' (Option.bind o f)
    unfolding Option.bind
    then-Balanced k k' f none bad ih = bad
    then-Balanced k k' f (some b) a ih = ih b a

    steps-Balanced :
        (ts : List Step) (k : ℕ) (b : Bench h)
        → Balance h cnt m k b
        → Balanced (k + starts ts) (steps h cnt m c customized byte ts b)
    unfolding steps step Option.bind
    steps-Balanced [] k b a = subst (λ n. Balance h cnt m n b) (omega arith) a
    steps-Balanced (start ∷ ts) k b a =
        subst (λ n. Balanced n (steps h cnt m c customized byte (start ∷ ts) b)) (omega arith)
          (steps-Balanced ts (k + 1) _ (start-Balance h cnt m customized byte k b a))
    steps-Balanced (finish i ∷ ts) k b a = steps-Balanced ts k _ (finish-Balance h cnt m k i b a)
    steps-Balanced (read ∷ ts) k b a =
        then-Balanced k (k + starts ts) (steps h cnt m c customized byte ts)
          (step h cnt m c customized byte read b) (read-Balance k b a) (steps-Balanced ts k)

  at_start-Balance :
      (b : Bench h)
      → IsValid (mapped h cnt m b)
      → b.ring_cnt ≡ cnt
      → ((i : ℕ) → i < cnt → Tracks (reader (mapped h cnt m b) i) [])
      → b.in_flight ≡ []
      → pending h cnt m b.kernel ≡ []
      → (b.globals.capture_enabled == 0) ≡ false
      → b.globals.n_drops ≡ 0
      → b.globals.n_skipped ≡ 0
      → b.n_elaborated ≡ 0
      → Balance h cnt m 0 b
  at_start-Balance b v count empty none_flies none_held on zd zs ze = record {
    drops = 0;
    skipped = 0;
    elaborated = 0;
    waiting = λ i. [];
    all = omega (arith, waits_empty cnt);
    n_drops = zd;
    n_skipped = zs;
    n_elaborated = ze;
    on = on;
    valid = v;
    count = count;
    held = λ i lt. (tt, empty i lt);
    reserved = none_held ∙ sym none_flies;
    placed = rw none_flies tt;
    busy = λ i lt. sym (ap (count_at m.place i) none_flies);
  }

  -- A test over one ring for each CPU whose rings are empty at first, with the capture on, the three
  -- counters at 0 and no record reserved, with as many rings in the reader as in the array, an index
  -- and positions for each, with a kernel that keeps the rings as documented (Mapped), with or
  -- without CUSTOMIZED, and with the runs of the program on several CPUs overlapping in any way
  -- between their reservation and their submit, and with the iterations of the loop of case 1, case 3
  -- or case 4: no access is out of range, every run that has begun is a drop that n_drops counts, or
  -- skipped and counted by n_skipped, or elaborated and counted by n_elaborated, all modulo 2 ^ 64,
  -- or has a record in one of the rings at the position of the reader, and in each ring the busy
  -- records are as many as the events of that ring which the runs have still to submit.
  pub smp-Balance :
      (c : Case) (customized : Bool) (byte : ℕ) (ts : List Step) (b : Bench h)
      → IsValid (mapped h cnt m b)
      → b.ring_cnt ≡ cnt
      → ((i : ℕ) → i < cnt → Tracks (reader (mapped h cnt m b) i) [])
      → b.in_flight ≡ []
      → pending h cnt m b.kernel ≡ []
      → (b.globals.capture_enabled == 0) ≡ false
      → b.globals.n_drops ≡ 0
      → b.globals.n_skipped ≡ 0
      → b.n_elaborated ≡ 0
      → Balanced (starts ts) (steps h cnt m c customized byte ts b)
  smp-Balance c customized byte ts b v count empty none_flies none_held on zd zs ze =
      subst (λ k. Balanced k (steps h cnt m c customized byte ts b)) (omega arith)
        (steps-Balanced c customized byte ts 0 b
          (at_start-Balance b v count empty none_flies none_held on zd zs ze))
