-- ===== src/Bench/Many/Laws.antt =====
-- What a test over one ring for each CPU counts.
use mathlib.Core.Path.{subst}
use mathlib.Core.Option
use bpf_ringbuf.Common.{
  ℕ, ◌+◌, ◌<◌, ◌≡◌, refl, sym, ap, ◌∙◌, Option, none, some, List, [], ◌∷◌, Bool, true, false, arith,
  ◌==◌, update,
}
use bpf_ringbuf.Queue.Committed.{Committed, Committed-Kept}
use bpf_ringbuf.Ring.Chain.{idle}
use bpf_ringbuf.Reader.{Reader, reads_of}
use bpf_ringbuf.Reader.Refine.{Tracks}
use bpf_ringbuf.Rings.{Iteration, reader}
use bpf_ringbuf.Rings.Progress.{IsValid}
use bpf_ringbuf.Rings.Takes.{TakesOne, IterationTakes, TakesOne-Committed, round_robin-Takes}
use bpf_ringbuf.Rings.Sticky.Takes.{sticky-Takes}
use bpf_ringbuf.Rings.RoundRobin
use bpf_ringbuf.Rings.Sticky
use bpf_ringbuf.Bpf.{Helpers}
use bpf_ringbuf.Bench.{Turn, event, read, events}
use bpf_ringbuf.Bench.Many.{Mapped, Bench, mapped, after_read, turn, turns}
use bpf_ringbuf.Rings.Held.{Held-update, waits-update, waits_empty}
use bpf_ringbuf.Bench.Many.Balance.{Balance, Balanced, event-Balance}

module _ (h : Helpers) (cnt : ℕ) (m : Mapped h cnt) where
  module _ (iterate : Iteration) (law : IterationTakes iterate) (customized : Bool) (byte : ℕ) where
    -- What waits in the current ring is what the iteration has left.
    pub after_read-rest :
        (k : ℕ) (b : Bench h) (a : Balance h cnt m k b)
        → (x : TakesOne
            (mapped h cnt m b)
            (a.waiting b.ringbuf_pos)
            (iterate idle (mapped h cnt m b)))
        → (a' : Balance h cnt m k (after_read h cnt m b (x.out, x.rings))) × (a'.waiting
            ≡ update a.waiting b.ringbuf_pos x.rest)
    after_read-rest k b a x =
        let i = b.ringbuf_pos in
        let r = mapped h cnt m b in
        let p = (x.rings.rings i).consumer_pos in
        let b' = after_read h cnt m b (x.out, x.rings) in
        let current = a.valid.current in
        let lt : i < cnt = omega (arith, a.count) in
        let fewer = waits-update cnt i a.waiting x.rest lt in
        (
          record {
            drops = a.drops;
            skipped = a.skipped;
            elaborated = a.elaborated + reads_of x.out;
            waiting = update a.waiting i x.rest;
            all = omega (arith, a.all, x.counted, fewer);
            n_drops = a.n_drops;
            n_skipped = a.n_skipped;
            n_elaborated = omega (arith, a.n_elaborated);
            on = a.on;
            valid = record {
              current = let next = x.valid.current in omega (arith, x.same_cnt);
              allocated = a.valid.allocated;
            };
            count = a.count;
            held =
                Held-update Committed cnt i r (mapped h cnt m b') a.waiting x.rest
                  (λ j other.
                    ap {A = Reader} (λ s. record s { ring = m.view b'.kernel j }) (x.others j other)
                    ∙ ap (λ g. record (reader r j) { ring = g })
                        (m.view-others i p b.kernel j other))
                  (TakesOne-Committed r (a.waiting i) _ x (a.held i lt).0)
                  (subst (λ g. Tracks (record (reader x.rings i) { ring = g }) x.rest)
                    (x.frame ∙ sym (m.view-release i p b.kernel)) x.tracks)
                  a.held;
          },
          refl,
        )

    pub taken :
        (k : ℕ) (b : Bench h) (a : Balance h cnt m k b)
        → TakesOne (mapped h cnt m b) (a.waiting b.ringbuf_pos) (iterate idle (mapped h cnt m b))
    taken k b a =
        let current = a.valid.current in
        let (c, t) = a.held b.ringbuf_pos (omega (arith, a.count)) in
        law (mapped h cnt m b) (a.waiting b.ringbuf_pos) a.valid t
          (Committed-Kept (a.waiting b.ringbuf_pos) c)

    read-Balance :
        (k : ℕ) (b : Bench h)
        → Balance h cnt m k b
        → Balanced h cnt m k (turn h cnt m iterate customized byte read b)
    unfolding turn
    read-Balance k b a = let x = taken k b a in rw x.returns (after_read-rest k b a x).0

    pub then-Balanced :
        (k k' : ℕ) (f : Bench h → Option (Bench h)) (o : Option (Bench h))
        → Balanced h cnt m k o
        → ((b : Bench h) → Balance h cnt m k b → Balanced h cnt m k' (f b))
        → Balanced h cnt m k' (Option.bind o f)
    unfolding Option.bind
    then-Balanced k k' f none bad ih = bad
    then-Balanced k k' f (some b) a ih = ih b a

    turns-Balanced :
        (ts : List Turn) (k : ℕ) (b : Bench h)
        → Balance h cnt m k b
        → Balanced h cnt m (k + events ts) (turns h cnt m iterate customized byte ts b)
    unfolding turns
    turns-Balanced [] k b a = subst (λ n. Balance h cnt m n b) (omega arith) a
    turns-Balanced (event ∷ ts) k b a =
        let f = turns h cnt m iterate customized byte ts in
        then-Balanced (k + 1) (k + (events ts + 1)) f (turn h cnt m iterate customized byte event b)
          (event-Balance h cnt m iterate customized byte k b a)
          (λ b' a'.
            subst (λ n. Balanced h cnt m n (f b')) (omega arith) (turns-Balanced ts (k + 1) b' a'))
    turns-Balanced (read ∷ ts) k b a =
        then-Balanced k (k + events ts) (turns h cnt m iterate customized byte ts)
          (turn h cnt m iterate customized byte read b) (read-Balance k b a) (turns-Balanced ts k)

    pub start-Balanced :
        (ts : List Turn) (b : Bench h)
        → Balance h cnt m 0 b
        → Balanced h cnt m (events ts) (turns h cnt m iterate customized byte ts b)
    start-Balanced ts b a =
        subst (λ k. Balanced h cnt m k (turns h cnt m iterate customized byte ts b)) (omega arith)
          (turns-Balanced ts 0 b a)

  pub start-Balance :
      (b : Bench h)
      → IsValid (mapped h cnt m b)
      → b.ring_cnt ≡ cnt
      → ((i : ℕ) → i < cnt → Tracks (reader (mapped h cnt m b) i) [])
      → (b.globals.capture_enabled == 0) ≡ false
      → b.globals.n_drops ≡ 0
      → b.globals.n_skipped ≡ 0
      → b.n_elaborated ≡ 0
      → Balance h cnt m 0 b
  start-Balance b v count empty on zd zs ze = record {
    drops = 0;
    skipped = 0;
    elaborated = 0;
    waiting = λ i. [];
    all = omega (arith, waits_empty cnt);
    n_drops = zd;
    n_skipped = zs;
    n_elaborated = ze;
    on = on;
    valid = v;
    count = count;
    held = λ i lt. (tt, empty i lt);
  }

  -- A test over one ring for each CPU whose rings are empty at first, with the capture on and the
  -- three counters at 0, with as many rings in the reader as in the array, an index and positions
  -- for each, with a kernel that keeps the rings as documented (Mapped), with or without
  -- CUSTOMIZED, and with any order of getpgid calls and iterations of the loop of case 1, case 3 or
  -- case 4: no access is out of range, and every event is a drop that n_drops counts, or skipped
  -- and counted by n_skipped, or elaborated and counted by n_elaborated, all modulo 2 ^ 64, or a
  -- committed record that waits in one of the rings at the position of the reader.
  pub benches-Balance :
      (customized : Bool) (byte : ℕ) (ts : List Turn) (b : Bench h)
      → IsValid (mapped h cnt m b)
      → b.ring_cnt ≡ cnt
      → ((i : ℕ) → i < cnt → Tracks (reader (mapped h cnt m b) i) [])
      → (b.globals.capture_enabled == 0) ≡ false
      → b.globals.n_drops ≡ 0
      → b.globals.n_skipped ≡ 0
      → b.n_elaborated ≡ 0
      → Balanced h cnt m (events ts) (turns h cnt m RoundRobin.iterate customized byte ts b)
        × Balanced h cnt m (events ts) (turns h cnt m Sticky.case3 customized byte ts b)
        × Balanced h cnt m (events ts) (turns h cnt m Sticky.case4 customized byte ts b)
  benches-Balance customized byte ts b v count empty on zd zs ze =
      let start = start-Balance b v count empty on zd zs ze in
      (
        start-Balanced RoundRobin.iterate round_robin-Takes customized byte ts b start,
        start-Balanced Sticky.case3 (sticky-Takes false) customized byte ts b start,
        start-Balanced Sticky.case4 (sticky-Takes true) customized byte ts b start,
      )
