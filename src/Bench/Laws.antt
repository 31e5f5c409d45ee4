-- ===== src/Bench/Laws.antt =====
-- What a test counts.
use mathlib.Core.Path.{subst}
use bpf_ringbuf.Common.{
  Bool, ℕ, ◌+◌, ◌%◌, ◌^◌, ◌≡◌, refl, sym, ◌∙◌, Option, none, some, List, [], ◌∷◌, ◌++◌, false,
  length, arith, ◌==◌,
}
use bpf_ringbuf.Queue.{Queue}
use bpf_ringbuf.Ring.{Ring}
use bpf_ringbuf.Ring.Chain.{idle}
use bpf_ringbuf.Reader.{Reader, process_one_from_ring, reads_of}
use bpf_ringbuf.Reader.Refine.{Tracks}
use bpf_ringbuf.Reader.Takes.{Takes, Takes-Committed, process-Takes}
use bpf_ringbuf.Queue.Committed.{Committed, Committed-Kept, Committed-append, length-append}
use bpf_ringbuf.Bpf.{Helpers, rb_no_wakeup}
use bpf_ringbuf.Bpf.Sizes.{single_size}
use bpf_ringbuf.Bpf.Programs.{send, catch_fentry_one}
use bpf_ringbuf.Bench.{AddsOne, Mapped, Turn, event, read, Bench, reader, turn, turns, events}

pub AddsOne-Tracks :
    (s : Reader) (r : Ring) (q : Queue) {busy : Bool} (a : AddsOne busy s.ring r)
    → Tracks s q
    → Tracks (record s { ring = r }) (q ++ (a.added ∷ []))
AddsOne-Tracks s r q a t = record {
  chain = a.adds s.cons_pos q t.released t.chain;
  cached = let c = t.cached in let g = a.produced in omega arith;
  released = let e = a.same_consumer in let c = t.released in omega arith;
  fits = a.fits;
}

-- After `k` events: each was dropped, or is elaborated, or waits in the ring; the counters hold the
-- first two numbers, modulo 2 ^ 64.
pub record Balance (h : Helpers) (rb : h.RingBuf) (m : Mapped h rb) (k : ℕ) (b : Bench h)
    : Type 0 where
  pub drops : ℕ
  pub elaborated : ℕ
  pub waiting : Queue
  pub all : drops + (elaborated + length waiting) ≡ k
  pub n_drops : b.globals.n_drops ≡ drops % 2 ^ 64
  pub n_elaborated : b.n_elaborated ≡ elaborated % 2 ^ 64
  pub on : (b.globals.capture_enabled == 0) ≡ false
  pub committed : Committed waiting
  pub tracks : Tracks (reader h rb m b) waiting

module _ (h : Helpers) (rb : h.RingBuf) (m : Mapped h rb) (byte : ℕ) where
  open h use {State, Event, reserve, submit, get_prandom_u32}

  -- A reservation, at a ring that is as it was before the random number was taken.
  reserve-Balance :
      (k n : ℕ) (b : Bench h) (st : State)
      → m.view st ≡ m.view b.kernel
      → Balance h rb m k b
      → let (g, st') = send h b.globals (reserve rb n st) in
        Balance h rb m (k + 1) (record b { globals = g; kernel = st' })
  reserve-Balance k n b st same a = outcome (reserve rb n st).0 refl
    where
      outcome :
          (o : Option Event)
          → (reserve rb n st).0 ≡ o
          → let (g, st') = send h b.globals (o, (reserve rb n st).1) in
            Balance h rb m (k + 1) (record b { globals = g; kernel = st' })
      outcome none e =
          let v : m.view (reserve rb n st).1 ≡ m.view b.kernel = m.view-full n st e ∙ same in
          record {
            drops = a.drops + 1;
            elaborated = a.elaborated;
            waiting = a.waiting;
            all = omega (arith, a.all);
            n_drops = omega (arith, a.n_drops);
            n_elaborated = a.n_elaborated;
            on = a.on;
            committed = a.committed;
            tracks = rw v a.tracks;
          }
      outcome (some ev) e =
          let one = m.view-submit n rb_no_wakeup ev st e in
          record {
            drops = a.drops;
            elaborated = a.elaborated;
            waiting = a.waiting ++ (one.added ∷ []);
            all = omega (arith, a.all, length-append a.waiting (one.added ∷ []));
            n_drops = a.n_drops;
            n_elaborated = a.n_elaborated;
            on = a.on;
            committed = Committed-append a.waiting one.added a.committed one.committed one.kept;
            tracks =
                AddsOne-Tracks (record (reader h rb m b) { ring = m.view st }) _ a.waiting one
                  (rw same a.tracks);
          }

  event-Balance :
      (k : ℕ) (b : Bench h) → Balance h rb m k b → Balance h rb m (k + 1) (turn h rb m byte event b)
  unfolding turn catch_fentry_one
  event-Balance k b a =
      let (r, st) = get_prandom_u32 b.kernel in
      rw a.on (reserve-Balance k (single_size byte (r % 19)) b st (m.view-prandom b.kernel) a)

  -- What waits is what the reader has left.
  read-rest :
      (k : ℕ) (b : Bench h) (a : Balance h rb m k b)
      → (x : Takes (reader h rb m b) a.waiting (process_one_from_ring idle (reader h rb m b)))
      → (a' : Balance h rb m k (turn h rb m byte read b)) × (a'.waiting ≡ x.rest)
  unfolding turn
  read-rest k b a x =
      let s = reader h rb m b in
      let result = process_one_from_ring idle s in
      (
        record {
          drops = a.drops;
          elaborated = a.elaborated + reads_of result.0;
          waiting = x.rest;
          all = omega (arith, a.all, x.counted);
          n_drops = a.n_drops;
          n_elaborated = omega (arith, a.n_elaborated);
          on = a.on;
          committed = Takes-Committed s a.waiting result x a.committed;
          tracks =
              subst (λ r. Tracks (record result.1 { ring = r }) x.rest)
                (x.frame ∙ sym (m.view-release result.1.ring.consumer_pos b.kernel)) x.tracks;
        },
        refl,
      )

  read-Balance :
      (k : ℕ) (b : Bench h) → Balance h rb m k b → Balance h rb m k (turn h rb m byte read b)
  read-Balance k b a =
      (read-rest k b a (
        process-Takes (reader h rb m b) a.waiting a.tracks
          (Committed-Kept a.waiting a.committed))).0

  turns-Balance :
      (ts : List Turn) (k : ℕ) (b : Bench h)
      → Balance h rb m k b
      → Balance h rb m (k + events ts) (turns h rb m byte ts b)
  unfolding turns
  turns-Balance [] k b a = subst (λ n. Balance h rb m n b) (omega arith) a
  turns-Balance (event ∷ ts) k b a =
      subst (λ n. Balance h rb m n (turns h rb m byte ts (turn h rb m byte event b))) (omega arith)
        (turns-Balance ts (k + 1) (turn h rb m byte event b) (event-Balance k b a))
  turns-Balance (read ∷ ts) k b a =
      turns-Balance ts k (turn h rb m byte read b) (read-Balance k b a)

  start-Balance :
      (b : Bench h)
      → Tracks (reader h rb m b) []
      → (b.globals.capture_enabled == 0) ≡ false
      → b.globals.n_drops ≡ 0
      → b.n_elaborated ≡ 0
      → Balance h rb m 0 b
  start-Balance b empty on zd ze = record {
    drops = 0;
    elaborated = 0;
    waiting = [];
    all = refl;
    n_drops = zd;
    n_elaborated = ze;
    on = on;
    committed = tt;
    tracks = empty;
  }

  -- A test over a single ring that is empty at first, with the capture on and both counters at
  -- 0, with a kernel that keeps the ring as documented (Mapped) and with any order of getpgid
  -- calls and iterations of the capture loop: every event is a drop that n_drops counts, or an
  -- elaborated event that n_elaborated counts, both modulo 2 ^ 64, or a committed record that
  -- waits in the ring at the position of the reader.
  pub bench-Balance :
      (ts : List Turn) (b : Bench h)
      → Tracks (reader h rb m b) []
      → (b.globals.capture_enabled == 0) ≡ false
      → b.globals.n_drops ≡ 0
      → b.n_elaborated ≡ 0
      → Balance h rb m (events ts) (turns h rb m byte ts b)
  bench-Balance ts b empty on zd ze =
      subst (λ k. Balance h rb m k (turns h rb m byte ts b)) (omega arith)
        (turns-Balance ts 0 b (start-Balance b empty on zd ze))
