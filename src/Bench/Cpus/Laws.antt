-- ===== src/Bench/Cpus/Laws.antt =====
-- What a test counts whose events come from several CPUs.
use mathlib.Core.Path.{subst}
use bpf_ringbuf.Common.{
  ℕ, ◌+◌, ◌%◌, ◌^◌, ◌≡◌, refl, sym, ap, ◌∙◌, Option, none, some, List, [], ◌∷◌, ◌++◌, false, length,
  arith, ◌==◌, inl, inr, Bool-cases,
}
use bpf_ringbuf.Queue.{Queue}
use bpf_ringbuf.Queue.Committed.{Kept, Kept-append, length-append, busies, busies-append}
use bpf_ringbuf.Ring.Chain.{idle}
use bpf_ringbuf.Reader.{process_one_from_ring, reads_of}
use bpf_ringbuf.Reader.Refine.{Tracks}
use bpf_ringbuf.Reader.Takes.{Takes, process-Takes}
use bpf_ringbuf.Bpf.{Helpers, Globals, rb_no_wakeup}
use bpf_ringbuf.Bpf.Sizes.{single_size}
use bpf_ringbuf.Bpf.Programs.{send, catch_fentry_one}
use bpf_ringbuf.Bench.Laws.{AddsOne-Tracks}
use bpf_ringbuf.Bench.Cpus.Submit.{Submits-Tracks, extract-Splits}
use bpf_ringbuf.Bench.Cpus.{
  Mapped, Step, start, finish, read, extract, Bench, dropped, reserve_one, submit_one, started,
  finished, reader, step, steps, starts,
}

-- After `k` runs of the program have begun: each was dropped, or is elaborated, or its record is in
-- the ring, busy or committed; the counters hold the first two numbers, modulo 2 ^ 64. The records
-- that the kernel holds as reserved are those that the runs have still to submit.
pub record Balance (h : Helpers) (rb : h.RingBuf) (m : Mapped h rb) (k : ℕ) (b : Bench h)
    : Type 0 where
  pub drops : ℕ
  pub elaborated : ℕ
  pub waiting : Queue
  pub all : drops + (elaborated + length waiting) ≡ k
  pub n_drops : b.globals.n_drops ≡ drops % 2 ^ 64
  pub n_elaborated : b.n_elaborated ≡ elaborated % 2 ^ 64
  pub on : (b.globals.capture_enabled == 0) ≡ false
  pub reserved : m.pending b.kernel ≡ b.in_flight
  pub kept : Kept waiting
  pub busy : busies waiting ≡ length b.in_flight
  pub tracks : Tracks (reader h rb m b) waiting

module _ (h : Helpers) (rb : h.RingBuf) where
  open h use {State, Event, reserve, submit, get_prandom_u32}

  -- A run of single_ringbuf_reserve.bpf.c is its part up to the reservation followed, if there is an
  -- event, by its submit, whatever the helpers answer.
  reserve_one-submit_one :
      (byte : ℕ) (g : Globals) (st : State)
      → let (g', o, st') = reserve_one h rb byte g st in
        catch_fentry_one h rb byte g st ≡ (g', submit_one h o st')
  unfolding reserve_one catch_fentry_one
  reserve_one-submit_one byte g st = elim (Bool-cases (g.capture_enabled == 0)) [
    | inl off ↦ rw off refl
    | inr on ↦ rw on (sent (reserve rb _ _))
  ]
    where
      sent :
          (r : Option Event × State)
          → let (g', o, st') = dropped h g r in send h g r ≡ (g', submit_one h o st')
      sent (none, st) = refl
      sent (some event, st) = refl

  module _ (m : Mapped h rb) (byte : ℕ) where
    -- A reservation, at a ring that is as it was before the random number was taken.
    reserve-Balance :
        (k n : ℕ) (b : Bench h) (st : State)
        → m.view st ≡ m.view b.kernel
        → m.pending st ≡ m.pending b.kernel
        → Balance h rb m k b
        → Balance h rb m (k + 1) (started h rb b (dropped h b.globals (reserve rb n st)))
    reserve-Balance k n b st same held a = outcome (reserve rb n st).0 refl
      where
        outcome :
            (o : Option Event)
            → (reserve rb n st).0 ≡ o
            → Balance h rb m (k + 1) (started h rb b (dropped h b.globals (o, (reserve rb n st).1)))
        outcome none e =
            let v : m.view (reserve rb n st).1 ≡ m.view b.kernel = m.view-full n st e ∙ same in
            record {
              drops = a.drops + 1;
              elaborated = a.elaborated;
              waiting = a.waiting;
              all = omega (arith, a.all);
              n_drops = omega (arith, a.n_drops);
              n_elaborated = a.n_elaborated;
              on = a.on;
              reserved = m.pending-full n st e ∙ (held ∙ a.reserved);
              kept = a.kept;
              busy = a.busy;
              tracks = rw v a.tracks;
            }
        outcome (some ev) e =
            let one = m.view-reserve n ev st e in
            record {
              drops = a.drops;
              elaborated = a.elaborated;
              waiting = a.waiting ++ (one.added ∷ []);
              all = omega (arith, a.all, length-append a.waiting (one.added ∷ []));
              n_drops = a.n_drops;
              n_elaborated = a.n_elaborated;
              on = a.on;
              reserved = m.pending-reserve n ev st e ∙ ap (λ l. ev ∷ l) (held ∙ a.reserved);
              kept = Kept-append a.waiting one.added a.kept one.kept;
              busy = omega (arith, busies-append a.waiting one.added one.committed, a.busy);
              tracks =
                  AddsOne-Tracks (record (reader h rb m b) { ring = m.view st }) _ a.waiting one
                    (rw same a.tracks);
            }

    start-Balance :
        (k : ℕ) (b : Bench h)
        → Balance h rb m k b
        → Balance h rb m (k + 1) (step h rb m byte start b)
    unfolding step reserve_one
    start-Balance k b a =
        let (r, st) = get_prandom_u32 b.kernel in
        rw a.on (
          reserve-Balance k (single_size byte (r % 19)) b st (m.view-prandom b.kernel)
            (m.pending-prandom b.kernel) a)

    submit-Balance :
        (k : ℕ) (b : Bench h) (before after : List Event) (ev : Event)
        → b.in_flight ≡ before ++ (ev ∷ after)
        → Balance h rb m k b
        → Balance h rb m k
            (record b { kernel = submit ev rb_no_wakeup b.kernel; in_flight = before ++ after })
    submit-Balance k b before after ev e a =
        let held = a.reserved ∙ e in
        let one = m.view-submit before after ev rb_no_wakeup b.kernel held in
        let (q', t, as_many, k', less) =
          Submits-Tracks (reader h rb m b) _ a.waiting one a.tracks a.kept
            (a.busy ∙ ap length (sym a.reserved)) in
        let before_submit = ap length e in
        let all_but_one = length-append before after in
        let together = length-append before (ev ∷ after) in
        record {
          drops = a.drops;
          elaborated = a.elaborated;
          waiting = q';
          all = omega (arith, a.all, as_many);
          n_drops = a.n_drops;
          n_elaborated = a.n_elaborated;
          on = a.on;
          reserved = m.pending-submit before after ev rb_no_wakeup b.kernel held;
          kept = k';
          busy = omega (arith, less, a.busy, before_submit, all_but_one, together);
          tracks = t;
        }

    finish-Balance :
        (k i : ℕ) (b : Bench h)
        → Balance h rb m k b
        → Balance h rb m k (step h rb m byte (finish i) b)
    unfolding step
    finish-Balance k i b a = outcome (extract i b.in_flight) refl
      where
        outcome :
            (o : Option (Event × List Event))
            → extract i b.in_flight ≡ o
            → Balance h rb m k (finished h rb b o)
        outcome none e = a
        outcome (some (ev, rest)) e =
            let (before, after, split, others) = extract-Splits i b.in_flight ev rest e in
            rw others (submit-Balance k b before after ev split a)

    -- What waits is what the reader has left.
    pub read-rest :
        (k : ℕ) (b : Bench h) (a : Balance h rb m k b)
        → (x : Takes (reader h rb m b) a.waiting (process_one_from_ring idle (reader h rb m b)))
        → (a' : Balance h rb m k (step h rb m byte read b)) × (a'.waiting ≡ x.rest)
    unfolding step
    read-rest k b a x =
        let s = reader h rb m b in
        let result = process_one_from_ring idle s in
        let p = result.1.ring.consumer_pos in
        (
          record {
            drops = a.drops;
            elaborated = a.elaborated + reads_of result.0;
            waiting = x.rest;
            all = omega (arith, a.all, x.counted);
            n_drops = a.n_drops;
            n_elaborated = omega (arith, a.n_elaborated);
            on = a.on;
            reserved = m.pending-release p b.kernel ∙ a.reserved;
            kept = x.kept;
            busy = x.same_busy ∙ a.busy;
            tracks =
                subst (λ r. Tracks (record result.1 { ring = r }) x.rest)
                  (x.frame ∙ sym (m.view-release p b.kernel)) x.tracks;
          },
          refl,
        )

    read-Balance :
        (k : ℕ) (b : Bench h) → Balance h rb m k b → Balance h rb m k (step h rb m byte read b)
    read-Balance k b a =
        (read-rest k b a (process-Takes (reader h rb m b) a.waiting a.tracks a.kept)).0

    steps-Balance :
        (ts : List Step) (k : ℕ) (b : Bench h)
        → Balance h rb m k b
        → Balance h rb m (k + starts ts) (steps h rb m byte ts b)
    unfolding steps
    steps-Balance [] k b a = subst (λ n. Balance h rb m n b) (omega arith) a
    steps-Balance (start ∷ ts) k b a =
        subst (λ n. Balance h rb m n (steps h rb m byte ts (step h rb m byte start b)))
          (omega arith) (steps-Balance ts (k + 1) (step h rb m byte start b) (start-Balance k b a))
    steps-Balance (finish i ∷ ts) k b a =
        steps-Balance ts k (step h rb m byte (finish i) b) (finish-Balance k i b a)
    steps-Balance (read ∷ ts) k b a =
        steps-Balance ts k (step h rb m byte read b) (read-Balance k b a)

    start_of-Balance :
        (b : Bench h)
        → Tracks (reader h rb m b) []
        → b.in_flight ≡ []
        → m.pending b.kernel ≡ []
        → (b.globals.capture_enabled == 0) ≡ false
        → b.globals.n_drops ≡ 0
        → b.n_elaborated ≡ 0
        → Balance h rb m 0 b
    start_of-Balance b empty none_flies none_held on zd ze = record {
      drops = 0;
      elaborated = 0;
      waiting = [];
      all = refl;
      n_drops = zd;
      n_elaborated = ze;
      on = on;
      reserved = none_held ∙ sym none_flies;
      kept = tt;
      busy = sym (ap length none_flies);
      tracks = empty;
    }

    -- A test over a single ring that is empty at first, with the capture on, both counters at 0 and
    -- no record reserved, with a kernel that keeps the ring as documented (Mapped), and with the runs
    -- of the program on several CPUs overlapping in any way between their reservation and their
    -- submit, and with the iterations of the capture loop: every run that has begun is a drop that
    -- n_drops counts, or an elaborated event that n_elaborated counts, both modulo 2 ^ 64, or has a
    -- record in the ring at the position of the reader; the busy ones are as many as the runs that
    -- have still to submit.
    pub cpus-Balance :
        (ts : List Step) (b : Bench h)
        → Tracks (reader h rb m b) []
        → b.in_flight ≡ []
        → m.pending b.kernel ≡ []
        → (b.globals.capture_enabled == 0) ≡ false
        → b.globals.n_drops ≡ 0
        → b.n_elaborated ≡ 0
        → Balance h rb m (starts ts) (steps h rb m byte ts b)
    cpus-Balance ts b empty none_flies none_held on zd ze =
        subst (λ k. Balance h rb m k (steps h rb m byte ts b)) (omega arith)
          (steps-Balance ts 0 b (start_of-Balance b empty none_flies none_held on zd ze))
