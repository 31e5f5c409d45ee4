-- ===== src/Bench/Smp/Balance.antt =====
-- The account of a test over one ring for each CPU with overlapping runs, and what a run does to it.
use bpf_ringbuf.Common.{
  ℕ, ◌+◌, ◌%◌, ◌^◌, ◌<◌, ◌≡◌, refl, ap, ◌∙◌, Option, none, some, [], ◌∷◌, ◌++◌, Bool, false, arith,
  ◌==◌, update, Bool-cases, inl, inr,
}
use bpf_ringbuf.Queue.{Queue}
use bpf_ringbuf.Queue.Committed.{Kept, Kept-append, busies, busies-append, length-append}
use bpf_ringbuf.Rings.{reader}
use bpf_ringbuf.Rings.Progress.{IsValid}
use bpf_ringbuf.Rings.Store.{==-eq}
use bpf_ringbuf.Rings.Held.{Held, waits, Held-update, waits-update}
use bpf_ringbuf.Bpf.{Helpers, Globals, count_drop, count_skip}
use bpf_ringbuf.Bpf.Sizes.{reserve_size}
use bpf_ringbuf.Bpf.Programs.{select_ringbuf}
use bpf_ringbuf.Bench.Laws.{AddsOne-Tracks}
use bpf_ringbuf.Bench.Select.{Selects, select-Selects}
use bpf_ringbuf.Bench.Cpus.{dropped}
use bpf_ringbuf.Bench.Smp.{
  count_at, Mapped, Bench, reserve_from, reserve_in, started, view, pending, mapped,
}
use bpf_ringbuf.Bench.Smp.Parts.{Placed}

-- After `k` runs of the program have begun: each was dropped, or skipped, or is elaborated, or its
-- record is in one of the rings, busy or committed; the counters hold the first three numbers,
-- modulo 2 ^ 64. In each ring the busy records are as many as the events of that ring which the runs
-- have still to submit.
pub record Balance (h : Helpers) (cnt : ℕ) (m : Mapped h cnt) (k : ℕ) (b : Bench h) : Type 0 where
  pub drops : ℕ
  pub skipped : ℕ
  pub elaborated : ℕ
  pub waiting : ℕ → Queue
  pub all : drops + (skipped + (elaborated + waits cnt waiting)) ≡ k
  pub n_drops : b.globals.n_drops ≡ drops % 2 ^ 64
  pub n_skipped : b.globals.n_skipped ≡ skipped % 2 ^ 64
  pub n_elaborated : b.n_elaborated ≡ elaborated % 2 ^ 64
  pub on : (b.globals.capture_enabled == 0) ≡ false
  pub valid : IsValid (mapped h cnt m b)
  pub count : b.ring_cnt ≡ cnt
  pub held : Held Kept cnt (mapped h cnt m b) waiting
  pub reserved : pending h cnt m b.kernel ≡ b.in_flight
  pub placed : Placed m.place cnt b.in_flight
  pub busy : (i : ℕ) → i < cnt → busies (waiting i) ≡ count_at m.place i b.in_flight

module _ (h : Helpers) (cnt : ℕ) (m : Mapped h cnt) where
  open h use {State, RingBuf, Event, reserve, submit, get_prandom_u32}

  -- One run more that has reserved nothing: it is a drop or skipped.
  lost-Balance :
      (k : ℕ) (b : Bench h) (st : State) (g : Globals) (drops skipped : ℕ)
      → m.rests.image st ≡ m.rests.image b.kernel
      → (a : Balance h cnt m k b) → drops + skipped ≡ a.drops + a.skipped + 1
      → g.n_drops ≡ drops % 2 ^ 64
      → g.n_skipped ≡ skipped % 2 ^ 64
      → (g.capture_enabled == 0) ≡ false
      → Balance h cnt m (k + 1) (record b { globals = g; kernel = st })
  lost-Balance k b st g drops skipped same a more d s on = record {
    drops = drops;
    skipped = skipped;
    elaborated = a.elaborated;
    waiting = a.waiting;
    all = omega (arith, a.all);
    n_drops = d;
    n_skipped = s;
    n_elaborated = a.n_elaborated;
    on = on;
    valid = record { current = a.valid.current; allocated = a.valid.allocated };
    count = a.count;
    held = λ i lt. rw (view, same) (a.held i lt);
    reserved = ap (λ v. v.1) same ∙ a.reserved;
    placed = a.placed;
    busy = a.busy;
  }

  -- A reservation at a ring of the array, with the rings as they were before the run.
  reserve-Balance :
      (k n : ℕ) (b : Bench h) (rb : RingBuf) (st : State)
      → m.rests.index rb < cnt
      → m.rests.image st ≡ m.rests.image b.kernel
      → Balance h cnt m k b
      → Balance h cnt m (k + 1) (started h b (dropped h b.globals (reserve rb n st)))
  reserve-Balance k n b rb st lt same a = outcome (reserve rb n st).0 refl
    where
      i : ℕ
      i = m.rests.index rb

      outcome :
          (o : Option Event)
          → (reserve rb n st).0 ≡ o
          → Balance h cnt m (k + 1) (started h b (dropped h b.globals (o, (reserve rb n st).1)))
      outcome none e =
          lost-Balance k b (reserve rb n st).1 (count_drop b.globals) (a.drops + 1) a.skipped
            (m.rests.full rb n st e ∙ same) a (omega arith) (omega (arith, a.n_drops)) a.n_skipped
            a.on
      outcome (some ev) e =
          let r = mapped h cnt m b in
          let st' = (reserve rb n st).1 in
          let one = m.view-reserve rb n ev st lt e in
          let q = a.waiting i in
          let q' = q ++ (one.added ∷ []) in
          let (kept, t) = a.held i lt in
          let more = waits-update cnt i a.waiting q' lt in
          let own : m.place ev ≡ i = m.place-reserve rb n ev st e in
          record {
            drops = a.drops;
            skipped = a.skipped;
            elaborated = a.elaborated;
            waiting = update a.waiting i q';
            all = omega (arith, a.all, more, length-append q (one.added ∷ []));
            n_drops = a.n_drops;
            n_skipped = a.n_skipped;
            n_elaborated = a.n_elaborated;
            on = a.on;
            valid = record { current = a.valid.current; allocated = a.valid.allocated };
            count = a.count;
            held =
                Held-update Kept cnt i r (mapped h cnt m (record b { kernel = st' })) a.waiting q'
                  (λ j other.
                    ap (λ g. record (reader r j) { ring = g })
                      (m.reserve-others rb n ev st e j other ∙ ap (λ v. v.0 j) same))
                  (Kept-append q one.added kept one.kept)
                  (AddsOne-Tracks (record (reader r i) { ring = view h cnt m st i }) _ q one
                    (rw (view, same) t))
                  a.held;
            reserved =
                m.pending-reserve rb n ev st e ∙ ap (λ l. ev ∷ l) (ap (λ v. v.1) same ∙ a.reserved);
            placed = (omega (arith, own), a.placed);
            busy = λ j below. elim (Bool-cases (i == j)) [
              | inl here ↦
                  let eq : i ≡ j = ==-eq i j here in
                  rw (own, here)
                    (omega (
                      arith,
                      busies-append q one.added one.committed,
                      a.busy i lt,
                      ap (λ k. count_at m.place k b.in_flight) eq,
                    ))
              | inr other ↦ rw (own, other) (omega (arith, a.busy j below))
            ];
          }

  pub start-Balance :
      (customized : Bool) (byte k : ℕ) (b : Bench h)
      → Balance h cnt m k b
      → Balance h cnt m
          (k + 1)
          (started h b (reserve_in h customized byte b.rodata_n_cpus b.globals b.kernel))
  unfolding reserve_in
  start-Balance customized byte k b a = rw a.on (
      selected (select_ringbuf h customized b.rodata_n_cpus b.kernel)
        (select-Selects h cnt m.rests customized b.rodata_n_cpus b.kernel))
    where
      selected :
          (o : Option RingBuf × State)
          → Selects h cnt m.rests b.kernel o
          → Balance h cnt m (k + 1) (started h b (reserve_from h byte b.globals o))
      selected (none, st) (lt, same) =
          lost-Balance k b st (count_skip b.globals) a.drops (a.skipped + 1) same a (omega arith)
            a.n_drops (omega (arith, a.n_skipped)) a.on
      selected (some rb, st) (lt, same) =
          let (r, st') = get_prandom_u32 st in
          reserve-Balance k (reserve_size byte (r % 7)) b rb st' lt (m.rests.prandom st ∙ same) a
