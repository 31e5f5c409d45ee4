-- ===== src/Bench/Many/Balance.antt =====
-- The account of a test over one ring for each CPU, and what an event does to it.
use bpf_ringbuf.Common.{
  ℕ, ◌+◌, ◌%◌, ◌^◌, ◌<◌, ◌≡◌, refl, ap, ◌∙◌, Option, none, some, [], ◌∷◌, ◌++◌, Bool, false, arith,
  ◌==◌, update,
}
use bpf_ringbuf.Queue.{Queue}
use bpf_ringbuf.Queue.Committed.{Committed, Committed-append, length-append}
use bpf_ringbuf.Rings.{Iteration, reader}
use bpf_ringbuf.Rings.Progress.{IsValid}
use bpf_ringbuf.Bpf.{Helpers, Globals, count_drop, count_skip, rb_no_wakeup}
use bpf_ringbuf.Bpf.Sizes.{reserve_size}
use bpf_ringbuf.Bpf.Programs.{send, reserve_some, with_ringbuf, select_ringbuf, catch_fentry}
use bpf_ringbuf.Bench.{event}
use bpf_ringbuf.Bench.Laws.{AddsOne-Tracks}
use bpf_ringbuf.Bench.Many.{Mapped, Bench, mapped, resting, turn}
use bpf_ringbuf.Bench.Select.{Selects, select-Selects}
use bpf_ringbuf.Rings.Held.{Held, waits, Held-update, waits-update}

-- After `k` events: each was dropped, or skipped, or is elaborated, or waits in one of the rings;
-- the counters hold the first three numbers, modulo 2 ^ 64.
pub record Balance (h : Helpers) (cnt : ℕ) (m : Mapped h cnt) (k : ℕ) (b : Bench h) : Type 0 where
  pub drops : ℕ
  pub skipped : ℕ
  pub elaborated : ℕ
  pub waiting : ℕ → Queue
  pub all : drops + (skipped + (elaborated + waits cnt waiting)) ≡ k
  pub n_drops : b.globals.n_drops ≡ drops % 2 ^ 64
  pub n_skipped : b.globals.n_skipped ≡ skipped % 2 ^ 64
  pub n_elaborated : b.n_elaborated ≡ elaborated % 2 ^ 64
  pub on : (b.globals.capture_enabled == 0) ≡ false
  pub valid : IsValid (mapped h cnt m b)
  pub count : b.ring_cnt ≡ cnt
  pub held : Held Committed cnt (mapped h cnt m b) waiting

module _ (h : Helpers) (cnt : ℕ) (m : Mapped h cnt) where
  open h use {State, RingBuf, Event, reserve, submit, get_prandom_u32}

  abbrev pub Balanced : ℕ → Option (Bench h) → Type 0
  Balanced k none = ⊥
  Balanced k (some b) = Balance h cnt m k b

  -- The rings are the same after the kernel's step.
  same-Held :
      (b : Bench h) (st : State) (waiting : ℕ → Queue)
      → m.view st ≡ m.view b.kernel
      → Held Committed cnt (mapped h cnt m b) waiting
      → Held Committed cnt (mapped h cnt m (record b { kernel = st })) waiting
  same-Held b st waiting same held i lt = rw same (held i lt)

  -- One event more that reaches no ring: it is a drop or skipped.
  lost-Balance :
      (k : ℕ) (b : Bench h) (st : State) (g : Globals) (drops skipped : ℕ)
      → m.view st ≡ m.view b.kernel
      → (a : Balance h cnt m k b) → drops + skipped ≡ a.drops + a.skipped + 1
      → g.n_drops ≡ drops % 2 ^ 64
      → g.n_skipped ≡ skipped % 2 ^ 64
      → (g.capture_enabled == 0) ≡ false
      → Balance h cnt m (k + 1) (record b { globals = g; kernel = st })
  lost-Balance k b st g drops skipped same a more d s on = record {
    drops = drops;
    skipped = skipped;
    elaborated = a.elaborated;
    waiting = a.waiting;
    all = omega (arith, a.all);
    n_drops = d;
    n_skipped = s;
    n_elaborated = a.n_elaborated;
    on = on;
    valid = record { current = a.valid.current; allocated = a.valid.allocated };
    count = a.count;
    held = same-Held b st a.waiting same a.held;
  }

  -- A reservation at a ring of the array, with the rings as they were before the event.
  reserve-Balance :
      (k n : ℕ) (b : Bench h) (rb : RingBuf) (st : State)
      → m.index rb < cnt
      → m.view st ≡ m.view b.kernel
      → Balance h cnt m k b
      → let (g, st') = send h b.globals (reserve rb n st) in
        Balance h cnt m (k + 1) (record b { globals = g; kernel = st' })
  reserve-Balance k n b rb st lt same a = outcome (reserve rb n st).0 refl
    where
      i : ℕ
      i = m.index rb

      outcome :
          (o : Option Event)
          → (reserve rb n st).0 ≡ o
          → let (g, st') = send h b.globals (o, (reserve rb n st).1) in
            Balance h cnt m (k + 1) (record b { globals = g; kernel = st' })
      outcome none e =
          lost-Balance k b (reserve rb n st).1 (count_drop b.globals) (a.drops + 1) a.skipped
            (m.view-full rb n st e ∙ same) a (omega arith) (omega (arith, a.n_drops)) a.n_skipped
            a.on
      outcome (some ev) e =
          let r = mapped h cnt m b in
          let st' = submit ev rb_no_wakeup (reserve rb n st).1 in
          let one = m.view-submit rb n rb_no_wakeup ev st lt e in
          let q = a.waiting i in
          let q' = q ++ (one.added ∷ []) in
          let (c, t) = a.held i lt in
          let more = waits-update cnt i a.waiting q' lt in
          record {
            drops = a.drops;
            skipped = a.skipped;
            elaborated = a.elaborated;
            waiting = update a.waiting i q';
            all = omega (arith, a.all, more, length-append q (one.added ∷ []));
            n_drops = a.n_drops;
            n_skipped = a.n_skipped;
            n_elaborated = a.n_elaborated;
            on = a.on;
            valid = record { current = a.valid.current; allocated = a.valid.allocated };
            count = a.count;
            held =
                Held-update Committed cnt i r (mapped h cnt m (record b { kernel = st' })) a.waiting
                  q'
                  (λ j other.
                    ap (λ g. record (reader r j) { ring = g })
                      (m.submit-others rb n rb_no_wakeup ev st e j other ∙ ap (λ v. v j) same))
                  (Committed-append q one.added c one.committed one.kept)
                  (AddsOne-Tracks (record (reader r i) { ring = m.view st i }) _ q one (rw same t))
                  a.held;
          }

  pub event-Balance :
      (iterate : Iteration) (customized : Bool) (byte k : ℕ) (b : Bench h)
      → Balance h cnt m k b
      → Balanced (k + 1) (turn h cnt m iterate customized byte event b)
  unfolding turn catch_fentry
  event-Balance iterate customized byte k b a = rw a.on (
      selected (select_ringbuf h customized b.n_cpus b.kernel)
        (select-Selects h cnt (resting m) customized b.n_cpus b.kernel))
    where
      selected :
          (o : Option RingBuf × State)
          → Selects h cnt (resting m) b.kernel o
          → let (g, st) =
              with_ringbuf h
                (reserve_some h b.globals (λ r. reserve_size byte (r % 7)))
                b.globals
                o in
            Balance h cnt m (k + 1) (record b { globals = g; kernel = st })
      selected (none, st) (lt, same) =
          lost-Balance k b st (count_skip b.globals) a.drops (a.skipped + 1) same a (omega arith)
            a.n_drops (omega (arith, a.n_skipped)) a.on
      selected (some rb, st) (lt, same) =
          let (r, st') = get_prandom_u32 st in
          reserve-Balance k (reserve_size byte (r % 7)) b rb st' lt (m.view-prandom st ∙ same) a
