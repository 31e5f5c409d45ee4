-- ===== src/Bench/Smp.antt =====
-- A test over one ring for each CPU whose events come from several CPUs: the runs of `catch_fentry`
-- of multi_ringbuf_reserve.bpf.c overlap between their reservation and their submit, so that the
-- capture loop of multi_ringbuf_reserve's case1.c, case3.c or case4.c may meet records that are
-- reserved and not yet submitted.
pub mod Parts
pub mod Balance
pub mod Finish
pub mod Laws
pub mod Drains
pub mod Whole
pub mod Example
mod Tests
use mathlib.Core.Option
use bpf_ringbuf.Common.{
  ℕ, ◌+◌, ◌%◌, ◌<◌, ◌≡◌, Option, none, some, List, [], ◌∷◌, ◌++◌, Bool, true, false, ◌==◌,
  if◌then◌else◌,
}
use bpf_ringbuf.Header.{u64}
use bpf_ringbuf.Ring.{Ring}
use bpf_ringbuf.Ring.Chain.{idle}
use bpf_ringbuf.Reader.{reads_of}
use bpf_ringbuf.Rings.{Rings, Iteration, Sample}
use bpf_ringbuf.Rings.RoundRobin
use bpf_ringbuf.Rings.Sticky
use bpf_ringbuf.Bpf.{Helpers, Globals, WakeupFlag, count_skip, rb_no_wakeup}
use bpf_ringbuf.Bpf.Sizes.{reserve_size}
use bpf_ringbuf.Bpf.Programs.{select_ringbuf}
use bpf_ringbuf.Bench.{AddsOne}
use bpf_ringbuf.Bench.Select.{Rests}
use bpf_ringbuf.Bench.Cpus.{Submits, Step, start, finish, read, extract, dropped}

-- The events of the list that are in ring `i`.
abbrev pub count_at {ℓ} : {A : Type ℓ} → (A → ℕ) → ℕ → List A → ℕ
count_at place i [] = 0
count_at place i (x ∷ xs) = (if place x == i then 1 else 0) + count_at place i xs

-- What the kernel documents of the `cnt` ring buffers in the array. What others see of them are the
-- rings that the reader maps, of which it may store the `consumer_pos` (`release`), and the events
-- that are reserved and not submitted. A reservation puts a busy record into its ring, the submit of
-- an event commits one of the records of that ring that are busy, and neither changes another ring.
pub record Mapped (h : Helpers) (cnt : ℕ) : Type 0 where
  pub rests : Rests h cnt ((ℕ → Ring) × List h.Event)
  pub place : h.Event → ℕ
  pub release : ℕ → ℕ → h.State → h.State
  pub view-release :
      (i p : ℕ) (st : h.State)
      → (rests.image (release i p st)).0 i ≡ record ((rests.image st).0 i) { consumer_pos = p }
  pub view-others :
      (i p : ℕ) (st : h.State) (j : ℕ)
      → (i == j) ≡ false
      → (rests.image (release i p st)).0 j ≡ (rests.image st).0 j
  pub pending-release :
      (i p : ℕ) (st : h.State) → (rests.image (release i p st)).1 ≡ (rests.image st).1
  pub place-reserve :
      (rb : h.RingBuf) (n : ℕ) (event : h.Event) (st : h.State)
      → (h.reserve rb n st).0 ≡ some event
      → place event ≡ rests.index rb
  pub view-reserve :
      (rb : h.RingBuf) (n : ℕ) (event : h.Event) (st : h.State)
      → rests.index rb < cnt
      → (h.reserve rb n st).0 ≡ some event
      → AddsOne true
          ((rests.image st).0 (rests.index rb))
          ((rests.image (h.reserve rb n st).1).0 (rests.index rb))
  pub reserve-others :
      (rb : h.RingBuf) (n : ℕ) (event : h.Event) (st : h.State)
      → (h.reserve rb n st).0 ≡ some event
      → (j : ℕ) → (rests.index rb == j) ≡ false
      → (rests.image (h.reserve rb n st).1).0 j ≡ (rests.image st).0 j
  pub pending-reserve :
      (rb : h.RingBuf) (n : ℕ) (event : h.Event) (st : h.State)
      → (h.reserve rb n st).0 ≡ some event
      → (rests.image (h.reserve rb n st).1).1 ≡ event ∷ (rests.image st).1
  pub view-submit :
      (before after : List h.Event) (event : h.Event) (flag : WakeupFlag) (st : h.State)
      → place event < cnt
      → (rests.image st).1 ≡ before ++ (event ∷ after)
      → Submits
          (count_at place (place event) (rests.image st).1)
          ((rests.image st).0 (place event))
          ((rests.image (h.submit event flag st)).0 (place event))
  pub submit-others :
      (before after : List h.Event) (event : h.Event) (flag : WakeupFlag) (st : h.State)
      → (rests.image st).1 ≡ before ++ (event ∷ after)
      → (j : ℕ) → (place event == j) ≡ false
      → (rests.image (h.submit event flag st)).0 j ≡ (rests.image st).0 j
  pub pending-submit :
      (before after : List h.Event) (event : h.Event) (flag : WakeupFlag) (st : h.State)
      → (rests.image st).1 ≡ before ++ (event ∷ after)
      → (rests.image (h.submit event flag st)).1 ≡ before ++ after

-- The files whose loop reads.
pub data Case : Type 0 where
  case_1 : Case
  case_3 : Case
  case_4 : Case

abbrev pub iterate_of : Case → Iteration
iterate_of case_1 = RoundRobin.iterate
iterate_of case_3 = Sticky.case3
iterate_of case_4 = Sticky.case4

-- The globals of the BPF program, the kernel, the events that are reserved and not submitted, and
-- the globals of the reader.
pub record Bench (h : Helpers) : Type 0 where
  pub globals : Globals
  pub kernel : h.State
  pub in_flight : List h.Event
  pub cons_pos : ℕ → ℕ
  pub prod_pos : ℕ → ℕ
  pub rodata_n_cpus : ℕ
  pub n_cpus : ℕ
  pub ring_cnt : ℕ
  pub ringbuf_pos : ℕ
  pub n_elaborated : ℕ

module _ (h : Helpers) where
  open h use {State, RingBuf, Event, get_prandom_u32, reserve, submit}

  -- From `if(!rb)` to `if(!event)`.
  abbrev pub reserve_from : ℕ → Globals → Option RingBuf × State → Globals × Option Event × State
  reserve_from byte g (none, st) = (count_skip g, none, st)
  reserve_from byte g (some rb, st) =
      let (r, st') = get_prandom_u32 st in dropped h g (reserve rb (reserve_size byte (r % 7)) st')

  -- `catch_fentry` up to its submit: the event, if there is one to submit.
  unfoldable pub reserve_in : Bool → ℕ → ℕ → Globals → State → Globals × Option Event × State
  reserve_in customized byte n_cpus g st =
      if g.capture_enabled == 0
      then (g, none, st)
      else reserve_from byte g (select_ringbuf h customized n_cpus st)

  abbrev pub started : Bench h → Globals × Option Event × State → Bench h
  started b (g, none, st) = record b { globals = g; kernel = st }
  started b (g, some event, st) = record b {
    globals = g;
    kernel = st;
    in_flight = event ∷ b.in_flight;
  }

  abbrev pub finished : Bench h → Option (Event × List Event) → Bench h
  finished b none = b
  finished b (some (event, others)) = record b {
    kernel = submit event rb_no_wakeup b.kernel;
    in_flight = others;
  }

module _ (h : Helpers) (cnt : ℕ) (m : Mapped h cnt) where
  -- The rings as they are mapped, and the events that the kernel holds as reserved.
  abbrev pub view : h.State → ℕ → Ring
  view st = (m.rests.image st).0

  abbrev pub pending : h.State → List h.Event
  pending st = (m.rests.image st).1

  -- The reader's globals, with the rings as they are mapped.
  abbrev pub mapped : Bench h → Rings
  mapped b = record {
    cons_pos = b.cons_pos;
    prod_pos = b.prod_pos;
    n_cpus = b.n_cpus;
    rings = view b.kernel;
    ring_cnt = b.ring_cnt;
    ringbuf_pos = b.ringbuf_pos;
  }

  -- What the iteration has done to the rings is its store of `consumer_pos` of the current one.
  abbrev pub after_read : Bench h → Option Sample × Rings → Bench h
  after_read b (out, r) = record b {
    kernel = m.release b.ringbuf_pos (r.rings b.ringbuf_pos).consumer_pos b.kernel;
    cons_pos = r.cons_pos;
    prod_pos = r.prod_pos;
    ringbuf_pos = r.ringbuf_pos;
    n_elaborated = u64 (b.n_elaborated + reads_of out);
  }

  module _ (c : Case) (customized : Bool) (byte : ℕ) where
    -- A run up to the reservation, the increment of a counter included, a submit, or one iteration of the loop of
    -- `ring_buffer__consume_one`, whose sample `main` counts; `none` is an access out of range.
    unfoldable pub step : Step → Bench h → Option (Bench h)
    step start b =
        some (started h b (reserve_in h customized byte b.rodata_n_cpus b.globals b.kernel))
    step (finish k) b = some (finished h b (extract k b.in_flight))
    step read b = Option.map (after_read b) (iterate_of c idle (mapped b))

    unfoldable pub steps : List Step → Bench h → Option (Bench h)
    steps [] b = some b
    steps (t ∷ ts) b = Option.bind (step t b) (steps ts)
