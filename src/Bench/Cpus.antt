-- ===== src/Bench/Cpus.antt =====
-- A test over a single ring whose events come from several CPUs: the runs of
-- single_ringbuf_reserve.bpf.c overlap between their reservation and their submit, so that the reader
-- may meet records that are reserved and not yet submitted.
pub mod Submit
pub mod Laws
pub mod Drains
pub mod Whole
pub mod Example
mod Tests
use bpf_ringbuf.Common.{
  length, ℕ, zero, suc, ◌+◌, ◌%◌, ◌≤◌, ◌≡◌, Option, none, some, List, [], ◌∷◌, ◌++◌, true, ◌==◌,
  if◌then◌else◌,
}
use bpf_ringbuf.Header.{u64}
use bpf_ringbuf.Queue.{Queue, Extends}
use bpf_ringbuf.Queue.Committed.{Kept, busies}
use bpf_ringbuf.Ring.{Ring}
use bpf_ringbuf.Ring.Chain.{idle, header_at, Chain}
use bpf_ringbuf.Reader.{Reader, process_one_from_ring, reads_of}
use bpf_ringbuf.Bpf.{Helpers, Globals, WakeupFlag, count_drop, rb_no_wakeup}
use bpf_ringbuf.Bpf.Sizes.{single_size}
use bpf_ringbuf.Bench.{AddsOne}

-- A record that was busy is committed; nothing is added, and nothing discarded. It is one of the
-- `reserved` records that are busy, if the queue has them all.
pub record Submits (reserved : ℕ) (r r' : Ring) : Type 0 where
  pub same_mask : r'.mask ≡ r.mask
  pub same_consumer : r'.consumer_pos ≡ r.consumer_pos
  pub same_producer : r'.producer_pos ≡ r.producer_pos
  pub commits :
      (p : ℕ) (q : Queue)
      → r.consumer_pos ≤ p
      → Chain (header_at r) p q r.producer_pos
      → Kept q
      → busies q ≡ reserved
      → (q' : Queue) × Chain (header_at r') p q' r'.producer_pos
        × Extends q q'
        × Kept q'
        × (busies q' + 1 ≡ busies q)

-- What the kernel documents of its ring buffer: the reader maps it (`view`) and may store
-- `consumer_pos` (`release`); a random number leaves it alone, and so does a reservation that fails; a
-- record that was reserved is busy, and is one of the `pending` ones until it is submitted.
pub record Mapped (h : Helpers) (rb : h.RingBuf) : Type 0 where
  pub view : h.State → Ring
  pub pending : h.State → List h.Event
  pub release : ℕ → h.State → h.State
  pub view-release :
      (p : ℕ) (st : h.State) → view (release p st) ≡ record (view st) { consumer_pos = p }
  pub pending-release : (p : ℕ) (st : h.State) → pending (release p st) ≡ pending st
  pub view-prandom : (st : h.State) → view (h.get_prandom_u32 st).1 ≡ view st
  pub pending-prandom : (st : h.State) → pending (h.get_prandom_u32 st).1 ≡ pending st
  pub view-full :
      (n : ℕ) (st : h.State) → (h.reserve rb n st).0 ≡ none → view (h.reserve rb n st).1 ≡ view st
  pub pending-full :
      (n : ℕ) (st : h.State)
      → (h.reserve rb n st).0 ≡ none
      → pending (h.reserve rb n st).1 ≡ pending st
  pub view-reserve :
      (n : ℕ) (event : h.Event) (st : h.State)
      → (h.reserve rb n st).0 ≡ some event
      → AddsOne true (view st) (view (h.reserve rb n st).1)
  pub pending-reserve :
      (n : ℕ) (event : h.Event) (st : h.State)
      → (h.reserve rb n st).0 ≡ some event
      → pending (h.reserve rb n st).1 ≡ event ∷ pending st
  pub view-submit :
      (before after : List h.Event) (event : h.Event) (flag : WakeupFlag) (st : h.State)
      → pending st ≡ before ++ (event ∷ after)
      → Submits (length (pending st)) (view st) (view (h.submit event flag st))
  pub pending-submit :
      (before after : List h.Event) (event : h.Event) (flag : WakeupFlag) (st : h.State)
      → pending st ≡ before ++ (event ∷ after)
      → pending (h.submit event flag st) ≡ before ++ after

-- A run of the program up to the reservation, the submit of one of the runs that have reserved, or
-- one iteration of the capture loop. The increment of a counter, by a run that has reserved nothing, is
-- part of the first: increments by several CPUs do not interleave here, as they do in Bpf.Race.
pub data Step : Type 0 where
  start : Step
  finish : ℕ → Step
  read : Step

-- The element at an index, and the others.
abbrev pub behind {ℓ} : {A : Type ℓ} → A → Option (A × List A) → Option (A × List A)
behind x none = none
behind x (some (y, ys)) = some (y, x ∷ ys)

abbrev pub extract {ℓ} : {A : Type ℓ} → ℕ → List A → Option (A × List A)
extract k [] = none
extract zero (x ∷ xs) = some (x, xs)
extract (suc k) (x ∷ xs) = behind x (extract k xs)

-- The globals of the BPF program, the kernel, the events that are reserved and not submitted, and
-- the globals of the reader.
pub record Bench (h : Helpers) : Type 0 where
  pub globals : Globals
  pub kernel : h.State
  pub in_flight : List h.Event
  pub cons_pos : ℕ
  pub prod_pos : ℕ
  pub n_elaborated : ℕ

module _ (h : Helpers) where
  open h use {State, Event, submit}

  -- `if(!event) { n_drops++; return 0; }`
  abbrev pub dropped : Globals → Option Event × State → Globals × Option Event × State
  dropped g (none, st) = (count_drop g, none, st)
  dropped g (some event, st) = (g, some event, st)

  abbrev pub submit_one : Option Event → State → State
  submit_one none st = st
  submit_one (some event) st = submit event rb_no_wakeup st

module _ (h : Helpers) (rb : h.RingBuf) where
  open h use {State, Event, get_prandom_u32, reserve, submit}

  -- `catch_fentry_one` up to its submit: the event, if there is one to submit.
  unfoldable pub reserve_one : ℕ → Globals → State → Globals × Option Event × State
  reserve_one byte g st =
      if g.capture_enabled == 0
      then (g, none, st)
      else (let (r, st') = get_prandom_u32 st in
          dropped h g (reserve rb (single_size byte (r % 19)) st'))

  abbrev pub started : Bench h → Globals × Option Event × State → Bench h
  started b (g, none, st) = record b { globals = g; kernel = st }
  started b (g, some event, st) = record b {
    globals = g;
    kernel = st;
    in_flight = event ∷ b.in_flight;
  }

  abbrev pub finished : Bench h → Option (Event × List Event) → Bench h
  finished b none = b
  finished b (some (event, others)) = record b {
    kernel = submit event rb_no_wakeup b.kernel;
    in_flight = others;
  }

  module _ (m : Mapped h rb) where
    abbrev pub reader : Bench h → Reader
    reader b = record { cons_pos = b.cons_pos; prod_pos = b.prod_pos; ring = m.view b.kernel }

    abbrev pub after_read : Bench h → Option ℕ × Reader → Bench h
    after_read b (sample, s) = record b {
      kernel = m.release s.ring.consumer_pos b.kernel;
      cons_pos = s.cons_pos;
      prod_pos = s.prod_pos;
      n_elaborated = u64 (b.n_elaborated + reads_of sample);
    }

    module _ (byte : ℕ) where
      unfoldable pub step : Step → Bench h → Bench h
      step start b = started b (reserve_one byte b.globals b.kernel)
      step (finish k) b = finished b (extract k b.in_flight)
      step read b = after_read b (process_one_from_ring idle (reader b))

      unfoldable pub steps : List Step → Bench h → Bench h
      steps [] b = b
      steps (t ∷ ts) b = steps ts (step t b)

-- The runs of the program.
abbrev pub starts : List Step → ℕ
starts [] = 0
starts (start ∷ ts) = starts ts + 1
starts (finish k ∷ ts) = starts ts
starts (read ∷ ts) = starts ts

-- So many iterations of the capture loop, with no run of the program between them.
abbrev pub reads : ℕ → List Step
reads zero = []
reads (suc n) = read ∷ reads n
