-- ===== src/Bench/Many.antt =====
-- A test as a whole, on one ring for each CPU: `catch_fentry` of multi_ringbuf_reserve.bpf.c puts
-- records into the rings, and the capture loop of multi_ringbuf_reserve's case1.c, case3.c or case4.c
-- reads them.
pub mod Balance
pub mod Laws
pub mod Drains
mod Tests
use mathlib.Core.Option
use bpf_ringbuf.Common.{
  ℕ, ◌+◌, ◌<◌, ◌≡◌, Option, none, some, List, [], ◌∷◌, Bool, true, false, ◌==◌,
}
use bpf_ringbuf.Header.{u64}
use bpf_ringbuf.Ring.{Ring}
use bpf_ringbuf.Ring.Chain.{idle}
use bpf_ringbuf.Reader.{reads_of}
use bpf_ringbuf.Rings.{Rings, Iteration, Sample}
use bpf_ringbuf.Bpf.{Helpers, Globals, QueryFlag, WakeupFlag}
use bpf_ringbuf.Bpf.Programs.{catch_fentry}
use bpf_ringbuf.Bench.{AddsOne, Turn, event, read}
use bpf_ringbuf.Bench.Select.{Rests}

-- What the kernel documents of the `cnt` ring buffers in the array: the reader maps them (`view`)
-- and may store `consumer_pos` of one (`release`); the CPU's number, a random number, a lookup, a
-- query and a reservation that fails leave them alone; a record that is reserved and submitted is
-- one more in its ring, which is one of the array.
pub record Mapped (h : Helpers) (cnt : ℕ) : Type 0 where
  pub view : h.State → ℕ → Ring
  pub index : h.RingBuf → ℕ
  pub release : ℕ → ℕ → h.State → h.State
  pub view-release :
      (i p : ℕ) (st : h.State) → view (release i p st) i ≡ record (view st i) { consumer_pos = p }
  pub view-others :
      (i p : ℕ) (st : h.State) (j : ℕ) → (i == j) ≡ false → view (release i p st) j ≡ view st j
  pub view-cpu : (st : h.State) → view (h.get_smp_processor_id st).1 ≡ view st
  pub view-prandom : (st : h.State) → view (h.get_prandom_u32 st).1 ≡ view st
  pub view-lookup : (i : ℕ) (st : h.State) → view (h.lookup_ringbuf i st).1 ≡ view st
  pub view-query :
      (rb : h.RingBuf) (flag : QueryFlag) (st : h.State) → view (h.query rb flag st).1 ≡ view st
  pub index-lookup :
      (i : ℕ) (st : h.State) (rb : h.RingBuf) → (h.lookup_ringbuf i st).0 ≡ some rb → index rb < cnt
  pub view-full :
      (rb : h.RingBuf) (n : ℕ) (st : h.State)
      → (h.reserve rb n st).0 ≡ none
      → view (h.reserve rb n st).1 ≡ view st
  pub view-submit :
      (rb : h.RingBuf) (n : ℕ) (flag : WakeupFlag) (event : h.Event) (st : h.State)
      → index rb < cnt
      → (h.reserve rb n st).0 ≡ some event
      → AddsOne false
          (view st (index rb))
          (view (h.submit event flag (h.reserve rb n st).1) (index rb))
  pub submit-others :
      (rb : h.RingBuf) (n : ℕ) (flag : WakeupFlag) (event : h.Event) (st : h.State)
      → (h.reserve rb n st).0 ≡ some event
      → (j : ℕ) → (index rb == j) ≡ false
      → view (h.submit event flag (h.reserve rb n st).1) j ≡ view st j

abbrev pub resting : {h : Helpers} {cnt : ℕ} → Mapped h cnt → Rests h cnt (ℕ → Ring)
resting m = record {
  image = m.view;
  index = m.index;
  cpu = m.view-cpu;
  prandom = m.view-prandom;
  lookup = m.view-lookup;
  query = m.view-query;
  full = m.view-full;
  index-lookup = m.index-lookup;
}

-- The globals of the BPF program, the kernel, and the globals of the reader.
pub record Bench (h : Helpers) : Type 0 where
  pub globals : Globals
  pub kernel : h.State
  pub cons_pos : ℕ → ℕ
  pub prod_pos : ℕ → ℕ
  pub n_cpus : ℕ
  pub ring_cnt : ℕ
  pub ringbuf_pos : ℕ
  pub n_elaborated : ℕ

module _ (h : Helpers) (cnt : ℕ) (m : Mapped h cnt) where
  -- The reader's globals, with the rings as they are mapped.
  abbrev pub mapped : Bench h → Rings
  mapped b = record {
    cons_pos = b.cons_pos;
    prod_pos = b.prod_pos;
    n_cpus = b.n_cpus;
    rings = m.view b.kernel;
    ring_cnt = b.ring_cnt;
    ringbuf_pos = b.ringbuf_pos;
  }

  -- What the iteration has done to the rings is its store of `consumer_pos` of the current one.
  abbrev pub after_read : Bench h → Option Sample × Rings → Bench h
  after_read b (out, r) = record b {
    kernel = m.release b.ringbuf_pos (r.rings b.ringbuf_pos).consumer_pos b.kernel;
    cons_pos = r.cons_pos;
    prod_pos = r.prod_pos;
    ringbuf_pos = r.ringbuf_pos;
    n_elaborated = u64 (b.n_elaborated + reads_of out);
  }

  module _ (iterate : Iteration) (customized : Bool) (byte : ℕ) where
    -- A getpgid call, or one iteration of the loop of `ring_buffer__consume_one`, whose sample
    -- `main` counts; `none` is an access out of range.
    unfoldable pub turn : Turn → Bench h → Option (Bench h)
    turn event b =
        let (g, st) = catch_fentry h customized byte b.n_cpus b.globals b.kernel in
        some (record b { globals = g; kernel = st })
    turn read b = Option.map (after_read b) (iterate idle (mapped b))

    unfoldable pub turns : List Turn → Bench h → Option (Bench h)
    turns [] b = some b
    turns (t ∷ ts) b = Option.bind (turn t b) (turns ts)
