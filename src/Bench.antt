-- ===== src/Bench.antt =====
-- A test as a whole, on a single ring: single_ringbuf_reserve.bpf.c puts records into the ring, and
-- the loop of single_ringbuf_reserve/case1.c reads them.
pub mod Laws
pub mod Select
pub mod Many
pub mod Cpus
pub mod Smp
pub mod Libbpf
pub mod Example
mod Tests
use bpf_ringbuf.Common.{
  Bool, ℕ, zero, suc, ◌+◌, ◌<◌, ◌≤◌, ◌^◌, ◌≡◌, Option, none, some, List, [], ◌∷◌, ◌++◌, false,
}
use bpf_ringbuf.Header.{u64, is_busy, is_discarded}
use bpf_ringbuf.Queue.{Queue}
use bpf_ringbuf.Ring.{Ring}
use bpf_ringbuf.Ring.Chain.{idle, header_at, Chain}
use bpf_ringbuf.Reader.{Reader, process_one_from_ring, reads_of}
use bpf_ringbuf.Bpf.{Helpers, Globals, WakeupFlag}
use bpf_ringbuf.Bpf.Programs.{catch_fentry_one}

-- One record more, busy or committed, behind those that are there.
pub record AddsOne (busy : Bool) (r r' : Ring) : Type 0 where
  pub same_mask : r'.mask ≡ r.mask
  pub same_consumer : r'.consumer_pos ≡ r.consumer_pos
  pub produced : r.producer_pos ≤ r'.producer_pos
  pub fits : r'.producer_pos < 2 ^ 64
  pub added : ℕ
  pub committed : is_busy added ≡ busy
  pub kept : is_discarded added ≡ false
  pub adds :
      (p : ℕ) (q : Queue)
      → r.consumer_pos ≤ p
      → Chain (header_at r) p q r.producer_pos
      → Chain (header_at r') p (q ++ (added ∷ [])) r'.producer_pos

-- What the kernel documents of its ring buffer: the reader maps it (`view`) and may store
-- `consumer_pos` (`release`); a random number leaves it alone, and so does a reservation that fails;
-- a record that is reserved and submitted is one more in the ring. Positions do not reach 2 ^ 64.
pub record Mapped (h : Helpers) (rb : h.RingBuf) : Type 0 where
  pub view : h.State → Ring
  pub release : ℕ → h.State → h.State
  pub view-release :
      (p : ℕ) (st : h.State) → view (release p st) ≡ record (view st) { consumer_pos = p }
  pub view-prandom : (st : h.State) → view (h.get_prandom_u32 st).1 ≡ view st
  pub view-full :
      (n : ℕ) (st : h.State) → (h.reserve rb n st).0 ≡ none → view (h.reserve rb n st).1 ≡ view st
  pub view-submit :
      (n : ℕ) (flag : WakeupFlag) (event : h.Event) (st : h.State)
      → (h.reserve rb n st).0 ≡ some event
      → AddsOne false (view st) (view (h.submit event flag (h.reserve rb n st).1))

-- A getpgid call, or one iteration of the capture loop.
pub data Turn : Type 0 where
  event read : Turn

-- The globals of the BPF program, the kernel, and the globals of the reader.
pub record Bench (h : Helpers) : Type 0 where
  pub globals : Globals
  pub kernel : h.State
  pub cons_pos : ℕ
  pub prod_pos : ℕ
  pub n_elaborated : ℕ

module _ (h : Helpers) (rb : h.RingBuf) (m : Mapped h rb) where
  -- The reader, with the ring as it is mapped.
  abbrev pub reader : Bench h → Reader
  reader b = record { cons_pos = b.cons_pos; prod_pos = b.prod_pos; ring = m.view b.kernel }

  -- What the reader has done to the ring is its store of `consumer_pos`.
  abbrev pub after_read : Bench h → Option ℕ × Reader → Bench h
  after_read b (sample, s) = record b {
    kernel = m.release s.ring.consumer_pos b.kernel;
    cons_pos = s.cons_pos;
    prod_pos = s.prod_pos;
    n_elaborated = u64 (b.n_elaborated + reads_of sample);
  }

  module _ (byte : ℕ) where
    unfoldable pub turn : Turn → Bench h → Bench h
    turn event b =
        let (g, st) = catch_fentry_one h rb byte b.globals b.kernel in
        record b { globals = g; kernel = st }
    turn read b = after_read b (process_one_from_ring idle (reader b))

    unfoldable pub turns : List Turn → Bench h → Bench h
    turns [] b = b
    turns (t ∷ ts) b = turns ts (turn t b)

-- The events of a test.
abbrev pub events : List Turn → ℕ
events [] = 0
events (event ∷ ts) = events ts + 1
events (read ∷ ts) = events ts

-- So many iterations of the capture loop, with no event between them.
abbrev pub reads : ℕ → List Turn
reads zero = []
reads (suc n) = read ∷ reads n
