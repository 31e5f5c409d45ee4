-- ===== src/Rings.antt =====
-- The readers of one ring for each CPU (multi_ringbuf_reserve): the globals of shared_code.h and
-- of the cases, the loop of `ring_buffer__consume_one` and the capture loop of `main`, which the
-- cases share up to the function that reads one ring.
pub mod Progress
pub mod Store
pub mod RoundRobin
pub mod Sticky
pub mod Takes
pub mod Held
pub mod Soon
pub mod Deliver
pub mod ReadsAll
pub mod Agree
mod Tests
use mathlib.Core.Option
use bpf_ringbuf.Common.{
  ℕ, ◌+◌, ◌%◌, List, [], ◌∷◌, Option, none, some, Bool, ltb, ◌==◌, ◌&&◌, update, if◌then◌else◌,
}
use bpf_ringbuf.Header.{u64}
use bpf_ringbuf.Ring.{Ring}
use bpf_ringbuf.Ring.Chain.{Kernel}
use bpf_ringbuf.Reader.{Reader}

-- `cons_pos` and `prod_pos` are arrays of `n_cpus` entries, `rings` one of `ring_cnt` entries; what
-- the functions hold beyond is never read.
pub record Rings : Type 0 where
  pub cons_pos : ℕ → ℕ
  pub prod_pos : ℕ → ℕ
  pub n_cpus : ℕ
  pub rings : ℕ → Ring
  pub ring_cnt : ℕ
  pub ringbuf_pos : ℕ

-- An index that `cons_pos`, `prod_pos` and `rings` all have.
abbrev pub in_range : Rings → ℕ → Bool
in_range m i = ltb i m.n_cpus && ltb i m.ring_cnt

-- `cons_pos[i]`, `prod_pos[i]` and `rb->rings[i]`, read and written.
abbrev pub reader : Rings → ℕ → Reader
reader m i = record { cons_pos = m.cons_pos i; prod_pos = m.prod_pos i; ring = m.rings i }

abbrev pub store : Rings → ℕ → Reader → Rings
store m i s = record m {
  cons_pos = update m.cons_pos i s.cons_pos;
  prod_pos = update m.prod_pos i s.prod_pos;
  rings = update m.rings i s.ring;
}

-- A pointer to a sample: the ring, and the offset from its `data`.
abbrev pub Sample : Type 0
Sample = ℕ × ℕ

abbrev pub tag : ℕ → Option ℕ → Option Sample
tag i = Option.map (λ d. (i, d))

-- `ringbuf_pos = (ringbuf_pos + 1) % ring_cnt`
abbrev pub switch : Rings → Rings
switch m = record m { ringbuf_pos = (m.ringbuf_pos + 1) % m.ring_cnt }

-- What the kernel does in one iteration of the loop: to each ring before it, and to the current
-- ring between the two loads.
pub record Round : Type 0 where
  pub before : ℕ → Kernel
  pub late : Kernel

abbrev pub after_kernel : Round → Rings → Rings
after_kernel w m = record m { rings = λ i. (w.before i).act (m.rings i) }

-- What a call of `ring_buffer__consume_one` has come to when the rounds are used up: an access out
-- of range, the loop still running, or a return with a sample.
pub data Outcome : Type 0 where
  fault : Outcome
  running : Rings → Outcome
  returned : Sample → Rings → Outcome

-- One iteration of the `while(true)` loop: `none` is an access out of range.
abbrev pub Iteration : Type 0
Iteration = Kernel → Rings → Option (Option Sample × Rings)

-- `if(*sample != NULL) return 1;`, or once more round the loop.
abbrev pub return_or : (Rings → Outcome) → Option (Option Sample × Rings) → Outcome
return_or again none = fault
return_or again (some (some d, m)) = returned d m
return_or again (some (none, m)) = again m

-- A call that returns adds one sample to what the rest of the capture gives.
abbrev pub then_capture :
    (Rings → Option (List Sample × ℕ × Rings)) → ℕ → Outcome → Option (List Sample × ℕ × Rings)
then_capture rest n fault = none
then_capture rest n (running m) = some ([], n, m)
then_capture rest n (returned d m) =
    Option.map (λ (samples, n', m'). (d ∷ samples, n', m')) (rest m)

module _ (iterate : Iteration) where
  unfoldable pub consume_one : List Round → Rings → Outcome
  consume_one [] m = running m
  consume_one (w ∷ ws) m = return_or (consume_one ws) (iterate w.late (after_kernel w m))

  -- The loop of `main`, with the rounds of each call: the samples, `n_elaborated` and the rings.
  unfoldable pub capture : List (List Round) → Rings → ℕ → Option (List Sample × ℕ × Rings)
  capture [] m n = some ([], n, m)
  capture (ws ∷ calls) m n =
      then_capture (λ m'. capture calls m' (u64 (n + 1))) n (consume_one ws m)
