-- ===== src/Cases.antt =====
-- The user-space programs as wholes: `main` of each case, its set-up and its capture loop. The loop
-- is run for the calls, rounds or iterations given.
pub mod Laws
pub mod Deliver
pub mod Interrupt
mod Tests
use bpf_ringbuf.Common.{ℕ, Bool, true, false, Option, List}
use bpf_ringbuf.Ring.{Ring}
use bpf_ringbuf.Reader
use bpf_ringbuf.Reader.{Reader}
use bpf_ringbuf.Rings
use bpf_ringbuf.Rings.{Rings, Sample, Iteration}
use bpf_ringbuf.Rings.RoundRobin
use bpf_ringbuf.Rings.Sticky
use bpf_ringbuf.Loader.Int.{ℤ}
use bpf_ringbuf.Loader.{Loader, Answers, initial}
use bpf_ringbuf.Loader.Main.{Outcome, exits, captures, main, single_main}
use bpf_ringbuf.Loader.Capture.{first_rings}
use bpf_ringbuf.Loader.Consume.{consume_loop}
use bpf_ringbuf.Loader.Output
use bpf_ringbuf.Loader.SingleLibbpf

-- The process has ended, or its capture loop has come to something.
pub data Run (A : Type 0) : Type 0 where
  exited : ℤ → Loader → Run A
  looping : A → Run A

abbrev pub after_set_up : {A : Type 0} → (Loader → A) → Outcome → Run A
after_set_up loop (exits code l) = exited code l
after_set_up loop (captures l) = looping (loop l)

-- What the cases that read the rings themselves have come to: the globals at the start of the loop,
-- and the samples, the count and the rings, or `none` for an access out of range.
abbrev pub Captured : Type 0
Captured = Loader × Option (List Sample × ℕ × Rings)

module _ (answers : Answers) where
  -- The loop of the cases over one ring for each CPU, with the function that reads a ring.
  abbrev pub capture_with : Iteration → (ℕ → Ring) → List (List Rings.Round) → Loader → Captured
  capture_with iterate rings calls l =
      (l, Rings.capture iterate calls (first_rings l rings) l.n_elaborated)

  -- multi_ringbuf_reserve/case1.c, case3.c and case4.c; `rings` is what the kernel shows at first.
  unfoldable pub case1_main : (ℕ → Ring) → List (List Rings.Round) → Run Captured
  case1_main rings calls =
      after_set_up (capture_with RoundRobin.iterate rings calls) (main answers initial)

  unfoldable pub case3_main : (ℕ → Ring) → List (List Rings.Round) → Run Captured
  case3_main rings calls =
      after_set_up (capture_with (Sticky.process_one_from_ring false) rings calls)
        (main answers initial)

  unfoldable pub case4_main : (ℕ → Ring) → List (List Rings.Round) → Run Captured
  case4_main rings calls =
      after_set_up (capture_with (Sticky.process_one_from_ring true) rings calls)
        (main answers initial)

  -- multi_ringbuf_reserve/case2.c.
  unfoldable pub case2_main : ℕ → Run Loader
  case2_main k = after_set_up (consume_loop answers k) (main answers initial)

  -- multi_ringbuf_output/case1.c.
  unfoldable pub output_main : ℕ → Run Loader
  output_main k = after_set_up (consume_loop answers k) (Output.main answers initial)

  -- single_ringbuf_reserve/case1.c, whose positions start at 0.
  unfoldable pub single_case1_main : Ring → List Reader.Round → Run (List ℕ × ℕ × Reader)
  single_case1_main ring rounds =
      after_set_up
        (λ l.
          Reader.capture rounds (record { cons_pos = 0; prod_pos = 0; ring = ring }) l.n_elaborated)
        (single_main answers initial)

  -- single_ringbuf_reserve/case2.c.
  unfoldable pub single_case2_main : ℕ → Run Loader
  single_case2_main k = after_set_up (consume_loop answers k) (SingleLibbpf.main answers initial)
