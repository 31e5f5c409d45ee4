-- ===== src/Cases/Laws.antt =====
-- What the programs that read the rings themselves come to.
use bpf_ringbuf.Common.{ℕ, ◌%◌, ◌^◌, ◌≡◌, true, false, [], List, length, arith}
use bpf_ringbuf.Queue.{Queue}
use bpf_ringbuf.Ring.{Ring}
use bpf_ringbuf.Reader
use bpf_ringbuf.Reader.{Reader}
use bpf_ringbuf.Reader.Refine.{Tracks}
use bpf_ringbuf.Reader.Progress.{Progress}
use bpf_ringbuf.Reader.Fifo.{capture-Progress}
use bpf_ringbuf.Rings
use bpf_ringbuf.Rings.{Rings, Iteration, reader}
use bpf_ringbuf.Rings.Progress.{IsValid, IterationReads, CaptureReads, capture-CaptureReads}
use bpf_ringbuf.Rings.RoundRobin
use bpf_ringbuf.Rings.RoundRobin.Laws.{iterate-Reads}
use bpf_ringbuf.Rings.Sticky
use bpf_ringbuf.Rings.Sticky.Laws.{sticky-Reads}
use bpf_ringbuf.Loader.Int.{pos, to_nat}
use bpf_ringbuf.Loader.{Answers}
use bpf_ringbuf.Loader.Main.{Outcome, exits, captures}
use bpf_ringbuf.Loader.Account.{account, present}
use bpf_ringbuf.Loader.Account.Laws.{OnOutcome, main-OnOutcome}
use bpf_ringbuf.Loader.Capture.{first_rings}
use bpf_ringbuf.Loader.Single.{code_of, OnSingle, single_main-OnSingle}
use bpf_ringbuf.Cases.{
  Run, exited, looping, after_set_up, Captured, capture_with, case1_main, case3_main, case4_main,
  single_case1_main,
}

-- The reader of a ring at the program's start.
abbrev pub fresh_reader : Ring → Reader
fresh_reader ring = record { cons_pos = 0; prod_pos = 0; ring = ring }

-- The program has ended with EXIT_FAILURE and nothing left to release, or it makes no access out of
-- range, and reads ring `i` as a queue.
abbrev pub ReadsRing : (ℕ → Ring) → ℕ → Queue → Run Captured → Type 0
ReadsRing rings i q (exited code l) =
    (code ≡ pos 1)
    × ((account l.log).ok ≡ false)
    × ((account l.log).skels ≡ [])
    × ((account l.log).managers ≡ [])
ReadsRing rings i q (looping (l, o)) = CaptureReads (first_rings l rings) i q 0 o

module _ (answers : Answers) (rings : ℕ → Ring) (calls : List (List Rings.Round)) (i : ℕ)
    (q : Queue) where
  run-ReadsRing :
      (iterate : Iteration)
      → IterationReads iterate
      → Tracks (fresh_reader (rings i)) q
      → (o : Outcome) → OnOutcome answers o
      → ReadsRing rings i q (after_set_up (capture_with answers iterate rings calls) o)
  run-ReadsRing iterate law t (exits code l) (c, (ok, sk, mg, on)) = (c, ok, sk, mg)
  run-ReadsRing iterate law t (captures l) (managed, h, k, (cn, cr, lt), on, unread, room) =
      let m = first_rings l rings in
      let e : length (account l.log).managed ≡ to_nat l.n_cpus = rw h k in
      let v : IsValid m = record { current = omega arith; allocated = omega arith } in
      rw unread (capture-CaptureReads iterate law i calls m q 0 (omega arith) v t)

  -- Whatever libbpf and the kernel do, a run of case 1, 3 or 4 either ends with EXIT_FAILURE after a
  -- failed call, with the skeleton and the manager released, or its capture loop makes no access out
  -- of range, reads a ring that holds a queue of records behind position 0 as that queue, every record
  -- once and in order, and counts the samples of all rings in n_elaborated.
  pub cases-ReadsRing :
      Tracks (fresh_reader (rings i)) q
      → ReadsRing rings i q (case1_main answers rings calls)
        × ReadsRing rings i q (case3_main answers rings calls)
        × ReadsRing rings i q (case4_main answers rings calls)
  unfolding case1_main case3_main case4_main
  cases-ReadsRing t =
      let o = main-OnOutcome answers in
      (
        run-ReadsRing RoundRobin.iterate iterate-Reads t _ o,
        run-ReadsRing (Sticky.process_one_from_ring false) (sticky-Reads false) t _ o,
        run-ReadsRing (Sticky.process_one_from_ring true) (sticky-Reads true) t _ o,
      )

-- The same for a program over a single ring, whose exit code tells what has failed.
abbrev pub ReadsQueue : Ring → Queue → Run (List ℕ × ℕ × Reader) → Type 0
ReadsQueue ring q (exited code l) =
    (code ≡ code_of l.log)
    × ((account l.log).skels ≡ [])
    × ((account l.log).managers ≡ present l.ringbuf)
ReadsQueue ring q (looping (samples, n, s)) =
    Progress (fresh_reader ring) q samples s × (n ≡ length samples % 2 ^ 64)

module _ (answers : Answers) (ring : Ring) (rounds : List Reader.Round) (q : Queue) where
  run-ReadsQueue :
      Tracks (fresh_reader ring) q
      → (o : Outcome) → OnSingle o
      → ReadsQueue ring q
          (after_set_up (λ l. Reader.capture rounds (fresh_reader ring) l.n_elaborated) o)
  run-ReadsQueue t (exits code l) (c, sk, mg, on) = (c, sk, mg)
  run-ReadsQueue t (captures l) (sk, mg, nz, on, unread, none_read) =
      let (p, counted) = capture-Progress rounds (fresh_reader ring) q 0 (omega arith) t in
      rw unread (p, omega (arith, counted))

  -- Whatever libbpf and the kernel do, a run of single_ringbuf_reserve/case1.c either ends with the
  -- code of its last failure and the skeleton released, or its capture loop reads the queue of records
  -- behind position 0, every record once and in order, and counts the samples in n_elaborated.
  pub single_case1-ReadsQueue :
      Tracks (fresh_reader ring) q → ReadsQueue ring q (single_case1_main answers ring rounds)
  unfolding single_case1_main
  single_case1-ReadsQueue t = run-ReadsQueue t _ (single_main-OnSingle answers)
