-- ===== src/Loader/Capture.antt =====
-- From the set-up to the readers: the rings with which the capture loop starts.
use bpf_ringbuf.Common.{ℕ, ◌≡◌, Bool, List, length, arith}
use bpf_ringbuf.Queue.{Queue}
use bpf_ringbuf.Ring.{Ring}
use bpf_ringbuf.Reader.Refine.{Tracks}
use bpf_ringbuf.Rings.{Rings, Round, reader}
use bpf_ringbuf.Rings
use bpf_ringbuf.Rings.Progress.{IsValid, CaptureReads}
use bpf_ringbuf.Rings.RoundRobin
use bpf_ringbuf.Rings.RoundRobin.Laws.{round_robin-CaptureReads}
use bpf_ringbuf.Rings.Sticky
use bpf_ringbuf.Rings.Sticky.Laws.{sticky-CaptureReads}
use bpf_ringbuf.Loader.Int.{to_nat}
use bpf_ringbuf.Loader.{Loader, Answers, initial}
use bpf_ringbuf.Loader.Main.{captures, main}
use bpf_ringbuf.Loader.Account.{account}
use bpf_ringbuf.Loader.Outcome.{main-rings}

-- `calloc` has set both arrays of `n_cpus` positions to 0, `rings` has an entry for each ring given
-- to the manager, and `ringbuf_pos` starts at 0. What the rings hold is the kernel's.
abbrev pub first_rings : Loader → (ℕ → Ring) → Rings
first_rings l rings = record {
  cons_pos = λ _. 0;
  prod_pos = λ _. 0;
  n_cpus = to_nat l.n_cpus;
  rings = rings;
  ring_cnt = length (account l.log).managed;
  ringbuf_pos = 0;
}

module _ (answers : Answers) (l : Loader) (rings : ℕ → Ring) where
  pub first_rings-IsValid : main answers initial ≡ captures l → IsValid (first_rings l rings)
  first_rings-IsValid e =
      let (entries, all, some_cpu, known, on) = main-rings answers l e in
      record { current = omega arith; allocated = omega arith }

  -- When main captures, then whatever the kernel does, no loop of case 1, 3 or 4 makes an access out
  -- of range; a ring that holds a queue of records behind position 0 is read as that queue, every
  -- record once and in order, and n_elaborated counts the samples of all rings.
  pub main-CaptureReads :
      (calls : List (List Round)) (i : ℕ) (q : Queue) (each : Bool)
      → main answers initial ≡ captures l
      → Tracks (reader (first_rings l rings) i) q
      → let m = first_rings l rings in
        CaptureReads m i q 0 (Rings.capture RoundRobin.iterate calls m 0)
        × CaptureReads m i q 0 (Rings.capture (Sticky.process_one_from_ring each) calls m 0)
  main-CaptureReads calls i q each e t =
      let m = first_rings l rings in
      let v = first_rings-IsValid e in
      (
        round_robin-CaptureReads calls m i q 0 (omega arith) v t,
        sticky-CaptureReads each calls m i q 0 (omega arith) v t,
      )
