-- ===== src/Bench/Cpus/Whole/Settles.antt =====
-- What the whole test over a single ring prints when the reader has come to the end of the ring.
use bpf_ringbuf.Common.{ℕ, ◌+◌, ◌%◌, ◌^◌, ◌≤◌, ◌≡◌, refl, List, [], ◌∷◌, ◌++◌}
use bpf_ringbuf.Reader.Refine.{Tracks}
use bpf_ringbuf.Loader.Int.{pos}
use bpf_ringbuf.Loader.{Loader, Answers, initial}
use bpf_ringbuf.Loader.Main.{Outcome, exits, captures, single_main, single_signal_callback}
use bpf_ringbuf.Loader.Single.{OnSingle, single_main-OnSingle}
use bpf_ringbuf.Cases.{Run, exited, looping}
use bpf_ringbuf.Cases.Laws.{fresh_reader}
use bpf_ringbuf.Cases.Interrupt.{printed}
use bpf_ringbuf.Bpf.{Helpers}
use bpf_ringbuf.Bench.Cpus.{Step, Mapped, Bench, step, steps, starts, reads}
use bpf_ringbuf.Bench.Cpus.Drains.{cpus-Drains}
use bpf_ringbuf.Bench.Cpus.Whole.{begin, at_signal, single_test}

module _ (h : Helpers) (rb : h.RingBuf) (m : Mapped h rb) where
  -- The reader has come to the end of the ring, and the counters add up to `k`.
  abbrev pub Drained : ℕ → Bench h → Type 0
  Drained k b =
      (b.cons_pos ≡ (m.view b.kernel).producer_pos)
      × ((b.globals.n_drops + b.n_elaborated) % 2 ^ 64 ≡ k % 2 ^ 64)

  -- SIGINT has ended the process with 0, and has printed `n_drops` and then `n_elaborated`.
  abbrev pub Settles : ℕ → Run (Bench h × Outcome) → Type 0
  Settles k (exited code l) = ⊥
  Settles k (looping (b, captures l)) = ⊥
  Settles k (looping (b, exits code l)) =
      Drained k b
      × (code ≡ pos 0)
      × (before : List ℕ) × (printed l.log ≡ b.n_elaborated ∷ b.globals.n_drops ∷ before)

  module _ (answers : Answers) (byte : ℕ) where
    steps-append :
        (ts us : List Step) (b : Bench h)
        → steps h rb m byte (ts ++ us) b ≡ steps h rb m byte us (steps h rb m byte ts b)
    unfolding steps
    steps-append [] us b = refl
    steps-append (t ∷ ts) us b = steps-append ts us (step h rb m byte t b)

    signal-Settles :
        (k : ℕ) (l : Loader) (b : Bench h)
        → Drained k b
        → Settles k (looping (b, single_signal_callback answers (at_signal l b)))
    unfolding single_signal_callback
    signal-Settles k l b d = (d, refl, printed l.log, refl)

    -- A whole test of single_ringbuf_reserve with case1.c, where libbpf and the kernel let main come
    -- to its loop, the kernel keeps the ring as documented (Mapped), and the ring is empty and no
    -- record is reserved at first: if after runs of the BPF program that overlap in any way between
    -- their reservation and their submit, and nowhere else, so that no two increments of n_drops
    -- interleave, every run has submitted its record, and at least as many iterations as runs follow
    -- before SIGINT, then the reader has come to the producer position, the process ends with 0 and
    -- prints n_drops and n_elaborated, and these are together the number of runs, modulo 2 ^ 64.
    pub single_test-Settles :
        (ts : List Step) (n : ℕ) (st : h.State) (l : Loader)
        → single_main answers initial ≡ captures l
        → Tracks (fresh_reader (m.view st)) []
        → m.pending st ≡ []
        → (steps h rb m byte ts (begin l st)).in_flight ≡ []
        → starts ts ≤ n
        → Settles (starts ts) (single_test h rb m answers byte (ts ++ reads n) st)
    unfolding single_test
    single_test-Settles ts n st l e empty none_held landed enough =
        let captured : OnSingle (captures l) = rw e at (single_main-OnSingle answers) in
        rw (e, steps-append ts (reads n) (begin l st))
          (signal-Settles (starts ts) l
            (steps h rb m byte (reads n) (steps h rb m byte ts (begin l st)))
            (cpus-Drains h rb m byte ts n (begin l st) empty refl none_held (rw captured.3 refl)
              refl captured.4 landed enough))
