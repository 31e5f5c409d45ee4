-- ===== src/Bench/Cpus/Whole/Prints.antt =====
-- What the whole test over a single ring prints at its end.
use mathlib.Core.Path.{ap₂}
use bpf_ringbuf.Common.{ℕ, ◌%◌, ◌^◌, ◌≡◌, refl, List, [], ◌∷◌}
use bpf_ringbuf.Reader.Refine.{Tracks}
use bpf_ringbuf.Loader.Int.{pos}
use bpf_ringbuf.Loader.{Loader, Answers, initial}
use bpf_ringbuf.Loader.Main.{Outcome, exits, captures, single_main, single_signal_callback}
use bpf_ringbuf.Loader.Account.{account}
use bpf_ringbuf.Loader.Single.{code_of, OnSingle, single_main-OnSingle}
use bpf_ringbuf.Cases.{Run, exited, looping, after_set_up}
use bpf_ringbuf.Cases.Laws.{fresh_reader}
use bpf_ringbuf.Cases.Interrupt.{printed}
use bpf_ringbuf.Bpf.{Helpers}
use bpf_ringbuf.Bench.Cpus.{Step, Mapped, Bench, starts}
use bpf_ringbuf.Bench.Cpus.Laws.{Balance, cpus-Balance}
use bpf_ringbuf.Bench.Cpus.Whole.{begin, at_signal, steps_and_signal, single_test}

module _ (h : Helpers) (rb : h.RingBuf) (m : Mapped h rb) where
  -- SIGINT has ended the process with 0, and has printed `n_drops` and then `n_elaborated`, which
  -- account for `k` runs together with the records in the ring.
  abbrev pub Prints : ℕ → Bench h × Outcome → Type 0
  Prints k (b, captures l) = ⊥
  Prints k (b, exits code l) =
      (a : Balance h rb m k b) × (code ≡ pos 0)
      × (before : List ℕ) × (printed l.log ≡ (a.elaborated % 2 ^ 64) ∷ (a.drops % 2 ^ 64) ∷ before)

  -- The program has failed in its set-up and released the skeleton, or SIGINT has ended it.
  abbrev pub EndsWell : ℕ → Run (Bench h × Outcome) → Type 0
  EndsWell k (exited code l) = (code ≡ code_of l.log) × ((account l.log).skels ≡ [])
  EndsWell k (looping r) = Prints k r

  module _ (answers : Answers) where
    signal-Prints :
        (k : ℕ) (l : Loader) (b : Bench h)
        → Balance h rb m k b
        → Prints k (b, single_signal_callback answers (at_signal l b))
    unfolding single_signal_callback
    signal-Prints k l b a =
        (a, refl, printed l.log, ap₂ (λ n d. n ∷ d ∷ printed l.log) a.n_elaborated a.n_drops)

    module _ (byte : ℕ) (ts : List Step) (st : h.State) where
      run-EndsWell :
          Tracks (fresh_reader (m.view st)) []
          → m.pending st ≡ []
          → (o : Outcome) → OnSingle o
          → EndsWell (starts ts) (after_set_up (steps_and_signal h rb m answers byte ts st) o)
      run-EndsWell empty none_held (exits code l) (e, sk, mg, on) = (e, sk)
      run-EndsWell empty none_held (captures l) (sk, mg, nz, on, unread, none_read) =
          signal-Prints (starts ts) l _
            (cpus-Balance h rb m byte ts (begin l st) empty refl none_held (rw on refl) refl unread)

      -- A whole test of single_ringbuf_reserve with case1.c, where the kernel keeps the ring as
      -- documented (Mapped), the ring is empty and no record is reserved at first, with the runs of the
      -- BPF program overlapping in any way between their reservation and their submit, and with the
      -- iterations of the capture loop: the set-up fails, the skeleton is released and the exit code is
      -- that of the last failure, or SIGINT ends the process with 0 and prints the numbers of drops
      -- and of elaborated events, modulo 2 ^ 64, where every run that has begun is a drop,
      -- elaborated, or has a record in the ring.
      pub single_test-Prints :
          Tracks (fresh_reader (m.view st)) []
          → m.pending st ≡ []
          → EndsWell (starts ts) (single_test h rb m answers byte ts st)
      unfolding single_test
      single_test-Prints empty none_held =
          run-EndsWell empty none_held (single_main answers initial) (single_main-OnSingle answers)
