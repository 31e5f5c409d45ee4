-- ===== src/Bench/Smp/Whole/Prints.antt =====
-- What the whole test over one ring for each CPU prints at its end.
use mathlib.Core.Option
use mathlib.Core.Path.{subst, ap₂}
use bpf_ringbuf.Common.{
  ℕ, ◌%◌, ◌^◌, ◌<◌, ◌≡◌, refl, ◌∙◌, Option, none, some, List, [], ◌∷◌, Bool, length,
}
use bpf_ringbuf.Reader.Refine.{Tracks}
use bpf_ringbuf.Loader.Int.{pos}
use bpf_ringbuf.Loader.{Loader, Answers, initial, tell, print}
use bpf_ringbuf.Loader.Main.{Outcome, exits, captures, main, signal_callback}
use bpf_ringbuf.Loader.Account.{account}
use bpf_ringbuf.Loader.Account.Laws.{OnOutcome, main-OnOutcome}
use bpf_ringbuf.Loader.Capture.{first_rings-IsValid}
use bpf_ringbuf.Cases.{Run, exited, looping, after_set_up}
use bpf_ringbuf.Cases.Laws.{fresh_reader}
use bpf_ringbuf.Cases.Interrupt.{printed, clean-printed}
use bpf_ringbuf.Bpf.{Helpers}
use bpf_ringbuf.Bench.Cpus.{Step, starts}
use bpf_ringbuf.Bench.Smp.{Case, Mapped, Bench, view, pending}
use bpf_ringbuf.Bench.Smp.Balance.{Balance}
use bpf_ringbuf.Bench.Smp.Laws.{Balanced, smp-Balance}
use bpf_ringbuf.Bench.Smp.Whole.{begin, at_signal, steps_and_signal, whole_test}

module _ (h : Helpers) (cnt : ℕ) (m : Mapped h cnt) where
  -- SIGINT has ended the process with 0, and has printed `n_drops` and then `n_elaborated`, which
  -- account for `k` runs together with the skipped ones and the records in the rings.
  abbrev pub Prints : ℕ → Option (Bench h × Outcome) → Type 0
  Prints k none = ⊥
  Prints k (some (b, captures l)) = ⊥
  Prints k (some (b, exits code l)) =
      (a : Balance h cnt m k b) × (code ≡ pos 0)
      × (before : List ℕ) × (printed l.log ≡ (a.elaborated % 2 ^ 64) ∷ (a.drops % 2 ^ 64) ∷ before)

  -- The program has failed in its set-up and released the skeleton, or SIGINT has ended it.
  abbrev pub EndsWell : ℕ → Run (Option (Bench h × Outcome)) → Type 0
  EndsWell k (exited code l) = (code ≡ pos 1) × ((account l.log).skels ≡ [])
  EndsWell k (looping r) = Prints k r

  module _ (answers : Answers) where
    signal-Prints :
        (k : ℕ) (l : Loader) (b : Bench h)
        → Balance h cnt m k b
        → Prints k (some (b, signal_callback answers (at_signal h cnt m l b)))
    unfolding signal_callback
    signal-Prints k l b a =
        let l1 = record (at_signal h cnt m l b) { capture_enabled = 0 } in
        let l2 = tell answers (print l1.n_elaborated) (tell answers (print l1.n_drops) l1) in
        (
          a,
          refl,
          printed l.log,
          clean-printed answers l2 ∙ ap₂ (λ n d. n ∷ d ∷ printed l.log) a.n_elaborated a.n_drops,
        )

    Balanced-Prints :
        (k : ℕ) (l : Loader) (o : Option (Bench h))
        → Balanced h cnt m k o
        → Prints k (Option.map (λ b. (b, signal_callback answers (at_signal h cnt m l b))) o)
    Balanced-Prints k l none bad = bad
    Balanced-Prints k l (some b) a = signal-Prints k l b a

    module _ (c : Case) (customized : Bool) (byte : ℕ) (ts : List Step) (st : h.State) where
      run-EndsWell :
          ((i : ℕ) → i < cnt → Tracks (fresh_reader (view h cnt m st i)) [])
          → pending h cnt m st ≡ []
          → (o : Outcome) → main answers initial ≡ o
          → ((l : Loader) → o ≡ captures l → length (account l.log).managed ≡ cnt)
          → EndsWell
              (starts ts)
              (after_set_up (steps_and_signal h cnt m answers c customized byte ts st) o)
      run-EndsWell empty none_held (exits code l) e same_cnt =
          let (failed, (ok, sk, mg, on)) = subst (OnOutcome answers) e (main-OnOutcome answers) in
          (failed, sk)
      run-EndsWell empty none_held (captures l) e same_cnt =
          let (managed, held, count, n, on, unread, room) =
            subst (OnOutcome answers) e (main-OnOutcome answers) in
          let v = first_rings-IsValid answers l (view h cnt m st) e in
          Balanced-Prints (starts ts) l _ (
            smp-Balance h cnt m c customized byte ts (begin h cnt m l st)
              (record { current = v.current; allocated = v.allocated }) (same_cnt l refl) empty refl
              none_held (rw on refl) refl refl unread)

      -- A whole test of multi_ringbuf_reserve with case1.c, case3.c or case4.c and with or without
      -- CUSTOMIZED, where the kernel keeps the rings as documented (Mapped), the rings are empty and
      -- no record is reserved at first, and the array has as many rings as main has given to its
      -- manager when it comes to its loop, with the runs of the BPF program overlapping in any way
      -- between their reservation and their submit, and with the iterations of the loop: the set-up
      -- fails, the skeleton is released and the exit code is 1, or no access is out of range and SIGINT
      -- ends the process with 0 and prints the numbers of drops and of elaborated events, modulo
      -- 2 ^ 64, where every run that has begun is a drop, skipped, elaborated, or has a record in one
      -- of the rings.
      pub whole_test-Prints :
          ((i : ℕ) → i < cnt → Tracks (fresh_reader (view h cnt m st i)) [])
          → pending h cnt m st ≡ []
          → ((l : Loader)
              → main answers initial ≡ captures l
              → length (account l.log).managed ≡ cnt)
          → EndsWell (starts ts) (whole_test h cnt m answers c customized byte ts st)
      unfolding whole_test
      whole_test-Prints empty none_held same_cnt =
          run-EndsWell empty none_held (main answers initial) refl same_cnt
