-- ===== src/Bench/Smp/Whole/Settles.antt =====
-- What the whole test over one ring for each CPU prints when the reader has come to the end of the
-- rings.
use mathlib.Core.Option
use mathlib.Core.Option.{some-injective, none-ne-some}
use bpf_ringbuf.Common.{
  ℕ, ◌*◌, ◌≤◌, ◌<◌, ◌≡◌, refl, ap, Option, none, some, List, [], ◌∷◌, ◌++◌, Bool, length,
}
use bpf_ringbuf.Reader.Refine.{Tracks}
use bpf_ringbuf.Loader.Int.{pos}
use bpf_ringbuf.Loader.{Loader, Answers, initial, tell, print}
use bpf_ringbuf.Loader.Main.{Outcome, exits, captures, main, signal_callback}
use bpf_ringbuf.Loader.Account.{account}
use bpf_ringbuf.Loader.Account.Laws.{OnOutcome, main-OnOutcome}
use bpf_ringbuf.Loader.Capture.{first_rings-IsValid}
use bpf_ringbuf.Cases.{Run, exited, looping}
use bpf_ringbuf.Cases.Laws.{fresh_reader}
use bpf_ringbuf.Cases.Interrupt.{printed, clean-printed}
use bpf_ringbuf.Bpf.{Helpers}
use bpf_ringbuf.Bench.Cpus.{Step, starts, reads}
use bpf_ringbuf.Bench.Smp.{Case, Mapped, Bench, view, pending, step, steps}
use bpf_ringbuf.Bench.Smp.Drains.{Drained, smp-Drains}
use bpf_ringbuf.Bench.Smp.Whole.{begin, at_signal, whole_test}

module _ (h : Helpers) (cnt : ℕ) (m : Mapped h cnt) where
  -- SIGINT has ended the process with 0, and has printed `n_drops` and then `n_elaborated`; the reader
  -- has come to the end of every ring, and the counters add up to `k`.
  abbrev pub Settles : ℕ → Run (Option (Bench h × Outcome)) → Type 0
  Settles k (exited code l) = ⊥
  Settles k (looping none) = ⊥
  Settles k (looping (some (b, captures l))) = ⊥
  Settles k (looping (some (b, exits code l))) =
      Drained h cnt m k (some b)
      × (code ≡ pos 0)
      × (before : List ℕ) × (printed l.log ≡ b.n_elaborated ∷ b.globals.n_drops ∷ before)

  module _ (answers : Answers) (c : Case) (customized : Bool) (byte : ℕ) where
    steps-append :
        (ts us : List Step) (b b' : Bench h)
        → steps h cnt m c customized byte ts b ≡ some b'
        → steps h cnt m c customized byte (ts ++ us) b ≡ steps h cnt m c customized byte us b'
    unfolding steps Option.bind
    steps-append [] us b b' e = ap (steps h cnt m c customized byte us) (some-injective _ _ e)
    steps-append (t ∷ ts) us b b' e =
        then_append (step h cnt m c customized byte t b) e (λ b1 e'. steps-append ts us b1 b' e')
      where
        then_append :
            (o : Option (Bench h))
            → Option.bind o (steps h cnt m c customized byte ts) ≡ some b'
            → ((b1 : Bench h)
                → steps h cnt m c customized byte ts b1 ≡ some b'
                → steps h cnt m c customized byte (ts ++ us) b1
                  ≡ steps h cnt m c customized byte us b')
            → Option.bind o (steps h cnt m c customized byte (ts ++ us))
              ≡ steps h cnt m c customized byte us b'
        then_append none e ih = absurd (none-ne-some _ e)
        then_append (some b1) e ih = ih b1 e

    signal-Settles :
        (k : ℕ) (l : Loader) (o : Option (Bench h))
        → Drained h cnt m k o
        → Settles k
            (looping (Option.map (λ b. (b, signal_callback answers (at_signal h cnt m l b))) o))
    unfolding signal_callback
    signal-Settles k l none bad = bad
    signal-Settles k l (some b) d =
        let l1 = record (at_signal h cnt m l b) { capture_enabled = 0 } in
        let l2 = tell answers (print l1.n_elaborated) (tell answers (print l1.n_drops) l1) in
        (d, refl, printed l.log, clean-printed answers l2)

    -- A whole test of multi_ringbuf_reserve with case1.c, case3.c or case4.c and with or without
    -- CUSTOMIZED, where libbpf and the kernel let main come to its loop with as many rings as the
    -- array has, the kernel keeps the rings as documented (Mapped), and the rings are empty and no
    -- record is reserved at first: if after runs of the BPF program that overlap in any way between
    -- their reservation and their submit, and nowhere else, so that no two increments of a counter
    -- interleave, every run has submitted its record, and at least two more iterations for each run
    -- and each ring follow before SIGINT, then no access is out of range, the reader has come to the
    -- producer position of every ring, the process ends with 0 and prints n_drops and n_elaborated,
    -- and these and n_skipped are together the number of runs, modulo 2 ^ 64.
    pub whole_test-Settles :
        (ts : List Step) (n : ℕ) (st : h.State) (l : Loader) (b' : Bench h)
        → main answers initial ≡ captures l
        → length (account l.log).managed ≡ cnt
        → ((i : ℕ) → i < cnt → Tracks (fresh_reader (view h cnt m st i)) [])
        → pending h cnt m st ≡ []
        → steps h cnt m c customized byte ts (begin h cnt m l st) ≡ some b'
        → b'.in_flight ≡ []
        → starts ts * (2 * cnt) ≤ n
        → Settles (starts ts) (whole_test h cnt m answers c customized byte (ts ++ reads n) st)
    unfolding whole_test
    whole_test-Settles ts n st l b' e same_cnt empty none_held ran landed enough =
        let captured : OnOutcome answers (captures l) = rw e at (main-OnOutcome answers) in
        let v = first_rings-IsValid answers l (view h cnt m st) e in
        let b = begin h cnt m l st in
        rw (e, steps-append ts (reads n) b b' ran)
          (signal-Settles (starts ts) l _ (
            smp-Drains h cnt m c customized byte ts n b b'
              (record { current = v.current; allocated = v.allocated }) same_cnt empty refl
              none_held (rw captured.4 refl) refl refl captured.5 ran landed enough))
