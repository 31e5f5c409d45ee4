-- ===== src/Stress/Laws.antt =====
-- The stress test against each of the three programs.
use bpf_ringbuf.Common.{
  ℕ, ◌<◌, ◌^◌, ◌≡◌, refl, ◌==◌, false, List, length, Bool-cases, inl, inr, Bool,
}
use bpf_ringbuf.Loader.Int.{ℤ, pos, negsuc, same}
use bpf_ringbuf.Bpf.{Helpers, Globals}
use bpf_ringbuf.Bpf.Programs.{catch_fentry, catch_fentry_one, catch_fentry_output}
use bpf_ringbuf.Bpf.Programs.Outcome.{Counter}
use bpf_ringbuf.Bpf.Programs.Switch.{runs}
use bpf_ringbuf.Bpf.Programs.Total.{Quiet, Total, runs-Conserved}
use bpf_ringbuf.Stress.{Outcome, ended, calling, main}

module _ (h : Helpers) (c : Counter h) where
  open h use {State, RingBuf}

  -- The test has failed to set its handler, or of its `k` calls each has been counted once.
  abbrev pub Conserved : ℕ → Globals → State → Outcome (Globals × State) → Type 0
  Conserved k g st (ended code) = code ≡ pos 1
  Conserved k g st (calling (g', st')) = Total h c k g st g' st'

  main-Total :
      (program : Globals → State → Globals × State) (old : ℤ) (others : List (State → State))
      (g : Globals) (st : State)
      → (let (g', st') = runs h program others g st in Total h c (length others) g st g' st')
      → Conserved (length others) g st (main h program old others g st)
  unfolding main
  main-Total program old others g st t = elim (Bool-cases (same old (negsuc 0))) [
    | inl e ↦ rw e refl
    | inr e ↦ rw e t
  ]

  -- The stress test against each of the three programs, while the capture is on and nothing else sends
  -- records of the program: it ends with EXIT_FAILURE when it cannot set its handler, or every
  -- getpgid call is counted exactly once, as a drop, as a skipped event or as a record sent, the two
  -- counters modulo 2 ^ 64.
  pub stress-Conserved :
      (old : ℤ) (others : List (State → State)) (customized : Bool) (rb : RingBuf) (byte n_cpus : ℕ)
      (g : Globals) (st : State)
      → Quiet h c others
      → (g.capture_enabled == 0) ≡ false
      → g.n_drops < 2 ^ 64
      → g.n_skipped < 2 ^ 64
      → Conserved
          (length others)
          g
          st
          (main h (catch_fentry h customized byte n_cpus) old others g st)
        × Conserved (length others) g st (main h (catch_fentry_one h rb byte) old others g st)
        × Conserved (length others) g st (main h (catch_fentry_output h byte) old others g st)
  stress-Conserved old others customized rb byte n_cpus g st quiet on hd hs =
      let (a, b, d) = runs-Conserved h c others customized rb byte n_cpus g st quiet on hd hs in
      (
        main-Total (catch_fentry h customized byte n_cpus) old others g st a,
        main-Total (catch_fentry_one h rb byte) old others g st b,
        main-Total (catch_fentry_output h byte) old others g st d,
      )
