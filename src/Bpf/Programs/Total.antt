-- ===== src/Bpf/Programs/Total.antt =====
-- What becomes of the events of any number of runs of a program.
use bpf_ringbuf.Common.{
  ℕ, suc, ◌+◌, ◌%◌, ◌^◌, ◌<◌, ◌≡◌, refl, ap, ◌∙◌, inl, inr, ◌⊎◌, Bool, false, List, [], ◌∷◌, arith,
  length, ◌==◌,
}
use bpf_ringbuf.Bpf.{Helpers, Globals, count_drop}
use bpf_ringbuf.Bpf.Programs.{catch_fentry, catch_fentry_one, catch_fentry_output}
use bpf_ringbuf.Bpf.Programs.Outcome.{
  Counter, Counted, catch_fentry-Counted, catch_fentry_one-Counted,
  catch_fentry_output-SkippedOrSent,
}
use bpf_ringbuf.Bpf.Programs.Switch.{runs}

module _ (h : Helpers) (c : Counter h) where
  open h use {State, RingBuf}
  open c use {count}

  -- What happens between two runs sends no record of this program.
  abbrev pub Quiet : List (State → State) → Type 0
  Quiet [] = Unit
  Quiet (other ∷ others) = ((st : State) → count (other st) ≡ count st) × Quiet others

  -- `k` events: `drops` of them are dropped, `skipped` skipped and `sent` sent.
  pub record Total (k : ℕ) (g : Globals) (st : State) (g' : Globals) (st' : State) : Type 0 where
    pub drops : ℕ
    pub skipped : ℕ
    pub sent : ℕ
    pub all : drops + (skipped + sent) ≡ k
    pub n_drops : g'.n_drops ≡ (g.n_drops + drops) % 2 ^ 64
    pub n_skipped : g'.n_skipped ≡ (g.n_skipped + skipped) % 2 ^ 64
    pub records : count st' ≡ count st + sent
    pub still_on : g'.capture_enabled ≡ g.capture_enabled

  Total-zero :
      (g : Globals) (st : State) → g.n_drops < 2 ^ 64 → g.n_skipped < 2 ^ 64 → Total 0 g st g st
  Total-zero g st hd hs = record {
    drops = 0;
    skipped = 0;
    sent = 0;
    all = refl;
    n_drops = omega arith;
    n_skipped = omega arith;
    records = omega arith;
    still_on = refl;
  }

  -- One run, at a state to which the kernel has come from `st` without a record of this program.
  Counted-Total :
      (g : Globals) (st st0 : State) (g' : Globals) (st' : State)
      → g.n_drops < 2 ^ 64
      → g.n_skipped < 2 ^ 64
      → count st0 ≡ count st
      → Counted h c g st0 (g', st')
      → Total 1 g st g' st'
  Counted-Total g st st0 g' st' hd hs before (inl (e, s)) = record {
    drops = 1;
    skipped = 0;
    sent = 0;
    all = refl;
    n_drops = omega (arith, ap (λ (x : Globals). x.n_drops) e);
    n_skipped = omega (arith, ap (λ (x : Globals). x.n_skipped) e);
    records = omega arith;
    still_on = ap (λ x. x.capture_enabled) e;
  }
  Counted-Total g st st0 g' st' hd hs before (inr (inl (e, s))) = record {
    drops = 0;
    skipped = 1;
    sent = 0;
    all = refl;
    n_drops = omega (arith, ap (λ (x : Globals). x.n_drops) e);
    n_skipped = omega (arith, ap (λ (x : Globals). x.n_skipped) e);
    records = omega arith;
    still_on = ap (λ x. x.capture_enabled) e;
  }
  Counted-Total g st st0 g' st' hd hs before (inr (inr (e, s))) = record {
    drops = 0;
    skipped = 0;
    sent = 1;
    all = refl;
    n_drops = omega (arith, ap (λ (x : Globals). x.n_drops) e);
    n_skipped = omega (arith, ap (λ (x : Globals). x.n_skipped) e);
    records = omega arith;
    still_on = ap (λ x. x.capture_enabled) e;
  }

  Total-trans :
      {k k' : ℕ} {g g1 g2 : Globals} {st st1 st2 : State}
      → Total k g st g1 st1
      → Total k' g1 st1 g2 st2
      → Total (k + k') g st g2 st2
  Total-trans a b = record {
    drops = a.drops + b.drops;
    skipped = a.skipped + b.skipped;
    sent = a.sent + b.sent;
    all = omega (arith, a.all, b.all);
    n_drops = omega (arith, a.n_drops, b.n_drops);
    n_skipped = omega (arith, a.n_skipped, b.n_skipped);
    records = omega (arith, a.records, b.records);
    still_on = b.still_on ∙ a.still_on;
  }

  module _ (program : Globals → State → Globals × State)
      (law : (g : Globals) (st : State)
        → (g.capture_enabled == 0) ≡ false
        → Counted h c g st (program g st)) where
    runs-Total :
        (others : List (State → State)) (g : Globals) (st : State)
        → Quiet others
        → (g.capture_enabled == 0) ≡ false
        → g.n_drops < 2 ^ 64
        → g.n_skipped < 2 ^ 64
        → let (g', st') = runs h program others g st in Total (length others) g st g' st'
    unfolding runs
    runs-Total [] g st quiet on hd hs = Total-zero g st hd hs
    runs-Total (other ∷ others) g st (q, quiet) on hd hs =
        let (g1, st1) = program g (other st) in
        let a = Counted-Total g st (other st) g1 st1 hd hs (q st) (law g (other st) on) in
        let rest =
          runs-Total others g1 st1 quiet (ap (λ n. n == 0) a.still_on ∙ on)
            (omega (arith, a.n_drops)) (omega (arith, a.n_skipped)) in
        rw (one_more (length others)) (Total-trans a rest)
      where
        one_more : (n : ℕ) → suc n ≡ 1 + n
        one_more n = omega arith

  -- While the capture is on and nothing else sends records of the program, every getpgid call is
  -- counted exactly once: as many drops, skipped events and records sent as there were runs, with the
  -- two counters modulo 2 ^ 64; for each of the three programs.
  pub runs-Conserved :
      (others : List (State → State)) (customized : Bool) (rb : RingBuf) (byte n_cpus : ℕ)
      (g : Globals) (st : State)
      → Quiet others
      → (g.capture_enabled == 0) ≡ false
      → g.n_drops < 2 ^ 64
      → g.n_skipped < 2 ^ 64
      → let (g1, st1) = runs h (catch_fentry h customized byte n_cpus) others g st in
        let (g2, st2) = runs h (catch_fentry_one h rb byte) others g st in
        let (g3, st3) = runs h (catch_fentry_output h byte) others g st in
        Total (length others) g st g1 st1
        × Total (length others) g st g2 st2
        × Total (length others) g st g3 st3
  runs-Conserved others customized rb byte n_cpus g st quiet on hd hs = (
    runs-Total (catch_fentry h customized byte n_cpus)
        (λ g st on. catch_fentry-Counted h c customized byte n_cpus g st on) others g st quiet on hd
        hs,
    runs-Total (catch_fentry_one h rb byte)
        (λ g st on.
          widen g st (catch_fentry_one h rb byte g st)
            (catch_fentry_one-Counted h c rb byte g st on))
        others g st quiet on hd hs,
    runs-Total (catch_fentry_output h byte)
        (λ g st on. inr (catch_fentry_output-SkippedOrSent h c byte g st on)) others g st quiet on
        hd hs,
  )
    where
      widen :
          (g : Globals) (st : State) (r : Globals × State)
          → ((r.0 ≡ count_drop g) × (count r.1 ≡ count st))
            ⊎ ((r.0 ≡ g) × (count r.1 ≡ count st + 1))
          → Counted h c g st r
      widen g st r (inl x) = inl x
      widen g st r (inr x) = inr (inr x)
