-- ===== src/Bpf/Programs/Switch.antt =====
-- `capture_enabled`, and the counters over any number of runs, with anything going on in between.
use bpf_ringbuf.Common.{
  ℕ, ◌≡◌, refl, ◌∙◌, List, [], ◌∷◌, Bool, true, Option, none, some, arith, ◌==◌, Bool-cases, inl,
  inr,
}
use bpf_ringbuf.Bpf.{rb_no_wakeup, Helpers, Globals}
use bpf_ringbuf.Bpf.Programs.{send_entry, catch_fentry, catch_fentry_one, catch_fentry_output}

module _ (h : Helpers) where
  open h use {State, RingBuf, Entry, output, get_smp_processor_id, lookup_ringbuf, lookup_heap}

  -- The runs of a program, one after another; `others` is what happens to the kernel before each.
  unfoldable pub runs :
      (Globals → State → Globals × State) → List (State → State) → Globals → State → Globals × State
  runs program [] g st = (g, st)
  runs program (other ∷ others) g st =
      let (g', st') = program g (other st) in runs program others g' st'

  send_entry-n_drops :
      (byte : ℕ) (g : Globals) (rb : Option RingBuf) (e : Option Entry × State)
      → (send_entry h byte g rb e).0.n_drops ≡ g.n_drops
  send_entry-n_drops byte g none (e, st) = refl
  send_entry-n_drops byte g (some rb) (none, st) = refl
  send_entry-n_drops byte g (some rb) (some e, st) =
      elim (Bool-cases (output rb e byte rb_no_wakeup st).0) [
        | inl failed ↦ rw failed refl
        | inr ok ↦ rw ok refl
      ]

  output-n_drops :
      (byte : ℕ) (g : Globals) (st : State)
      → (catch_fentry_output h byte g st).0.n_drops ≡ g.n_drops
  unfolding catch_fentry_output
  output-n_drops byte g st = elim (Bool-cases (g.capture_enabled == 0)) [
    | inl off ↦ rw off refl
    | inr on ↦
        let (cpu, st1) = get_smp_processor_id st in
        let (rb, st2) = lookup_ringbuf cpu st1 in
        rw on (send_entry-n_drops byte g rb (lookup_heap cpu st2))
  ]

  -- However often `catch_fentry` of multi_ringbuf_output.bpf.c runs, and whatever the kernel answers
  -- and does in between, `n_drops` keeps its first value.
  pub runs-n_drops :
      (byte : ℕ) (others : List (State → State)) (g : Globals) (st : State)
      → (runs (catch_fentry_output h byte) others g st).0.n_drops ≡ g.n_drops
  unfolding runs
  runs-n_drops byte [] g st = refl
  runs-n_drops byte (other ∷ others) g st =
      let (g', st') = catch_fentry_output h byte g (other st) in
      runs-n_drops byte others g' st' ∙ output-n_drops byte g (other st)

  -- While `capture_enabled` is 0, a run of any of the three programs changes neither its globals nor
  -- the state of the kernel.
  pub disabled_lem :
      (customized : Bool) (rb : RingBuf) (byte n_cpus : ℕ) (g : Globals) (st : State)
      → g.capture_enabled ≡ 0
      → (catch_fentry h customized byte n_cpus g st ≡ (g, st))
        × (catch_fentry_one h rb byte g st ≡ (g, st))
        × (catch_fentry_output h byte g st ≡ (g, st))
  unfolding catch_fentry catch_fentry_one catch_fentry_output
  disabled_lem customized rb byte n_cpus g st off =
      let e : (g.capture_enabled == 0) ≡ true = ground arith in (rw e refl, rw e refl, rw e refl)
