-- ===== src/Bench/Smp/Whole.antt =====
-- The whole test of multi_ringbuf_reserve with case1.c, case3.c or case4.c: it begins when `main`
-- comes to its capture loop, has runs of the BPF program that overlap, and ends with SIGINT.
pub mod Prints
pub mod Settles
use mathlib.Core.Option
use bpf_ringbuf.Common.{ℕ, Option, none, some, List, [], Bool}
use bpf_ringbuf.Rings.{Rings}
use bpf_ringbuf.Loader.Int.{to_nat}
use bpf_ringbuf.Loader.{Loader, Answers, initial}
use bpf_ringbuf.Loader.Main.{Outcome, main, signal_callback}
use bpf_ringbuf.Loader.Capture.{first_rings}
use bpf_ringbuf.Cases.{Run, after_set_up}
use bpf_ringbuf.Bpf.{Helpers}
use bpf_ringbuf.Bench.Cpus.{Step}
use bpf_ringbuf.Bench.Smp.{Case, Mapped, Bench, view, steps}

module _ (h : Helpers) (cnt : ℕ) (m : Mapped h cnt) where
  -- `start_capture` has set `capture_enabled`; the counters are 0 when the BPF program is loaded.
  abbrev pub begin : Loader → h.State → Bench h
  begin l st =
      let r = first_rings l (view h cnt m st) in
      record {
        globals = record { capture_enabled = l.capture_enabled; n_drops = 0; n_skipped = 0 };
        kernel = st;
        in_flight = [];
        cons_pos = r.cons_pos;
        prod_pos = r.prod_pos;
        rodata_n_cpus = to_nat l.rodata_n_cpus;
        n_cpus = r.n_cpus;
        ring_cnt = r.ring_cnt;
        ringbuf_pos = r.ringbuf_pos;
        n_elaborated = l.n_elaborated;
      }

  -- The program as SIGINT finds it: `n_drops` is what the BPF program has counted.
  abbrev pub at_signal : Loader → Bench h → Loader
  at_signal l b = record l { n_drops = b.globals.n_drops; n_elaborated = b.n_elaborated }

  module _ (answers : Answers) (c : Case) (customized : Bool) (byte : ℕ) where
    -- The steps and then SIGINT, once `main` has come to its loop; `none` is an access out of range.
    abbrev pub steps_and_signal : List Step → h.State → Loader → Option (Bench h × Outcome)
    steps_and_signal ts st l =
        Option.map (λ b. (b, signal_callback answers (at_signal l b)))
          (steps h cnt m c customized byte ts (begin l st))

    unfoldable pub whole_test : List Step → h.State → Run (Option (Bench h × Outcome))
    whole_test ts st = after_set_up (steps_and_signal ts st) (main answers initial)
