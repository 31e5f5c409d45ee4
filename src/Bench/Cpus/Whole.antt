-- ===== src/Bench/Cpus/Whole.antt =====
-- The whole test of single_ringbuf_reserve with case1.c: it begins when `main` comes to its capture
-- loop, has runs of the BPF program that overlap, and ends with SIGINT.
pub mod Prints
pub mod Settles
use bpf_ringbuf.Common.{ℕ, List, []}
use bpf_ringbuf.Loader.{Loader, Answers, initial}
use bpf_ringbuf.Loader.Main.{Outcome, single_main, single_signal_callback}
use bpf_ringbuf.Cases.{Run, after_set_up}
use bpf_ringbuf.Bpf.{Helpers}
use bpf_ringbuf.Bench.Cpus.{Step, Mapped, Bench, steps}

-- `capture_enabled` has been set; the counters are 0 when the BPF program is loaded, and `case1.c`
-- starts both positions at 0.
abbrev pub begin : {h : Helpers} → Loader → h.State → Bench h
begin l st = record {
  globals = record { capture_enabled = l.capture_enabled; n_drops = 0; n_skipped = 0 };
  kernel = st;
  in_flight = [];
  cons_pos = 0;
  prod_pos = 0;
  n_elaborated = l.n_elaborated;
}

-- The program as SIGINT finds it: `n_drops` is what the BPF program has counted.
abbrev pub at_signal : {h : Helpers} → Loader → Bench h → Loader
at_signal l b = record l { n_drops = b.globals.n_drops; n_elaborated = b.n_elaborated }

module _ (h : Helpers) (rb : h.RingBuf) (m : Mapped h rb) (answers : Answers) (byte : ℕ) where
  -- The steps and then SIGINT, once `main` has come to its loop.
  abbrev pub steps_and_signal : List Step → h.State → Loader → Bench h × Outcome
  steps_and_signal ts st l =
      let b = steps h rb m byte ts (begin l st) in
      (b, single_signal_callback answers (at_signal l b))

  unfoldable pub single_test : List Step → h.State → Run (Bench h × Outcome)
  single_test ts st = after_set_up (steps_and_signal ts st) (single_main answers initial)
