-- ===== src/Bench/Libbpf.antt =====
-- A test as a whole, with a program that reads through libbpf's own `ring_buffer__consume`:
-- multi_ringbuf_reserve/case2.c, multi_ringbuf_output/case1.c and single_ringbuf_reserve/case2.c. It
-- begins when `main` comes to its capture loop and ends with SIGINT.
pub mod Laws
pub mod Prints
mod Tests
use bpf_ringbuf.Common.{Bool, ℕ, ◌+◌, ◌^◌, ◌<◌, ◌≡◌, false, List, [], ◌∷◌}
use bpf_ringbuf.Loader.Int.{ℤ, pos, is_negative, to_nat}
use bpf_ringbuf.Loader.{Loader, Answers, initial}
use bpf_ringbuf.Loader.Main.{Outcome, main, signal_callback}
use bpf_ringbuf.Loader.Output
use bpf_ringbuf.Loader.SingleLibbpf
use bpf_ringbuf.Cases.{Run, after_set_up}
use bpf_ringbuf.Bpf.Programs.{catch_fentry, catch_fentry_one, catch_fentry_output}
use bpf_ringbuf.Loader.Consume.{consume_once}
use bpf_ringbuf.Bpf.{Helpers, Globals}
use bpf_ringbuf.Bpf.Programs.Outcome.{Counter}
use bpf_ringbuf.Bench.{Turn, event, read}

-- What libbpf documents of `ring_buffer__consume`, on rings in which `count` records wait: while the
-- callback returns no negative number it takes them all and returns how many there were, if an `int`
-- can count them.
pub record Consumer (h : Helpers) (c : Counter h) (callback : ℤ → ℤ → ℕ → ℤ) : Type 0 where
  pub consume : ℤ → h.State → ℤ × h.State
  pub takes_all :
      ((ctx data_ptr : ℤ) (data_sz : ℕ) → is_negative (callback ctx data_ptr data_sz) ≡ false)
      → (rb : ℤ) (st : h.State) → c.count st < 2 ^ 31
      → ((consume rb st).0 ≡ pos (c.count st)) × (c.count (consume rb st).1 ≡ 0)

-- The globals of the BPF program, the kernel, and the program that reads.
pub record Session (h : Helpers) : Type 0 where
  pub globals : Globals
  pub kernel : h.State
  pub loader : Loader

-- `start_capture` has set `capture_enabled`; the counters are 0 when the BPF program is loaded.
abbrev pub begin : {h : Helpers} → Loader → h.State → Session h
begin l st = record {
  globals = record { capture_enabled = l.capture_enabled; n_drops = 0; n_skipped = 0 };
  kernel = st;
  loader = l;
}

module _ (h : Helpers) (program : Globals → h.State → Globals × h.State)
    (consume : ℤ → h.State → ℤ × h.State) where
  -- A getpgid call, or one iteration of the capture loop, which gets the answer of the kernel.
  unfoldable pub take_turn : Turn → Session h → Session h
  take_turn event s =
      let (g, st) = program s.globals s.kernel in record s { globals = g; kernel = st }
  take_turn read s =
      let (reads, st) = consume s.loader.ringbuf s.kernel in
      record s { kernel = st; loader = consume_once (λ log call. reads) s.loader }

  unfoldable pub take_turns : List Turn → Session h → Session h
  take_turns [] s = s
  take_turns (t ∷ ts) s = take_turns ts (take_turn t s)

-- The program as SIGINT finds it: `n_drops` is what the BPF program has counted.
abbrev pub at_signal : {h : Helpers} → Session h → Loader
at_signal s = record s.loader { n_drops = s.globals.n_drops }

module _ (h : Helpers) (consume : ℤ → h.State → ℤ × h.State) (answers : Answers) (byte : ℕ)
    (ts : List Turn) (st : h.State) where
  -- The turns and then SIGINT, once `main` has come to its loop; `program` may read `n_cpus`, which
  -- the loader has set.
  abbrev pub turns_and_signal :
      (Loader → Globals → h.State → Globals × h.State)
      → (Loader → Outcome)
      → Loader
      → Session h × Outcome
  turns_and_signal program handler l =
      let s = take_turns h (program l) consume ts (begin l st) in (s, handler (at_signal s))

  -- multi_ringbuf_reserve/case2.c.
  unfoldable pub case2_test : Bool → Run (Session h × Outcome)
  case2_test customized =
      after_set_up
        (turns_and_signal (λ l. catch_fentry h customized byte (to_nat l.rodata_n_cpus))
          (signal_callback answers))
        (main answers initial)

  -- multi_ringbuf_output/case1.c.
  unfoldable pub output_test : Run (Session h × Outcome)
  output_test =
      after_set_up
        (turns_and_signal (λ l. catch_fentry_output h byte) (Output.signal_callback answers))
        (Output.main answers initial)

  -- single_ringbuf_reserve/case2.c.
  unfoldable pub single_case2_test : h.RingBuf → Run (Session h × Outcome)
  single_case2_test rb =
      after_set_up
        (turns_and_signal (λ l. catch_fentry_one h rb byte) (SingleLibbpf.signal_callback answers))
        (SingleLibbpf.main answers initial)

-- The events since the last iteration of the capture loop, `n` of them before the turns.
abbrev pub since : ℕ → List Turn → ℕ
since n [] = n
since n (event ∷ ts) = since (n + 1) ts
since n (read ∷ ts) = since 0 ts
