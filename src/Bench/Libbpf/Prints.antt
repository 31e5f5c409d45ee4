-- ===== src/Bench/Libbpf/Prints.antt =====
-- The three programs over libbpf's `ring_buffer__consume`, from their set-up to SIGINT.
use mathlib.Core.Path.{fun_ext}
use bpf_ringbuf.Common.{ℕ, ◌+◌, ◌^◌, ◌<◌, ◌≡◌, inl, inr, ◌⊎◌, List, [], Bool, false, ◌==◌}
use bpf_ringbuf.Loader.Int.{to_nat}
use bpf_ringbuf.Loader.{Loader, Answers, initial}
use bpf_ringbuf.Loader.Main.{Outcome, exits, captures, signal_callback, single_signal_callback}
use bpf_ringbuf.Loader.Account.{account}
use bpf_ringbuf.Loader.Account.Laws.{OnOutcome, main-OnOutcome}
use bpf_ringbuf.Loader.Consume.{handle_event}
use bpf_ringbuf.Loader.Single.{OnSingle, single_main-OnSingle}
use bpf_ringbuf.Loader.Output.Same.{output-same}
use bpf_ringbuf.Loader.SingleLibbpf.Same.{single-same}
use bpf_ringbuf.Cases.{Run, exited, looping, after_set_up}
use bpf_ringbuf.Bpf.{Helpers, Globals, count_drop}
use bpf_ringbuf.Bpf.Programs.{catch_fentry, catch_fentry_one, catch_fentry_output}
use bpf_ringbuf.Bpf.Programs.Outcome.{
  Counter, Counted, catch_fentry-Counted, catch_fentry_one-Counted,
  catch_fentry_output-SkippedOrSent,
}
use bpf_ringbuf.Bench.{Turn, events}
use bpf_ringbuf.Bench.Libbpf.{
  Consumer, Session, since, turns_and_signal, case2_test, output_test, single_case2_test,
}
use bpf_ringbuf.Bench.Libbpf.Laws.{Prints, begin-turns-Balance, signal-Prints, single_signal-Prints}

module _ (h : Helpers) (c : Counter h) where
  open h use {State, RingBuf}

  -- The program has failed in its set-up and released the skeleton, or SIGINT has ended it, and what
  -- it has printed accounts for `k` events, of which at most `fresh` wait.
  abbrev pub EndsWell : ℕ → ℕ → Run (Session h × Outcome) → Type 0
  EndsWell k fresh (exited code l) = (account l.log).skels ≡ []
  EndsWell k fresh (looping r) = Prints h c k fresh r

  module _ (k : Consumer h c handle_event) (answers : Answers) (byte : ℕ) (ts : List Turn)
      (st : State) (small : events ts < 2 ^ 31) (none_wait : c.count st ≡ 0) where
    abbrev Law : (Globals → State → Globals × State) → Type 0
    Law program =
        (g : Globals) (st : State)
        → (g.capture_enabled == 0) ≡ false
        → Counted h c g st (program g st)

    run-EndsWell :
        (program : Loader → Globals → State → Globals × State)
        → ((l : Loader) → Law (program l))
        → (o : Outcome) → OnOutcome answers o
        → EndsWell (events ts) (since 0 ts) (
            after_set_up
              (turns_and_signal h k.consume answers byte ts st program (signal_callback answers))
              o)
    run-EndsWell program law (exits code l) (e, (ok, sk, mg, on)) = sk
    run-EndsWell program law (captures l) (managed, held, count, n, on, unread, room) =
        signal-Prints h c answers (events ts) (since 0 ts) _
          (begin-turns-Balance h c (program l) (law l) k ts l st small none_wait on unread)

    single-EndsWell :
        (program : Loader → Globals → State → Globals × State)
        → ((l : Loader) → Law (program l))
        → (o : Outcome) → OnSingle o
        → EndsWell (events ts) (since 0 ts) (
            after_set_up
              (turns_and_signal h k.consume answers byte ts st program
                (single_signal_callback answers))
              o)
    single-EndsWell program law (exits code l) (e, sk, mg, on) = sk
    single-EndsWell program law (captures l) (sk, mg, nz, on, unread, none_read) =
        single_signal-Prints h c answers (events ts) (since 0 ts) _
          (begin-turns-Balance h c (program l) (law l) k ts l st small none_wait on unread)

    catch_fentry_one-Law : (rb : RingBuf) → Law (catch_fentry_one h rb byte)
    catch_fentry_one-Law rb g st on = widen (catch_fentry_one-Counted h c rb byte g st on)
      where
        widen :
            {r : Globals × State}
            → ((r.0 ≡ count_drop g) × (c.count r.1 ≡ c.count st))
              ⊎ ((r.0 ≡ g) × (c.count r.1 ≡ c.count st + 1))
            → Counted h c g st r
        widen (inl x) = inl x
        widen (inr x) = inr (inr x)

    -- A whole test with case2.c of multi_ringbuf_reserve, case1.c of multi_ringbuf_output or case2.c of
    -- single_ringbuf_reserve, where ring_buffer__consume takes all records that wait (Consumer), the
    -- rings are empty at first, nothing else sends records, and fewer than 2 ^ 31 events come, between
    -- iterations of the capture loop in any order: the set-up fails and the skeleton is released, or
    -- SIGINT ends the process with 0 and prints the numbers of drops and of elaborated events, modulo
    -- 2 ^ 64, where every event is a drop, skipped, elaborated or waits, and no more wait than have come
    -- since the last iteration.
    pub libbpf-Prints :
        (customized : Bool) (rb : RingBuf)
        → EndsWell (events ts) (since 0 ts) (case2_test h k.consume answers byte ts st customized)
          × EndsWell (events ts) (since 0 ts) (output_test h k.consume answers byte ts st)
          × EndsWell (events ts) (since 0 ts) (single_case2_test h k.consume answers byte ts st rb)
    unfolding case2_test output_test single_case2_test
    libbpf-Prints customized rb =
        let multi = main-OnOutcome answers in
        let output =
          run-EndsWell (λ l. catch_fentry_output h byte)
            (λ l g st on. inr (catch_fentry_output-SkippedOrSent h c byte g st on)) _ multi in
        let single =
          single-EndsWell (λ l. catch_fentry_one h rb byte) (λ l. catch_fentry_one-Law rb) _
            (single_main-OnSingle answers) in
        (
          run-EndsWell (λ l. catch_fentry h customized byte (to_nat l.rodata_n_cpus))
              (λ l. catch_fentry-Counted h c customized byte (to_nat l.rodata_n_cpus)) _ multi,
          rw ((output-same answers initial).0)
              (rw (fun_ext (λ l. (output-same answers l).1)) output),
          rw ((single-same answers initial).0)
              (rw (fun_ext (λ l. (single-same answers l).1)) single),
        )
