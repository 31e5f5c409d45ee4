-- ===== src/Cases/Interrupt.antt =====
-- The programs that read through `ring_buffer__consume`, and SIGINT during their capture: what they
-- have counted by then, what they print, and what they release.
use bpf_ringbuf.Common.{ℕ, ◌%◌, ◌^◌, ◌≡◌, refl, ap, ◌∙◌, sym, List, [], ◌∷◌, Bool-cases, inl, inr}
use mathlib.Core.Path.{fun_ext}
use bpf_ringbuf.Loader.Int.{ℤ, pos, is_zero}
use bpf_ringbuf.Loader.{Loader, Answers, Log, initial, tell, print}
use bpf_ringbuf.Loader.Steps.{clean, free_consumer_producer, free_if_null}
use bpf_ringbuf.Loader.Main.{Outcome, exits, captures, signal_callback, single_signal_callback}
use bpf_ringbuf.Loader.Account.{account, present}
use bpf_ringbuf.Loader.Account.Laws.{
  OnOutcome, main-OnOutcome, clean-account, clean-capture_enabled, drop_present,
}
use bpf_ringbuf.Loader.Consume.{Consumes, handle_event, consume_loop}
use bpf_ringbuf.Loader.Consume.Laws.{consume_loop-Looped}
use bpf_ringbuf.Loader.Single.{code_of, OnSingle, single_main-OnSingle}
use bpf_ringbuf.Loader.Output
use bpf_ringbuf.Loader.Output.Same.{output-same}
use bpf_ringbuf.Loader.SingleLibbpf
use bpf_ringbuf.Loader.SingleLibbpf.Same.{single-same}
use bpf_ringbuf.Cases.{
  Run, exited, looping, after_set_up, case2_main, output_main, single_case2_main,
}

-- The numbers that a log has printed, the latest first.
abbrev pub printed : Log → List ℕ
printed [] = []
printed ((print n, a) ∷ log) = n ∷ printed log
printed (c ∷ log) = printed log

-- SIGINT has ended the process: it has printed `n_drops`, and then the number of records that libbpf
-- has reported; the capture is off, the skeleton is released, and of the managers those are left.
abbrev pub Ended : Loader → ℕ → List ℤ → Outcome → Type 0
Ended l drops managers (captures l') = ⊥
Ended l drops managers (exits code l') =
    (code ≡ pos 0)
    × (printed l'.log ≡ ((account l.log).consumed % 2 ^ 64) ∷ drops ∷ printed l.log)
    × ((account l'.log).skels ≡ [])
    × ((account l'.log).managers ≡ managers)
    × (l'.capture_enabled ≡ 0)

-- The program has ended with EXIT_FAILURE and has released what it held, or it has counted what
-- libbpf has reported, and SIGINT, when `drops` events have been dropped, ends it.
abbrev pub Counts : (Loader → Outcome) → ℕ → Run Loader → Type 0
Counts handler drops (exited code l) =
    (code ≡ pos 1) × ((account l.log).skels ≡ []) × ((account l.log).managers ≡ [])
Counts handler drops (looping l) =
    (l.n_elaborated ≡ (account l.log).consumed % 2 ^ 64)
    × Ended l drops [] (handler (record l { n_drops = drops }))

-- The same for a single ring, where the exit code tells what has failed.
abbrev pub CountsSingle : (Loader → Outcome) → ℕ → Run Loader → Type 0
CountsSingle handler drops (exited code l) = (code ≡ code_of l.log) × ((account l.log).skels ≡ [])
CountsSingle handler drops (looping l) =
    (l.n_elaborated ≡ (account l.log).consumed % 2 ^ 64)
    × Ended l drops (account l.log).managers (handler (record l { n_drops = drops }))

module _ (answers : Answers) where
  free_if_null-printed :
      (p : ℤ) (l : Loader) → printed (free_if_null answers p l).log ≡ printed l.log
  free_if_null-printed p l = elim (Bool-cases (is_zero p)) [ inl e ↦ rw e refl | inr e ↦ rw e refl ]

  pub clean-printed : (l : Loader) → printed (clean answers l).log ≡ printed l.log
  unfolding clean free_consumer_producer
  clean-printed l =
      free_if_null-printed l.prod_pos (free_if_null answers l.cons_pos l)
      ∙ free_if_null-printed l.cons_pos l

  -- The handler, at a state whose account is that of the globals.
  signal_callback-Ended :
      (drops : ℕ) (l : Loader)
      → (account l.log).skels ≡ present l.skel
      → (account l.log).managers ≡ present l.ringbuf
      → l.n_elaborated ≡ (account l.log).consumed % 2 ^ 64
      → Ended l drops [] (signal_callback answers (record l { n_drops = drops }))
  unfolding signal_callback
  signal_callback-Ended drops l sk mg counted =
      let l1 = record l { capture_enabled = 0; n_drops = drops } in
      let l2 = tell answers (print l.n_elaborated) (tell answers (print drops) l1) in
      let e = clean-account answers l2 in
      (
        refl,
        clean-printed l2 ∙ ap (λ n. n ∷ drops ∷ printed l.log) counted,
        ap (λ t. t.skels) e ∙ rw sk (drop_present l.skel),
        ap (λ t. t.managers) e ∙ rw mg (drop_present l.ringbuf),
        clean-capture_enabled answers l2,
      )

  module _ (c : Consumes handle_event answers) (k drops : ℕ) where
    run-Counts :
        (o : Outcome)
        → OnOutcome answers o
        → Counts (signal_callback answers) drops (after_set_up (consume_loop answers k) o)
    run-Counts (exits code l) (e, (ok, sk, mg, on)) = (e, sk, mg)
    run-Counts (captures l) (managed, h, count, n, on, unread, room) =
        let r = consume_loop-Looped answers c k l in
        let counted = r.read (rw unread (rw h refl)) in
        (
          counted,
          signal_callback-Ended drops (consume_loop answers k l)
              (ap (λ t. t.skels) r.held ∙ rw h (ap present (sym r.same_skel)))
              (ap (λ t. t.managers) r.held ∙ rw h (ap present (sym r.same_ringbuf))) counted,
        )

  -- The same for the handler of a single ring, which leaves the manager.
  single_signal-Ended :
      (drops : ℕ) (l : Loader)
      → (account l.log).skels ≡ present l.skel
      → l.n_elaborated ≡ (account l.log).consumed % 2 ^ 64
      → Ended l drops
          (account l.log).managers
          (single_signal_callback answers (record l { n_drops = drops }))
  unfolding single_signal_callback
  single_signal-Ended drops l sk counted =
      (refl, ap (λ n. n ∷ drops ∷ printed l.log) counted, rw sk (drop_present l.skel), refl, refl)

  module _ (c : Consumes handle_event answers) (k drops : ℕ) where
    run-CountsSingle :
        (o : Outcome)
        → OnSingle o
        → CountsSingle
            (single_signal_callback answers)
            drops
            (after_set_up (consume_loop answers k) o)
    run-CountsSingle (exits code l) (e, sk, mg, on) = (e, sk)
    run-CountsSingle (captures l) (sk, mg, nz, on, unread, none_read) =
        let r = consume_loop-Looped answers c k l in
        let counted = r.read (rw unread (rw none_read refl)) in
        (
          counted,
          single_signal-Ended drops (consume_loop answers k l)
              (ap (λ t. t.skels) r.held ∙ (sk ∙ ap present (sym r.same_skel))) counted,
        )

    single_case2-Counts :
        CountsSingle (SingleLibbpf.signal_callback answers) drops (single_case2_main answers k)
    unfolding single_case2_main
    single_case2-Counts = rw ((single-same answers initial).0) (
        rw (fun_ext (λ l. (single-same answers l).1))
          (run-CountsSingle _ (single_main-OnSingle answers)))

    -- case2.c of multi_ringbuf_reserve, case1.c of multi_ringbuf_output and case2.c of
    -- single_ringbuf_reserve, where ring_buffer__consume returns no negative number unless a
    -- callback does (Consumes): the program ends with EXIT_FAILURE, for a single ring with the code
    -- of its last failure, and has released the skeleton and, except for a single ring, the manager;
    -- or after any number of iterations n_elaborated is the number of records that
    -- ring_buffer__consume has reported, modulo 2 ^ 64, and SIGINT then prints the drops and that
    -- number, ends the process with 0 and the capture off, and releases the skeleton and, except for
    -- a single ring, the manager.
    pub libbpf-Counts :
        Counts (signal_callback answers) drops (case2_main answers k)
        × Counts (Output.signal_callback answers) drops (output_main answers k)
        × CountsSingle (SingleLibbpf.signal_callback answers) drops (single_case2_main answers k)
    unfolding case2_main output_main
    libbpf-Counts =
        let case2 = run-Counts c k drops _ (main-OnOutcome answers) in
        (
          case2,
          rw ((output-same answers initial).0)
              (rw (fun_ext (λ l. (output-same answers l).1)) case2),
          single_case2-Counts,
        )
