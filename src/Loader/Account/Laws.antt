-- ===== src/Loader/Account/Laws.antt =====
-- `main` of the programs over one ring for each CPU, and their handler of SIGINT: what they reach,
-- what they release, and what they leave behind.
use bpf_ringbuf.Common.{
  Bool, true, false, List, [], ◌∷◌, ◌≡◌, refl, length, Bool-cases, inl, inr, ap, ◌∙◌,
}
use bpf_ringbuf.Loader.Int.{ℤ, pos, is_zero, negsuc, same, same_refl, to_nat}
use bpf_ringbuf.Loader.{Loader, Answers, initial, set_print, setrlimit, set_signal}
use bpf_ringbuf.Loader.Steps.{
  finished, initialize_resources, bump_memlock_rlimit, install_handler, clean,
  free_consumer_producer, start_capture, open_skeleton, free_if_null,
}
use bpf_ringbuf.Loader.Main.{
  Outcome, exits, captures, main, set_up, after_open, capture_or_clean, after_initialize,
  close_inner_map,
}
use bpf_ringbuf.Loader.Account.{account, present, number, drop_one}
use bpf_ringbuf.Loader.Account.Ends.{Ends, and_then-Ends}
use bpf_ringbuf.Loader.Account.Stage.{
  fitting, Idle, Failed, Counted, Opened, WithInner, WithCpus, Loaded, SetUp, Empty, Room,
}
use bpf_ringbuf.Loader.Account.Phases.{
  open_skeleton-Ends, load_inner_map-Ends, set_cpus_number-Ends, load_skeleton-Ends,
  close_inner_map-Ends,
}
use bpf_ringbuf.Loader.Account.Filling.{instaciate_ring_buffers-Ends, attach_skeleton-Ends}

module _ (answers : Answers) where
  set_up-Ends : (l : Loader) → Opened l → Ends (SetUp answers) Failed (set_up answers l)
  unfolding set_up
  set_up-Ends l o =
      and_then-Ends (SetUp answers) Failed WithInner _ _ (load_inner_map-Ends answers l o) (λ l1 h1.
        and_then-Ends (SetUp answers) Failed WithCpus _ _ (set_cpus_number-Ends answers l1 h1)
          (λ l2 h2.
            and_then-Ends (SetUp answers) Failed WithCpus _ _ (load_skeleton-Ends answers l2 h2)
              (λ l3 h3.
                and_then-Ends (SetUp answers) Failed Loaded (close_inner_map answers l3) _
                  (close_inner_map-Ends answers l3 h3)
                  (λ l4 h4.
                    and_then-Ends (SetUp answers) Failed (SetUp answers) _ _
                      (instaciate_ring_buffers-Ends answers l4 h4)
                      (attach_skeleton-Ends answers)))))

pub drop_present : (p : ℤ) → drop_one p (present p) ≡ []
drop_present p = elim (Bool-cases (is_zero p)) [
  | inl e ↦ rw e refl
  | inr e ↦ rw e (rw (same_refl p) refl)
]

module _ (answers : Answers) where
  -- A free of NULL changes no account.
  free_if_null-account :
      (p : ℤ) (l : Loader) → account (free_if_null answers p l).log ≡ account l.log
  free_if_null-account p l = elim (Bool-cases (is_zero p)) [
    | inl e ↦ rw e (rw e refl)
    | inr e ↦ rw e refl
  ]

  pub free_consumer_producer-account :
      (l : Loader) → account (free_consumer_producer answers l).log ≡ account l.log
  unfolding free_consumer_producer
  free_consumer_producer-account l =
      free_if_null-account l.prod_pos (free_if_null answers l.cons_pos l)
      ∙ free_if_null-account l.cons_pos l

  -- `clean` releases the skeleton and the manager of the globals, and neither array.
  pub clean-account :
      (l : Loader)
      → account (clean answers l).log ≡ record (account l.log) {
        skels = drop_one l.skel (account l.log).skels;
        managers = drop_one l.ringbuf (account l.log).managers;
      }
  unfolding clean free_consumer_producer
  clean-account l = rw (free_consumer_producer-account l) refl

  pub clean-capture_enabled : (l : Loader) → (clean answers l).capture_enabled ≡ l.capture_enabled
  unfolding clean free_consumer_producer
  clean-capture_enabled l = refl

  pub clean-Idle : (l : Loader) → Idle l → Idle (clean answers l)
  unfolding clean free_consumer_producer
  clean-Idle l on = on

  clean-Empty : (l : Loader) → Failed l → Empty (clean answers l)
  clean-Empty l (ok, sk, mg, on) = (
    ap (λ t. t.ok) (clean-account l) ∙ ok,
    ap (λ t. t.skels) (clean-account l) ∙ rw sk (drop_present l.skel),
    ap (λ t. t.managers) (clean-account l) ∙ rw mg (drop_present l.ringbuf),
    clean-Idle l on,
  )

  abbrev pub Captured : Loader → Type 0
  Captured l =
      (managed : List ℤ) × (account l.log ≡ fitting true [] managed (number managed) l)
      × (length managed ≡ to_nat l.n_cpus)
      × Counted l.n_cpus l
      × (l.capture_enabled ≡ 1)
      × (l.n_elaborated ≡ 0)
      × Room answers (to_nat l.n_cpus)

  -- What is to be shown of each outcome.
  abbrev pub OnOutcome : Outcome → Type 0
  OnOutcome (exits code l) = (code ≡ pos 1) × Empty l
  OnOutcome (captures l) = Captured l

  after_open-OnOutcome :
      (r : Bool × Loader) → Ends Opened Empty r → OnOutcome (after_open answers r)
  unfolding start_capture
  after_open-OnOutcome (false, l) e = (refl, e)
  after_open-OnOutcome (true, l) o =
      capture_or_clean-OnOutcome (set_up answers l) (set_up-Ends answers l o)
    where
      capture_or_clean-OnOutcome :
          (r : Bool × Loader)
          → Ends (SetUp answers) Failed r
          → OnOutcome (capture_or_clean answers r)
      capture_or_clean-OnOutcome (true, l) (managed, (h, on), k, c, room) =
          (managed, h, k, c, refl, on.1, room)
      capture_or_clean-OnOutcome (false, l) f = (refl, clean-Empty l f)

  -- `signal` has been called, and after it the outcome is that of the other phases.
  install_handler-OnOutcome :
      (l : Loader)
      → Opened l
      → l.skel ≡ pos 0
      → OnOutcome (after_initialize answers (finished (install_handler answers l)))
  install_handler-OnOutcome l0 ((h, on), nr, na) np =
      let old = answers l0.log set_signal in
      let l = record l0 { log = (set_signal, old) ∷ l0.log } in
      elim (Bool-cases (same old (negsuc 0))) [
        | inl e ↦ rw e (refl, (rw h (rw e refl), rw h (rw np refl), rw h (rw nr refl), on))
        | inr e ↦ rw e (
            after_open-OnOutcome (open_skeleton answers l)
              (open_skeleton-Ends answers l ((rw h (rw e refl), on), nr, na) np))
      ]

  pub main-OnOutcome : OnOutcome (main answers initial)
  unfolding main initialize_resources bump_memlock_rlimit
  main-OnOutcome =
      let log = (set_print, answers [] set_print) ∷ [] in
      let err = answers log setrlimit in
      elim (Bool-cases (is_zero err)) [
        | inl e ↦ rw e (
            install_handler-OnOutcome (record initial { log = (setrlimit, err) ∷ log })
              ((rw e refl, (refl, refl)), refl, (refl, refl)) refl)
        | inr e ↦ rw e (refl, (rw e refl, refl, refl, (refl, refl)))
      ]
