-- ===== src/Loader/Signal/Again.antt =====
-- SIGINT once `main` has come to its capture loop or has failed. Between the clean-up of a `main` that
-- has failed and the end of the process the handler is still installed, and `clean` has not reset the
-- globals.
use mathlib.Core.Path.{subst}
use bpf_ringbuf.Common.{Bool, true, false, ℕ, ◌≡◌, ◌⊎◌, refl, [], ◌∷◌, inl, inr, Bool-cases}
use bpf_ringbuf.Loader.Int.{ℤ, negsuc, same, is_zero}
use bpf_ringbuf.Loader.{
  Answers, Loader, Log, initial, skel_destroy, skel_open, set_print, set_signal, setrlimit, tell,
}
use bpf_ringbuf.Loader.Steps.{
  finished, clean, install_handler, initialize_resources, bump_memlock_rlimit, open_skeleton,
}
use bpf_ringbuf.Loader.Main.{
  Outcome, exits, captures, main, set_up, after_initialize, after_open, capture_or_clean,
}
use bpf_ringbuf.Loader.Account.{account}
use bpf_ringbuf.Loader.Account.Laws.{OnOutcome, main-OnOutcome}
use bpf_ringbuf.Loader.Signal.{through_null, through_freed, capturing, interrupt}
use bpf_ringbuf.Loader.Signal.Laws.{Released, interrupt-Released, Reaches-Stage}
use bpf_ringbuf.Loader.Signal.Same.{phases-main}

module _ (answers : Answers) where
  -- The last call has destroyed the skeleton that `skel` points at.
  abbrev pub Destroyed : Loader → Type 0
  Destroyed l = (rest : Log) × (answer : ℤ) × (l.log ≡ (skel_destroy l.skel, answer) ∷ rest)

  -- A failure before there is a skeleton, or behind its clean-up.
  abbrev Failed : Outcome → Type 0
  Failed (exits code l) = (is_zero l.skel ≡ true) ⊎ Destroyed l
  Failed (captures l) = Unit

  capture_or_clean-Failed : (r : Bool × Loader) → Failed (capture_or_clean answers r)
  unfolding clean
  capture_or_clean-Failed (true, l) = tt
  capture_or_clean-Failed (false, l) = inr (_, _, refl)

  open_skeleton-Failed : (l : Loader) → Failed (after_open answers (open_skeleton answers l))
  unfolding open_skeleton
  open_skeleton-Failed l = elim (Bool-cases (is_zero (answers l.log skel_open))) [
    | inl e ↦ rw e (inl e)
    | inr e ↦ rw e (capture_or_clean-Failed (set_up answers _))
  ]

  install_handler-Failed :
      (l : Loader)
      → is_zero l.skel ≡ true
      → Failed (after_initialize answers (finished (install_handler answers l)))
  install_handler-Failed l z = elim (Bool-cases (same (answers l.log set_signal) (negsuc 0))) [
    | inl e ↦ rw e (inl z)
    | inr e ↦ rw e (open_skeleton-Failed (tell answers set_signal l))
  ]

  main-Failed : Failed (main answers initial)
  unfolding main initialize_resources bump_memlock_rlimit
  main-Failed =
      let l = tell answers set_print initial in
      elim (Bool-cases (is_zero (answers l.log setrlimit))) [
        | inl e ↦ rw e (install_handler-Failed (tell answers setrlimit l) refl)
        | inr e ↦ rw e (inl refl)
      ]

  -- What SIGINT does then, when the handler reads that number of drops.
  abbrev pub Interrupted : ℕ → Outcome → Type 0
  Interrupted n_drops (captures l) = Released (interrupt answers (record l { n_drops = n_drops }))
  Interrupted n_drops (exits code l) =
      ((account l.log).skels ≡ [])
      × ((interrupt answers (record l { n_drops = n_drops }) ≡ through_null)
          ⊎ (Destroyed l × (interrupt answers (record l { n_drops = n_drops }) ≡ through_freed)))

  outcome-Interrupted :
      (n_drops : ℕ) (o : Outcome) → main answers initial ≡ o → Interrupted n_drops o
  unfolding interrupt
  outcome-Interrupted n_drops (captures l) e =
      interrupt-Released answers (record l { n_drops = n_drops })
        (Reaches-Stage answers capturing l ((phases-main answers l).1 e))
  outcome-Interrupted n_drops (exits code l) e =
      let (c, (ok, sk, mg, on)) = subst (OnOutcome answers) e (main-OnOutcome answers) in
      (
        sk,
        elim (Bool-cases (is_zero l.skel)) [
          | inl z ↦ inl (rw z refl)
          | inr nz ↦ inr (destroyed (subst Failed e main-Failed) nz, rw (nz, sk) refl)
        ],
      )
    where
      destroyed : (is_zero l.skel ≡ true) ⊎ Destroyed l → is_zero l.skel ≡ false → Destroyed l
      destroyed (inl z) nz = absurd cc
      destroyed (inr d) nz = d

  -- SIGINT when main has come to its capture loop or has failed, whatever libbpf and the kernel have
  -- answered and whatever the handler reads as n_drops. In the loop it goes through nothing that has
  -- been released, ends the process with 0 and the capture off, and releases the skeleton and the
  -- manager. After a failure no skeleton is left, and either the handler, if it is installed, goes
  -- through NULL, or main has destroyed the skeleton with its last call, the pointer is still there,
  -- and the handler goes through what is released.
  pub main-Interrupted : (n_drops : ℕ) → Interrupted n_drops (main answers initial)
  main-Interrupted n_drops = outcome-Interrupted n_drops (main answers initial) refl
