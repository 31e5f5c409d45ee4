-- ===== src/Loader/Account/Phases.antt =====
-- The phases of `main` up to the load of the skeleton, each from the stage before to the next or to
-- a failure.
use bpf_ringbuf.Common.{
  Bool, true, false, not, [], ◌∷◌, ◌≡◌, refl, append-nil, Bool-cases, inl, inr, ◌||◌, arith, ◌&&◌,
  sym,
}
use bpf_ringbuf.Loader.Int.{ℤ, pos, is_zero, is_negative, is_below_one, same_refl, is_below_one_lem}
use bpf_ringbuf.Loader.{
  Loader, Answers, skel_open, skel_load, map_create, set_inner_map_fd, calloc, num_possible_cpus,
}
use bpf_ringbuf.Loader.Steps.{
  open_skeleton, load_skeleton, load_inner_map, set_cpus_number, allocate_consumer_producer,
}
use bpf_ringbuf.Loader.Main.{close_inner_map}
use bpf_ringbuf.Loader.Account.Ends.{Ends, Ends-split, and_then-Ends, and_then-Ends-split}
use bpf_ringbuf.Loader.Account.Stage.{
  At, Failed, Empty, NoRings, NoArrays, Opened, WithInner, WithCpus, Loaded,
}

not_lem : (b : Bool) → not b ≡ false → b ≡ true
not_lem b h = ground arith

both_checked : (a b : Bool) → (not b && (not a && true)) ≡ not (a || b)
both_checked true true = refl
both_checked true false = refl
both_checked false true = refl
both_checked false false = refl

-- `allocate_consumer_producer` has succeeded.
abbrev Allocated : ℤ → Loader → Type 0
Allocated n l = At (l.inner_map_fd ∷ []) [] l × NoRings l × (l.n_cpus ≡ n)

module _ (answers : Answers) where
  pub open_skeleton-Ends :
      (l : Loader) → Opened l → l.skel ≡ pos 0 → Ends Opened Empty (open_skeleton answers l)
  unfolding open_skeleton
  open_skeleton-Ends l ((h, on), nr, na) np =
      let p = answers l.log skel_open in
      Ends-split Opened Empty (not (is_zero p)) _
        (λ e. ((rw h (rw e (rw np (rw append-nil refl))), on), nr, na))
        (λ e. (
          rw h (rw e refl),
          rw h (rw np (rw append-nil (rw (not_lem (is_zero p) e) refl))),
          rw h (rw nr refl),
          on,
        ))

  pub load_inner_map-Ends :
      (l : Loader) → Opened l → Ends WithInner Failed (load_inner_map answers l)
  unfolding load_inner_map
  load_inner_map-Ends l0 ((h, on), nr, na) =
      let fd = answers l0.log map_create in
      let l = record l0 { inner_map_fd = fd; log = (map_create, fd) ∷ l0.log } in
      and_then-Ends-split WithInner Failed (not (is_negative fd)) l _
        (λ e.
          Ends-split WithInner Failed (is_zero (answers l.log (set_inner_map_fd fd))) _
            (λ e'. ((rw h (rw e (rw e' refl)), on), nr, na))
            (λ e'. (rw h (rw e' refl), rw h refl, rw h refl, on)))
        (λ e. (rw h (rw e refl), rw h refl, rw h refl, on))

  pub load_skeleton-Ends :
      (l : Loader) → WithCpus l → Ends WithCpus Failed (load_skeleton answers l)
  unfolding load_skeleton
  load_skeleton-Ends l ((h, on), nr, c) =
      Ends-split WithCpus Failed (is_zero (answers l.log (skel_load l.skel))) _
        (λ e. ((rw h (rw e refl), on), nr, c)) (λ e. (rw h (rw e refl), rw h refl, rw h refl, on))

  pub close_inner_map-Ends :
      (l : Loader) → WithCpus l → Ends Loaded Failed (close_inner_map answers l)
  close_inner_map-Ends l ((h, on), nr, c) = ((rw h (rw (same_refl l.inner_map_fd) refl), on), nr, c)

  -- What `allocate_consumer_producer` keeps.
  allocate-Ends :
      (n : ℤ) (l : Loader)
      → (At (l.inner_map_fd ∷ []) [] l × NoRings l × NoArrays l × (l.n_cpus ≡ n))
      → Ends (Allocated n) Failed (allocate_consumer_producer answers n l)
  unfolding allocate_consumer_producer
  allocate-Ends n l0 ((h, on), nr, (nc, np), c) =
      let p = answers l0.log (calloc n) in
      let log = (calloc n, p) ∷ l0.log in
      let q = answers log (calloc n) in
      Ends-split (Allocated n) Failed (not (is_zero p || is_zero q)) _
        (λ e. (
          (
            rw h (
                rw np
                  (rw nc (rw (both_checked (is_zero p) (is_zero q)) (rw e (rw append-nil refl))))),
            on,
          ),
          nr,
          c,
        ))
        (λ e. (rw h (rw (both_checked (is_zero p) (is_zero q)) e), rw h refl, rw h refl, on))

  pub set_cpus_number-Ends :
      (l : Loader) → WithInner l → Ends WithCpus Failed (set_cpus_number answers l)
  unfolding set_cpus_number
  set_cpus_number-Ends l0 ((h, on), nr, na) =
      let n = answers l0.log num_possible_cpus in
      let l = record l0 { n_cpus = n; log = (num_possible_cpus, n) ∷ l0.log } in
      elim (Bool-cases (is_below_one n)) [
        | inl e ↦ rw e (rw h (rw e refl), rw h refl, rw h refl, on)
        | inr e ↦ rw e (
            and_then-Ends WithCpus Failed (Allocated n) _ _
              (allocate-Ends n l ((rw h (rw e refl), on), nr, na, refl))
              (λ l' (a, nr', c). (a, nr', (refl, sym c, rw c (is_below_one_lem n e)))))
      ]
