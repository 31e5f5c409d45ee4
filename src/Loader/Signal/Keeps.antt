-- ===== src/Loader/Signal/Keeps.antt =====
-- `skel` in the phases of `main` behind the open phase.
use bpf_ringbuf.Common.{
  ◌∷◌, ℕ, zero, suc, ◌+◌, ◌-◌, Bool, true, false, not, ◌≡◌, Bool-cases, inl, inr,
}
use bpf_ringbuf.Loader.Int.{ℤ, is_negative, is_below_one, to_nat}
use bpf_ringbuf.Loader.{
  ask, tell, close, map_update_elem, Answers, Loader, map_create, map_fd, num_possible_cpus,
}
use bpf_ringbuf.Loader.Steps.{
  and_then, succeeds, allocate_consumer_producer, set_cpus_number, load_inner_map, load_skeleton,
  new_manager, add_to_manager, instaciate_one, instaciate_from, instaciate_ring_buffers,
  attach_skeleton,
}
use bpf_ringbuf.Loader.Account.Ends.{Ends, and_then-Ends}

-- Whatever bool a function returns, the skeleton is `p`.
abbrev pub Keeps : ℤ → Bool × Loader → Type 0
Keeps p r = Ends (λ l. l.skel ≡ p) (λ l. l.skel ≡ p) r

module _ (p : ℤ) where
  returns-Keeps : (b : Bool) (l : Loader) → l.skel ≡ p → Keeps p (b, l)
  returns-Keeps true l h = h
  returns-Keeps false l h = h

  and_then-Keeps :
      (r : Bool × Loader) (next : Loader → Bool × Loader)
      → Keeps p r
      → ((l : Loader) → l.skel ≡ p → Keeps p (next l))
      → Keeps p (and_then r next)
  and_then-Keeps r next = and_then-Ends (λ l. l.skel ≡ p) (λ l. l.skel ≡ p) (λ l. l.skel ≡ p) r next

  module _ (answers : Answers) where
    pub load_inner_map-Keeps : (l : Loader) → l.skel ≡ p → Keeps p (load_inner_map answers l)
    unfolding load_inner_map
    load_inner_map-Keeps l h =
        and_then-Keeps (not (is_negative (answers l.log map_create)), _) _ (returns-Keeps _ _ h)
          (λ l' h'. returns-Keeps _ _ h')

    allocate-Keeps :
        (n : ℤ) (l : Loader) → l.skel ≡ p → Keeps p (allocate_consumer_producer answers n l)
    unfolding allocate_consumer_producer
    allocate-Keeps n l h = returns-Keeps _ _ h

    pub set_cpus_number-Keeps : (l : Loader) → l.skel ≡ p → Keeps p (set_cpus_number answers l)
    unfolding set_cpus_number
    set_cpus_number-Keeps l0 h =
        let n = answers l0.log num_possible_cpus in
        let l = record l0 { n_cpus = n; log = (num_possible_cpus, n) ∷ l0.log } in
        elim (Bool-cases (is_below_one n)) [
          | inl e ↦ rw e h
          | inr e ↦ rw e (
              and_then-Keeps (allocate_consumer_producer answers n l)
                (λ l'. (true, record l' { rodata_n_cpus = n })) (allocate-Keeps n l h)
                (λ l' h'. h'))
        ]

    pub load_skeleton-Keeps : (l : Loader) → l.skel ≡ p → Keeps p (load_skeleton answers l)
    unfolding load_skeleton
    load_skeleton-Keeps l h = returns-Keeps _ _ h

    pub attach_skeleton-Keeps : (l : Loader) → l.skel ≡ p → Keeps p (attach_skeleton answers l)
    unfolding attach_skeleton
    attach_skeleton-Keeps l h = returns-Keeps _ _ h

    instaciate_one-Keeps :
        (manage : ℤ → Loader → Bool × Loader)
        → ((fd : ℤ) (l : Loader) → l.skel ≡ p → Keeps p (manage fd l))
        → (m : ℤ) (i : ℕ) (l : Loader) → l.skel ≡ p
        → Keeps p (instaciate_one answers manage m i l)
    unfolding instaciate_one
    instaciate_one-Keeps manage law m i l0 h =
        let fd = answers l0.log map_create in
        let l = record l0 { log = (map_create, fd) ∷ l0.log } in
        let shut : Loader → Bool × Loader = λ l3. (true, tell answers (close fd) l3) in
        let rest : Loader → Bool × Loader = λ l2. and_then (manage fd l2) shut in
        and_then-Keeps (not (is_negative fd), l)
          (λ l1. and_then (succeeds (ask answers (map_update_elem m i fd) l1)) rest)
          (returns-Keeps _ _ h)
          (λ l1 h1.
            and_then-Keeps (succeeds (ask answers (map_update_elem m i fd) l1)) rest
              (returns-Keeps _ _ h1)
              (λ l2 h2. and_then-Keeps (manage fd l2) shut (law fd l2 h2) (λ l3 h3. h3)))

    instaciate_from-Keeps :
        (left : ℕ) (m : ℤ) (i : ℕ) (l : Loader)
        → l.skel ≡ p
        → Keeps p (instaciate_from answers left m i l)
    unfolding instaciate_from
    instaciate_from-Keeps zero m i l h = h
    instaciate_from-Keeps (suc left) m i l h =
        and_then-Keeps (instaciate_one answers (add_to_manager answers) m i l)
          (instaciate_from answers left m (i + 1))
          (instaciate_one-Keeps (add_to_manager answers) (λ fd l' h'. returns-Keeps _ _ h') m i l h)
          (instaciate_from-Keeps left m (i + 1))

    pub instaciate_ring_buffers-Keeps :
        (l : Loader) → l.skel ≡ p → Keeps p (instaciate_ring_buffers answers l)
    unfolding instaciate_ring_buffers
    instaciate_ring_buffers-Keeps l0 h =
        let m = answers l0.log map_fd in
        let shut : Loader → Bool × Loader = λ l3. (true, tell answers (close m) l3) in
        let others : Loader → Bool × Loader =
          λ l2. and_then (instaciate_from answers (to_nat l2.n_cpus - 1) m 1 l2) shut in
        let first : Loader → Bool × Loader =
          λ l1. instaciate_one answers (new_manager answers) m 0 l1 in
        and_then-Keeps (not (is_negative m), record l0 { log = (map_fd, m) ∷ l0.log })
          (λ l1. and_then (first l1) others) (returns-Keeps _ _ h)
          (λ l1 h1.
            and_then-Keeps (first l1) others
              (instaciate_one-Keeps (new_manager answers) (λ fd l' h'. returns-Keeps _ _ h') m 0 l1
                h1)
              (λ l2 h2.
                and_then-Keeps (instaciate_from answers (to_nat l2.n_cpus - 1) m 1 l2) shut
                  (instaciate_from-Keeps (to_nat l2.n_cpus - 1) m 1 l2 h2) (λ l3 h3. h3)))
