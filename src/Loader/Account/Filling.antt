-- ===== src/Loader/Account/Filling.antt =====
-- `instaciate_ring_buffers`: each ring buffer goes into the outer map and to the manager under the
-- same number, and its descriptor is closed.
use bpf_ringbuf.Common.{
  false, ◌≤◌, leb, Bool-cases, inl, inr, ℕ, zero, suc, ◌+◌, ◌-◌, ◌<◌, Bool, true, not, List, [],
  ◌∷◌, ◌≡◌, refl, length, append-nil, arith, sym, ◌∙◌,
}
use bpf_ringbuf.Loader.Int.{ℤ, pos, is_zero, is_negative, to_nat, same_refl}
use bpf_ringbuf.Loader.{
  Loader, Answers, map_create, map_fd, map_update_elem, ring_buffer_new, ring_buffer_add,
  skel_attach,
}
use bpf_ringbuf.Loader.Steps.{
  new_manager, add_to_manager, instaciate_one, instaciate_from, instaciate_ring_buffers,
  attach_skeleton,
}
use bpf_ringbuf.Loader.Account.{account, number}
use bpf_ringbuf.Loader.Account.Ends.{Ends, Ends-split, and_then-Ends, and_then-Ends-split}
use bpf_ringbuf.Loader.Account.Stage.{
  fitting, Idle, At, Failed, NoRings, Counted, Loaded, WithRings, SetUp, Limited,
}

-- The ring buffer `fd` is in the outer map, and not yet with the manager.
abbrev Ahead : ℤ → ℤ → List ℤ → Loader → Type 0
Ahead n fd managed l =
    (account l.log ≡ fitting true (fd ∷ []) managed ((length managed, fd) ∷ number managed) l)
    × Idle l
    × Counted n l

-- The manager has it too.
abbrev Added : ℤ → ℤ → List ℤ → Loader → Type 0
Added n fd managed l = At (fd ∷ []) (fd ∷ managed) l × Counted n l

-- The first ring and the rings of the loop are all.
one_more : (n a b : ℤ) → a ≡ n → b ≡ n → 0 < to_nat n → (1 + (to_nat a - 1)) ≡ to_nat b
one_more n a b p q lt = rw p (rw q (omega arith))

one_later : (i left : ℕ) → (i + suc left) ≡ ((i + 1) + left)
one_later i left = omega arith

-- A key that was accepted is below the limit.
room_lem :
    (limit i : ℕ) (accepted : Bool)
    → accepted ≡ true
    → (limit ≤ i → accepted ≡ false)
    → i + 1 ≤ limit
room_lem limit i accepted t f = elim (Bool-cases (leb limit i)) [
  | inl e ↦ absurd (true-ne-false (sym t ∙ f (ground arith)))
  | inr e ↦ ground arith
]
  where
    true-ne-false : true ≡ false → ⊥
    true-ne-false e = cc

module _ (answers : Answers) (n : ℤ) where
  new_manager-Ends :
      (fd : ℤ) (l : Loader)
      → Ahead n fd [] l
      → NoRings l
      → Ends (Added n fd []) Failed (new_manager answers fd l)
  new_manager-Ends fd l (h, on, c) nr =
      Ends-split (Added n fd []) Failed (not (is_zero (answers l.log (ring_buffer_new fd)))) _
        (λ e. ((rw h (rw e (rw nr (rw append-nil refl))), on), c))
        (λ e. (rw h (rw e refl), rw h refl, rw h (rw nr (rw append-nil refl)), on))

  add_to_manager-Ends :
      (fd : ℤ) (managed : List ℤ) (l : Loader)
      → Ahead n fd managed l
      → Ends (Added n fd managed) Failed (add_to_manager answers fd l)
  add_to_manager-Ends fd managed l (h, on, c) =
      Ends-split (Added n fd managed) Failed
        (is_zero (answers l.log (ring_buffer_add l.ringbuf fd))) _
        (λ e. ((rw h (rw e refl), on), c)) (λ e. (rw h (rw e refl), rw h refl, rw h refl, on))

  -- One ring buffer more, whatever way it is given to the manager; `Null` is what that needs of
  -- `ringbuf`.
  module _ (manage : ℤ → Loader → Bool × Loader) (managed : List ℤ) (Null : ℤ → Type 0)
      (manage-Ends : (fd : ℤ) (l : Loader)
        → Ahead n fd managed l
        → Null l.ringbuf
        → Ends (Added n fd managed) Failed (manage fd l)) where
    instaciate_one-Ends :
        (m : ℤ) (l : Loader)
        → At [] managed l
        → Counted n l
        → Null l.ringbuf
        → Ends
            (WithRings answers n (length managed + 1))
            Failed
            (instaciate_one answers manage m (length managed) l)
    unfolding instaciate_one
    instaciate_one-Ends m l0 (h, on) c np =
        let fd = answers l0.log map_create in
        let l1 = record l0 { log = (map_create, fd) ∷ l0.log } in
        let update = map_update_elem m (length managed) fd in
        let err = answers l1.log update in
        let l2 = record l1 { log = (update, err) ∷ l1.log } in
        let Good = WithRings answers n (length managed + 1) in
        and_then-Ends-split Good Failed (not (is_negative fd)) l1 _
          (λ e.
            and_then-Ends-split Good Failed (is_zero err) l2 _
              (λ e'.
                let room = λ (limit : ℕ) (lim : Limited limit answers).
                  room_lem limit (length managed) (is_zero err) e'
                    (lim l1.log m (length managed) fd) in
                and_then-Ends Good Failed (Added n fd managed) (manage fd l2) _
                  (manage-Ends fd l2 (rw h (rw e (rw e' refl)), on, c) np)
                  (λ l3 ((h', on'), c').
                    (fd ∷ managed, (rw h' (rw (same_refl fd) refl), on'), omega arith, c', room)))
              (λ e'. (rw h (rw e' refl), rw h refl, rw h refl, on)))
          (λ e. (rw h (rw e refl), rw h refl, rw h refl, on))

  instaciate_from-Ends :
      (left : ℕ) (m : ℤ) (i : ℕ) (l : Loader)
      → WithRings answers n i l
      → Ends (WithRings answers n (i + left)) Failed (instaciate_from answers left m i l)
  unfolding instaciate_from
  instaciate_from-Ends zero m i l (managed, h, k, c, room) =
      (managed, h, rw k (omega arith), c, λ limit lim. let r = room limit lim in omega arith)
  instaciate_from-Ends (suc left) m i l (managed, h, k, c, room) =
      and_then-Ends (WithRings answers n (i + suc left)) Failed (WithRings answers n (i + 1))
        (instaciate_one answers (add_to_manager answers) m i l)
        (instaciate_from answers left m (i + 1))
        (rw (sym k) (
          instaciate_one-Ends (add_to_manager answers) managed (λ p. Unit)
            (λ fd l' a u. add_to_manager-Ends fd managed l' a) m l h c tt))
        (λ l' w. rw (one_later i left) (instaciate_from-Ends left m (i + 1) l' w))

module _ (answers : Answers) where
  pub instaciate_ring_buffers-Ends :
      (l : Loader) → Loaded l → Ends (SetUp answers) Failed (instaciate_ring_buffers answers l)
  unfolding instaciate_ring_buffers
  instaciate_ring_buffers-Ends l0 ((h, on), nr, c) =
      let n = l0.n_cpus in
      let m = answers l0.log map_fd in
      let l1 = record l0 { log = (map_fd, m) ∷ l0.log } in
      and_then-Ends-split (SetUp answers) Failed (not (is_negative m)) l1 _
        (λ e.
          and_then-Ends (SetUp answers) Failed (WithRings answers n 1) _ _
            (instaciate_one-Ends answers n (new_manager answers) [] (λ p. p ≡ pos 0)
              (new_manager-Ends answers n) m l1 (rw h (rw e refl), on) c nr)
            (λ l2 (r2, h2, k2, c2, room2).
              and_then-Ends (SetUp answers) Failed
                (WithRings answers n (1 + (to_nat l2.n_cpus - 1))) _ _
                (instaciate_from-Ends answers n (to_nat l2.n_cpus - 1) m 1 l2
                  (r2, h2, k2, c2, room2))
                (λ l3 (r3, (h3, on3), k3, (cn, cr, lt), room3).
                  let all = one_more n l2.n_cpus l3.n_cpus c2.0 cn lt in
                  (
                    r3,
                    (rw h3 refl, on3),
                    k3 ∙ all,
                    (refl, cr ∙ sym cn, rw cn lt),
                    λ limit lim. let r = room3 limit lim in omega arith,
                  ))))
        (λ e. (rw h (rw e refl), rw h refl, rw h refl, on))

  pub attach_skeleton-Ends :
      (l : Loader) → SetUp answers l → Ends (SetUp answers) Failed (attach_skeleton answers l)
  unfolding attach_skeleton
  attach_skeleton-Ends l (managed, (h, on), k, c, room) =
      Ends-split (SetUp answers) Failed (is_zero (answers l.log (skel_attach l.skel))) _
        (λ e. (managed, (rw h (rw e refl), on), k, c, room))
        (λ e. (rw h (rw e refl), rw h refl, rw h refl, on))
