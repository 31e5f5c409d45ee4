-- ===== src/Loader/Output/Same.antt =====
-- multi_ringbuf_output/shared_code.h and case1.c beside multi_ringbuf_reserve/shared_code.h and
-- case2.c, function by function.
use bpf_ringbuf.Common.{
  ℕ, zero, suc, ◌+◌, ◌-◌, ◌≡◌, refl, ◌∷◌, ap, ◌∙◌, Bool, true, false, not, some, none, Option, inl,
  inr, Bool-cases,
}
use bpf_ringbuf.Loader.Int.{ℤ, pos, negsuc, same, is_zero, is_negative, is_below_one, to_nat}
use bpf_ringbuf.Loader.{
  Answers, Loader, tell, set_print, setrlimit, set_signal, map_create, map_update_elem,
  ring_buffer_new, ring_buffer_add, close, num_possible_cpus, map_fd,
}
use bpf_ringbuf.Loader.Steps
use bpf_ringbuf.Loader.Steps.{
  Result, exited, finished, and_then, new_manager, add_to_manager, install_handler,
}
use bpf_ringbuf.Loader.Main
use bpf_ringbuf.Loader.Main.{Outcome, exits, captures, capture_or_clean}
use bpf_ringbuf.Loader.Output.Monad.{M, continue, ◌>>=◌, ◌>>◌, require, modify, get}
use bpf_ringbuf.Loader.Output
use bpf_ringbuf.Loader.Output.{call_void}

-- The bool that a do block returns.
abbrev erase : Option (Unit {0}) × Loader → Bool × Loader
erase (some u, l) = (true, l)
erase (none, l) = (false, l)

erase-require : (b : Bool) (l : Loader) → erase (require b l) ≡ (b, l)
erase-require true l = refl
erase-require false l = refl

module _ (next : M (Unit {0})) (next' : Loader → Bool × Loader) where
  erase-continue :
      (r : Option (Unit {0}) × Loader)
      → ((l : Loader) → erase (next l) ≡ next' l)
      → erase (continue (λ _. next) r) ≡ and_then (erase r) next'
  erase-continue (some u, l) h = h l
  erase-continue (none, l) h = refl

  -- A test, and what follows it.
  erase-test :
      (b : Bool) (l : Loader)
      → erase (next l) ≡ next' l
      → erase (continue (λ _. next) (require b l)) ≡ and_then (b, l) next'
  erase-test true l h = h
  erase-test false l h = refl

-- A function that agrees with its counterpart, and what follows it.
erase-after :
    (m : M (Unit {0})) (m' : Loader → Bool × Loader) (next : M (Unit {0}))
    (next' : Loader → Bool × Loader) (l : Loader)
    → erase (m l) ≡ m' l
    → ((l' : Loader) → erase (next l') ≡ next' l')
    → erase ((m >> next) l) ≡ and_then (m' l) next'
erase-after m m' next next' l e h = erase-continue next next' (m l) h ∙ ap (λ r. and_then r next') e

module _ (answers : Answers) where
  open_skeleton-same :
      (l : Loader) → erase (Output.open_skeleton answers l) ≡ Steps.open_skeleton answers l
  unfolding Output.open_skeleton Steps.open_skeleton
  open_skeleton-same l = erase-require _ _

  load_skeleton-same :
      (l : Loader) → erase (Output.load_skeleton answers l) ≡ Steps.load_skeleton answers l
  unfolding Output.load_skeleton Steps.load_skeleton
  load_skeleton-same l = erase-require _ _

  attach_skeleton-same :
      (l : Loader) → erase (Output.attach_skeleton answers l) ≡ Steps.attach_skeleton answers l
  unfolding Output.attach_skeleton Steps.attach_skeleton
  attach_skeleton-same l = erase-require _ _

  allocate-same :
      (n : ℤ) (l : Loader)
      → erase (Output.allocate_consumer_producer answers n l)
        ≡ Steps.allocate_consumer_producer answers n l
  unfolding Output.allocate_consumer_producer Steps.allocate_consumer_producer
  allocate-same n l = erase-require _ _

  load_inner_map-same :
      (l : Loader) → erase (Output.load_inner_map answers l) ≡ Steps.load_inner_map answers l
  unfolding Output.load_inner_map Steps.load_inner_map
  load_inner_map-same l0 =
      let fd = answers l0.log map_create in
      erase-test _ _ (not (is_negative fd)) _ (erase-require _ _)

  set_cpus_number-same :
      (l : Loader) → erase (Output.set_cpus_number answers l) ≡ Steps.set_cpus_number answers l
  unfolding Output.set_cpus_number Steps.set_cpus_number
  set_cpus_number-same l0 =
      let n = answers l0.log num_possible_cpus in
      elim (Bool-cases (is_below_one n)) [
        | inl e ↦ rw e refl
        | inr e ↦ rw e (
            erase-continue (modify (λ l'. record l' { rodata_n_cpus = n })) _ _ (λ l'. refl)
            ∙ ap (λ r. and_then r (λ l'. (true, record l' { rodata_n_cpus = n })))
                (allocate-same n _))
      ]

  free_null-same :
      (p : ℤ) (l : Loader) → Output.free_null answers p l ≡ Steps.free_if_null answers p l
  free_null-same p l = elim (Bool-cases (is_zero p)) [ inl e ↦ rw e refl | inr e ↦ rw e refl ]

  free_consumer_producer-same :
      (l : Loader)
      → Output.free_consumer_producer answers l ≡ Steps.free_consumer_producer answers l
  unfolding Output.free_consumer_producer Steps.free_consumer_producer
  free_consumer_producer-same l =
      ap (λ l'. Output.free_null answers l'.prod_pos l') (free_null-same l.cons_pos l)
      ∙ free_null-same l.prod_pos (Steps.free_if_null answers l.cons_pos l)

  clean-same : (l : Loader) → Output.clean answers l ≡ Steps.clean answers l
  unfolding Output.clean Steps.clean
  clean-same l = rw (free_consumer_producer-same l) refl

  -- The ring buffer of one more CPU, and those of the rest.
  instaciate_from-same :
      (left : ℕ) (m : ℤ) (i : ℕ) (l : Loader)
      → erase (Output.instaciate_from answers left m i l) ≡ Steps.instaciate_from answers left m i l
  unfolding Output.instaciate_from Steps.instaciate_from Steps.instaciate_one
  instaciate_from-same zero m i l = refl
  instaciate_from-same (suc left) m i l0 =
      let fd = answers l0.log map_create in
      let log1 = (map_create, fd) ∷ l0.log in
      let err = answers log1 (map_update_elem m i fd) in
      let log2 = (map_update_elem m i fd, err) ∷ log1 in
      let err' = answers log2 (ring_buffer_add l0.ringbuf fd) in
      elim (Bool-cases (not (is_negative fd))) [
        | inr e ↦ rw e refl
        | inl e ↦ rw e (elim (Bool-cases (is_zero err)) [
          | inr e' ↦ rw e' refl
          | inl e' ↦ rw e' (elim (Bool-cases (is_zero err')) [
            | inr e'' ↦ rw e'' refl
            | inl e'' ↦ rw e'' (instaciate_from-same left m (i + 1) _)
          ])
        ])
      ]

  instaciate_ring_buffers-same :
      (l : Loader)
      → erase (Output.instaciate_ring_buffers answers l) ≡ Steps.instaciate_ring_buffers answers l
  unfolding Output.instaciate_ring_buffers Steps.instaciate_ring_buffers Steps.instaciate_one
  instaciate_ring_buffers-same l0 =
      let m = answers l0.log map_fd in
      let log0 = (map_fd, m) ∷ l0.log in
      let fd = answers log0 map_create in
      let log1 = (map_create, fd) ∷ log0 in
      let err = answers log1 (map_update_elem m 0 fd) in
      let log2 = (map_update_elem m 0 fd, err) ∷ log1 in
      let rb = answers log2 (ring_buffer_new fd) in
      let log3 = (ring_buffer_new fd, rb) ∷ log2 in
      let l3 = record l0 { ringbuf = rb; log = (close fd, answers log3 (close fd)) ∷ log3 } in
      elim (Bool-cases (not (is_negative m))) [
        | inr e ↦ rw e refl
        | inl e ↦ rw e (elim (Bool-cases (not (is_negative fd))) [
          | inr e' ↦ rw e' refl
          | inl e' ↦ rw e' (elim (Bool-cases (is_zero err)) [
            | inr e'' ↦ rw e'' refl
            | inl e'' ↦ rw e'' (elim (Bool-cases (not (is_zero rb))) [
              | inr z ↦ rw z refl
              | inl z ↦ rw z (
                  erase-continue (call_void answers (close m))
                    (λ l. (true, tell answers (close m) l)) _ (λ l. refl)
                  ∙ ap (λ r. and_then r (λ l. (true, tell answers (close m) l)))
                      (instaciate_from-same (to_nat l3.n_cpus - 1) m 1 l3))
            ])
          ])
        ])
      ]

  set_up-same : (l : Loader) → erase (Output.set_up answers l) ≡ Main.set_up answers l
  unfolding Output.set_up Main.set_up
  set_up-same l =
      let fill : M (Unit {0}) = do
        Output.instaciate_ring_buffers answers
        Output.attach_skeleton answers
      in let shut : M (Unit {0}) = do
        l ← get
        call_void answers (close l.inner_map_fd)
        modify (λ l. record l { inner_map_fd = negsuc 0 })
        fill
        in let load : M (Unit {0}) = Output.load_skeleton answers >> shut in
          let count : M (Unit {0}) = Output.set_cpus_number answers >> load in
          erase-after (Output.load_inner_map answers) (Steps.load_inner_map answers) count _ l
            (load_inner_map-same l)
            (λ l1.
              erase-after (Output.set_cpus_number answers) (Steps.set_cpus_number answers) load _ l1
                (set_cpus_number-same l1)
                (λ l2.
                  erase-after (Output.load_skeleton answers) (Steps.load_skeleton answers) shut _ l2
                    (load_skeleton-same l2)
                    (λ l3.
                      erase-after (Output.instaciate_ring_buffers answers)
                        (Steps.instaciate_ring_buffers answers) (Output.attach_skeleton answers) _ _
                        (instaciate_ring_buffers-same _) attach_skeleton-same)))

  capture_or_clean-same :
      (r : Option (Unit {0}) × Loader)
      → Output.capture_or_clean answers r ≡ Main.capture_or_clean answers (erase r)
  unfolding Output.start_capture Steps.start_capture
  capture_or_clean-same (some u, l) = refl
  capture_or_clean-same (none, l) = ap (exits (pos 1)) (clean-same l)

  set_up_or_return-same :
      (r : Option (Unit {0}) × Loader)
      → Output.set_up_or_return answers r ≡ Main.after_open answers (erase r)
  set_up_or_return-same (some u, l) =
      capture_or_clean-same (Output.set_up answers l)
      ∙ ap (Main.capture_or_clean answers) (set_up-same l)
  set_up_or_return-same (none, l) = refl

  -- `main` of multi_ringbuf_output/case1.c and `main` of multi_ringbuf_reserve/case2.c make the same
  -- calls, test the same answers, and end or start the capture in the same state; so do the handlers
  -- of SIGINT of the two.
  pub output-same :
      (l : Loader)
      → (Output.main answers l ≡ Main.main answers l)
        × (Output.signal_callback answers l ≡ Main.signal_callback answers l)
  unfolding Output.main Main.main Output.initialize_resources Steps.initialize_resources
      Output.bump_memlock_rlimit Steps.bump_memlock_rlimit Output.signal_callback
      Main.signal_callback
  output-same l0 = (start, ap (exits (pos 0)) (clean-same _))
    where
      start : Output.main answers l0 ≡ Main.main answers l0
      start =
          let log0 = (set_print, answers l0.log set_print) ∷ l0.log in
          let err = answers log0 setrlimit in
          let log1 = (setrlimit, err) ∷ log0 in
          let old = answers log1 set_signal in
          elim (Bool-cases (is_zero err)) [
            | inr e ↦ rw e refl
            | inl e ↦ rw e (elim (Bool-cases (same old (negsuc 0))) [
              | inl e' ↦ rw e' refl
              | inr e' ↦ rw e' (
                  set_up_or_return-same (Output.open_skeleton answers _)
                  ∙ ap (Main.after_open answers) (open_skeleton-same _))
            ])
          ]
