-- ===== src/Loader/Steps.antt =====
-- The functions of shared_code.h that `main` calls one after another. Each returns a bool.
use bpf_ringbuf.Common.{ℕ, zero, suc, ◌+◌, ◌-◌, ◌||◌, Bool, true, false, not, if◌then◌else◌}
use bpf_ringbuf.Loader.Int.{ℤ, pos, negsuc, same, is_zero, is_negative, is_below_one, to_nat}
use bpf_ringbuf.Loader.{
  Answers, Loader, ask, tell, set_print, setrlimit, set_signal, skel_open, skel_load, skel_attach,
  skel_destroy, map_create, set_inner_map_fd, map_fd, map_update_elem, close, num_possible_cpus,
  calloc, free, ring_buffer_new, ring_buffer_add, ring_buffer_free,
}

-- `if(!f()) return false;`, and on.
abbrev pub and_then : Bool × Loader → (Loader → Bool × Loader) → Bool × Loader
and_then (true, l) next = next l
and_then (false, l) next = (false, l)

-- A function ends with a bool, or the process ends with `exit`.
pub data Result : Type 0 where
  exited : ℤ → Loader → Result
  finished : Bool × Loader → Result

-- What comes after `bump_memlock_rlimit`, which returns nothing.
abbrev pub unless_exited : Result → (Loader → Bool × Loader) → Result
unless_exited (exited code l) next = exited code l
unless_exited (finished (ok, l)) next = finished (next l)

-- A step whose call fails with an answer other than 0.
abbrev pub succeeds : ℤ × Loader → Bool × Loader
succeeds (err, l) = (is_zero err, l)

module _ (answers : Answers) where
  -- `calloc` of both arrays, and then the tests.
  unfoldable pub allocate_consumer_producer : ℤ → Loader → Bool × Loader
  allocate_consumer_producer ncpus l0 =
      let (p, l1) = ask answers (calloc ncpus) l0 in
      let (q, l2) = ask answers (calloc ncpus) (record l1 { cons_pos = p }) in
      (not (is_zero p || is_zero q), record l2 { prod_pos = q })

  -- `if(!p) free(p);`
  abbrev pub free_if_null : ℤ → Loader → Loader
  free_if_null p l = record l { log = if is_zero p then (tell answers (free p) l).log else l.log }

  unfoldable pub free_consumer_producer : Loader → Loader
  free_consumer_producer l = free_if_null l.prod_pos (free_if_null l.cons_pos l)

  unfoldable pub set_cpus_number : Loader → Bool × Loader
  set_cpus_number l0 =
      let (n, l1) = ask answers num_possible_cpus l0 in
      let l = record l1 { n_cpus = n } in
      if is_below_one n
      then (false, l)
      else and_then (allocate_consumer_producer n l) (λ l'. (true, record l' { rodata_n_cpus = n }))

  unfoldable pub clean : Loader → Loader
  clean l0 =
      let l = free_consumer_producer l0 in
      let l' = tell answers (ring_buffer_free l.ringbuf) l in tell answers (skel_destroy l'.skel) l'

  -- `if(setrlimit(...)) exit(1);`
  unfoldable pub bump_memlock_rlimit : Loader → Result
  bump_memlock_rlimit l0 =
      let (err, l) = ask answers setrlimit l0 in
      if is_zero err then finished (true, l) else exited (pos 1) l

  -- `signal(SIGINT, signal_callback) == SIG_ERR`; SIG_ERR is -1.
  abbrev pub install_handler : Loader → Bool × Loader
  install_handler l = let (old, l') = ask answers set_signal l in (not (same old (negsuc 0)), l')

  unfoldable pub initialize_resources : Loader → Result
  initialize_resources l =
      unless_exited (bump_memlock_rlimit (tell answers set_print l)) install_handler

  unfoldable pub open_skeleton : Loader → Bool × Loader
  open_skeleton l =
      let (p, l') = ask answers skel_open l in (not (is_zero p), record l' { skel = p })

  unfoldable pub load_inner_map : Loader → Bool × Loader
  load_inner_map l0 =
      let (fd, l1) = ask answers map_create l0 in
      let l = record l1 { inner_map_fd = fd } in
      and_then (not (is_negative fd), l) (λ l. succeeds (ask answers (set_inner_map_fd fd) l))

  unfoldable pub load_skeleton : Loader → Bool × Loader
  load_skeleton l = succeeds (ask answers (skel_load l.skel) l)

  -- `ring_buffer__new` for the first ring, which sets `ringbuf`, and `ring_buffer__add` for the
  -- others.
  abbrev pub new_manager : ℤ → Loader → Bool × Loader
  new_manager fd l =
      let (p, l') = ask answers (ring_buffer_new fd) l in
      (not (is_zero p), record l' { ringbuf = p })

  abbrev pub add_to_manager : ℤ → Loader → Bool × Loader
  add_to_manager fd l = succeeds (ask answers (ring_buffer_add l.ringbuf fd) l)

  -- The ring buffer of one CPU: created, put into the outer map, given to the manager, and closed.
  unfoldable pub instaciate_one : (ℤ → Loader → Bool × Loader) → ℤ → ℕ → Loader → Bool × Loader
  instaciate_one manage outer_map_fd i l0 =
      let (fd, l1) = ask answers map_create l0 in
      and_then (not (is_negative fd), l1)
        (λ l1.
          and_then (succeeds (ask answers (map_update_elem outer_map_fd i fd) l1))
            (λ l2. and_then (manage fd l2) (λ l3. (true, tell answers (close fd) l3))))

  -- `for(i = 1; i < n_cpus; i++)`, with the iterations that are left.
  unfoldable pub instaciate_from : ℕ → ℤ → ℕ → Loader → Bool × Loader
  instaciate_from zero outer_map_fd i l = (true, l)
  instaciate_from (suc left) outer_map_fd i l =
      and_then (instaciate_one add_to_manager outer_map_fd i l)
        (instaciate_from left outer_map_fd (i + 1))

  unfoldable pub instaciate_ring_buffers : Loader → Bool × Loader
  instaciate_ring_buffers l0 =
      let (outer_map_fd, l1) = ask answers map_fd l0 in
      and_then (not (is_negative outer_map_fd), l1)
        (λ l1. and_then (instaciate_one new_manager outer_map_fd 0 l1) (λ l2.
          and_then (instaciate_from (to_nat l2.n_cpus - 1) outer_map_fd 1 l2)
            (λ l3. (true, tell answers (close outer_map_fd) l3))))

  unfoldable pub attach_skeleton : Loader → Bool × Loader
  attach_skeleton l = succeeds (ask answers (skel_attach l.skel) l)

  unfoldable pub start_capture : Loader → Loader
  start_capture l = record l { capture_enabled = 1 }
