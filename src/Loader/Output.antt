-- ===== src/Loader/Output.antt =====
-- multi_ringbuf_output/shared_code.h, and `main` of its case1.c up to the capture loop: the loader
-- of the program over `bpf_ringbuf_output`, with its own skeleton. `return false;` ends a do block.
pub mod Monad
pub mod Same
use bpf_ringbuf.Common.{
  ℕ, zero, suc, ◌+◌, ◌-◌, ◌||◌, Bool, true, false, not, some, none, Option, if◌then◌else◌,
}
use bpf_ringbuf.Loader.Int.{ℤ, pos, negsuc, same, is_zero, is_negative, is_below_one, to_nat}
use bpf_ringbuf.Loader.{
  Call, Answers, Loader, ask, tell, set_print, setrlimit, set_signal, skel_open, skel_load,
  skel_attach, skel_destroy, map_create, set_inner_map_fd, map_fd, map_update_elem, close,
  num_possible_cpus, calloc, free, ring_buffer_new, ring_buffer_add, ring_buffer_free, print,
}
use bpf_ringbuf.Loader.Main.{Outcome, exits, captures}
use bpf_ringbuf.Loader.Output.Monad.{M, pure, ◌>>=◌, ◌>>◌, get, modify, require}

module _ (answers : Answers) where
  abbrev pub call : Call → M ℤ
  call c l = let (a, l') = ask answers c l in (some a, l')

  abbrev pub call_void : Call → M (Unit {0})
  call_void c l = (some tt, tell answers c l)

  -- `none` is `exit(1)` here.
  unfoldable pub bump_memlock_rlimit : M (Unit {0})
  bump_memlock_rlimit = do err ← call setrlimit; require (is_zero err)

  unfoldable pub allocate_consumer_producer : ℤ → M (Unit {0})
  allocate_consumer_producer ncpus = do
    p ← call (calloc ncpus)
    modify (λ l. record l { cons_pos = p })
    q ← call (calloc ncpus)
    modify (λ l. record l { prod_pos = q })
    require (not (is_zero p || is_zero q))

  -- `if(!p) free(p);`
  abbrev pub free_null : ℤ → Loader → Loader
  free_null p l = if is_zero p then tell answers (free p) l else l

  unfoldable pub free_consumer_producer : Loader → Loader
  free_consumer_producer l0 = let l = free_null l0.cons_pos l0 in free_null l.prod_pos l

  unfoldable pub set_cpus_number : M (Unit {0})
  set_cpus_number = do
    n ← call num_possible_cpus
    modify (λ l. record l { n_cpus = n })
    require (not (is_below_one n))
    allocate_consumer_producer n
    modify (λ l. record l { rodata_n_cpus = n })

  unfoldable pub clean : Loader → Loader
  clean l0 =
      let l1 = free_consumer_producer l0 in
      let l2 = tell answers (ring_buffer_free l1.ringbuf) l1 in
      tell answers (skel_destroy l2.skel) l2

  unfoldable pub signal_callback : Loader → Outcome
  signal_callback l0 =
      let l1 = record l0 { capture_enabled = 0 } in
      let l2 = tell answers (print l1.n_drops) l1 in
      let l3 = tell answers (print l2.n_elaborated) l2 in exits (pos 0) (clean l3)

  -- Both `exit(1)` and `return false;` end the process with 1 in the end.
  unfoldable pub initialize_resources : M (Unit {0})
  initialize_resources = do
    call_void set_print
    bump_memlock_rlimit
    old ← call set_signal
    require (not (same old (negsuc 0)))

  unfoldable pub open_skeleton : M (Unit {0})
  open_skeleton = do
    p ← call skel_open
    modify (λ l. record l { skel = p })
    require (not (is_zero p))

  unfoldable pub load_inner_map : M (Unit {0})
  load_inner_map = do
    fd ← call map_create
    modify (λ l. record l { inner_map_fd = fd })
    require (not (is_negative fd))
    err ← call (set_inner_map_fd fd)
    require (is_zero err)

  unfoldable pub load_skeleton : M (Unit {0})
  load_skeleton = do l ← get; err ← call (skel_load l.skel); require (is_zero err)

  -- The loop over the CPUs behind the first, with the iterations that are left.
  unfoldable pub instaciate_from : ℕ → ℤ → ℕ → M (Unit {0})
  instaciate_from zero outer_map_fd i = pure tt
  instaciate_from (suc left) outer_map_fd i = do
    fd ← call map_create
    require (not (is_negative fd))
    err ← call (map_update_elem outer_map_fd i fd)
    require (is_zero err)
    l ← get
    err' ← call (ring_buffer_add l.ringbuf fd)
    require (is_zero err')
    call_void (close fd)
    instaciate_from left outer_map_fd (i + 1)

  unfoldable pub instaciate_ring_buffers : M (Unit {0})
  instaciate_ring_buffers = do
    outer_map_fd ← call map_fd
    require (not (is_negative outer_map_fd))
    fd ← call map_create
    require (not (is_negative fd))
    err ← call (map_update_elem outer_map_fd 0 fd)
    require (is_zero err)
    rb ← call (ring_buffer_new fd)
    modify (λ l. record l { ringbuf = rb })
    require (not (is_zero rb))
    call_void (close fd)
    l ← get
    instaciate_from (to_nat l.n_cpus - 1) outer_map_fd 1
    call_void (close outer_map_fd)

  unfoldable pub attach_skeleton : M (Unit {0})
  attach_skeleton = do l ← get; err ← call (skel_attach l.skel); require (is_zero err)

  unfoldable pub start_capture : Loader → Loader
  start_capture l = record l { capture_enabled = 1 }

  -- The phases of `main` behind the open phase.
  unfoldable pub set_up : M (Unit {0})
  set_up = do
    load_inner_map
    set_cpus_number
    load_skeleton
    l ← get
    call_void (close l.inner_map_fd)
    modify (λ l. record l { inner_map_fd = negsuc 0 })
    instaciate_ring_buffers
    attach_skeleton

  -- `goto cleanup`, or the start of the capture.
  abbrev pub capture_or_clean : Option (Unit {0}) × Loader → Outcome
  capture_or_clean (some _, l) = captures (start_capture l)
  capture_or_clean (none, l) = exits (pos 1) (clean l)

  -- `return EXIT_FAILURE;` before there is anything to clean up.
  abbrev pub set_up_or_return : Option (Unit {0}) × Loader → Outcome
  set_up_or_return (some _, l) = capture_or_clean (set_up l)
  set_up_or_return (none, l) = exits (pos 1) l

  unfoldable pub main : Loader → Outcome
  main l = set_up_or_return ((do initialize_resources; open_skeleton) l)
