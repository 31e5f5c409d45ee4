-- ===== src/Loader/Main.antt =====
-- `main` of the programs over one ring for each CPU up to the capture loop, the handler of SIGINT,
-- and `main` of the programs over a single ring.
use bpf_ringbuf.Common.{Bool, true, false, if◌then◌else◌}
use bpf_ringbuf.Loader.Int.{ℤ, pos, negsuc, is_zero, negate}
use bpf_ringbuf.Loader.{
  Answers, Loader, ask, tell, set_print, skel_load, skel_attach, skel_destroy, map_fd, close,
  ring_buffer_new, print,
}
use bpf_ringbuf.Loader.Steps.{
  Result, exited, finished, and_then, unless_exited, bump_memlock_rlimit, install_handler,
  initialize_resources, open_skeleton, load_inner_map, set_cpus_number, load_skeleton,
  instaciate_ring_buffers, attach_skeleton, start_capture, clean,
}

-- The process has ended with a code, or it has entered the capture loop.
pub data Outcome : Type 0 where
  exits : ℤ → Loader → Outcome
  captures : Loader → Outcome

module _ (answers : Answers) where
  -- `close(inner_map_fd); inner_map_fd = -1;`
  abbrev pub close_inner_map : Loader → Bool × Loader
  close_inner_map l =
      (true, record (tell answers (close l.inner_map_fd) l) { inner_map_fd = negsuc 0 })

  -- The phases behind `open_skeleton`; when one fails, the rest is left out.
  unfoldable pub set_up : Loader → Bool × Loader
  set_up l = and_then (load_inner_map answers l) (λ l. and_then (set_cpus_number answers l) (λ l.
      and_then (load_skeleton answers l) (λ l.
        and_then (close_inner_map l)
          (λ l. and_then (instaciate_ring_buffers answers l) (attach_skeleton answers)))))

  -- `goto cleanup`, or the start of the capture.
  abbrev pub capture_or_clean : Bool × Loader → Outcome
  capture_or_clean (true, l) = captures (start_capture answers l)
  capture_or_clean (false, l) = exits (pos 1) (clean answers l)

  abbrev pub after_open : Bool × Loader → Outcome
  after_open (true, l) = capture_or_clean (set_up l)
  after_open (false, l) = exits (pos 1) l

  abbrev pub after_initialize : Result → Outcome
  after_initialize (exited code l) = exits code l
  after_initialize (finished (true, l)) = after_open (open_skeleton answers l)
  after_initialize (finished (false, l)) = exits (pos 1) l

  unfoldable pub main : Loader → Outcome
  main l = after_initialize (initialize_resources answers l)

  -- The handler ends the process with 0.
  unfoldable pub signal_callback : Loader → Outcome
  signal_callback l0 =
      let l1 = record l0 { capture_enabled = 0 } in
      let l2 = tell answers (print l1.n_elaborated) (tell answers (print l1.n_drops) l1) in
      exits (pos 0) (clean answers l2)

  -- `cleanup: single_ringbuf_reserve_bpf__destroy(skel); return -err;`
  abbrev pub destroy_and_return : ℤ → Loader → Outcome
  destroy_and_return err l = exits (negate err) (tell answers (skel_destroy l.skel) l)

  -- The attach phase and what follows it.
  abbrev pub single_attach : Loader → Outcome
  single_attach l0 =
      let (err, l) = ask answers (skel_attach l0.skel) l0 in
      if is_zero err then captures (record l { capture_enabled = 1 }) else destroy_and_return err l

  -- `rb` is a local of `main`, kept in `ringbuf`; `err` is still the answer of the load.
  abbrev pub single_ring : ℤ → Loader → Outcome
  single_ring err l0 =
      let (fd, l1) = ask answers map_fd l0 in
      let (rb, l2) = ask answers (ring_buffer_new fd) l1 in
      if is_zero rb then destroy_and_return err l2 else single_attach (record l2 { ringbuf = rb })

  abbrev pub single_load : Bool × Loader → Outcome
  single_load (false, l) = exits (pos 1) l
  single_load (true, l0) =
      let (err, l) = ask answers (skel_load l0.skel) l0 in
      if is_zero err then single_ring err l else destroy_and_return err l

  -- `signal` failed, or the skeleton is opened.
  abbrev pub single_open : Result → Outcome
  single_open (exited code l) = exits code l
  single_open (finished (false, l)) = exits (pos 1) l
  single_open (finished (true, l)) = single_load (open_skeleton answers l)

  unfoldable pub single_main : Loader → Outcome
  single_main l = single_open (
      unless_exited (bump_memlock_rlimit answers (tell answers set_print l))
        (install_handler answers))

  -- The handler of the single programs destroys the skeleton only.
  unfoldable pub single_signal_callback : Loader → Outcome
  single_signal_callback l0 =
      let l1 = record l0 { capture_enabled = 0 } in
      let l2 = tell answers (print l1.n_elaborated) (tell answers (print l1.n_drops) l1) in
      exits (pos 0) (tell answers (skel_destroy l2.skel) l2)
