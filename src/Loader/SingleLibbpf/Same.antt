-- ===== src/Loader/SingleLibbpf/Same.antt =====
-- The set-up and the handler of single_ringbuf_reserve/case2.c beside those of case1.c.
use bpf_ringbuf.Common.{◌≡◌, refl, ◌∷◌, inl, inr, Bool-cases}
use bpf_ringbuf.Loader.Int.{negsuc, same, is_zero}
use bpf_ringbuf.Loader.{
  Answers, Loader, set_print, setrlimit, set_signal, skel_open, skel_load, skel_attach, map_fd,
  ring_buffer_new,
}
use bpf_ringbuf.Loader.Steps
use bpf_ringbuf.Loader.Main
use bpf_ringbuf.Loader.SingleLibbpf

module _ (answers : Answers) where
  main-same : (l : Loader) → SingleLibbpf.main answers l ≡ Main.single_main answers l
  unfolding SingleLibbpf.main SingleLibbpf.set_up SingleLibbpf.bump_memlock_rlimit Main.single_main
      Steps.bump_memlock_rlimit Steps.open_skeleton
  main-same l0 =
      let log0 = (set_print, answers l0.log set_print) ∷ l0.log in
      let lim = answers log0 setrlimit in
      let log1 = (setrlimit, lim) ∷ log0 in
      let old = answers log1 set_signal in
      let log2 = (set_signal, old) ∷ log1 in
      let skel = answers log2 skel_open in
      let log3 = (skel_open, skel) ∷ log2 in
      let err = answers log3 (skel_load skel) in
      let log4 = (skel_load skel, err) ∷ log3 in
      let fd = answers log4 map_fd in
      let log5 = (map_fd, fd) ∷ log4 in
      let rb = answers log5 (ring_buffer_new fd) in
      let log6 = (ring_buffer_new fd, rb) ∷ log5 in
      let err' = answers log6 (skel_attach skel) in
      elim (Bool-cases (is_zero lim)) [
        | inr e ↦ rw e refl
        | inl e ↦ rw e (elim (Bool-cases (same old (negsuc 0))) [
          | inl e ↦ rw e refl
          | inr e ↦ rw e (elim (Bool-cases (is_zero skel)) [
            | inl e ↦ rw e refl
            | inr e ↦ rw e (elim (Bool-cases (is_zero err)) [
              | inr e ↦ rw e refl
              | inl e ↦ rw e (elim (Bool-cases (is_zero rb)) [
                | inl e ↦ rw e refl
                | inr e ↦
                    rw e
                      (elim (Bool-cases (is_zero err')) [ inl e ↦ rw e refl | inr e ↦ rw e refl ])
              ])
            ])
          ])
        ])
      ]

  -- `main` of single_ringbuf_reserve/case2.c and `main` of its case1.c make the same calls, test the
  -- same answers, and return the same code or start the capture in the same state; so do the
  -- handlers of SIGINT of the two.
  pub single-same :
      (l : Loader)
      → (SingleLibbpf.main answers l ≡ Main.single_main answers l)
        × (SingleLibbpf.signal_callback answers l ≡ Main.single_signal_callback answers l)
  unfolding SingleLibbpf.signal_callback Main.single_signal_callback
  single-same l = (main-same l, refl)
