-- ===== src/Loader/Outcome.antt =====
-- What the programs over one ring for each CPU have reached, released and left behind when they
-- capture, when they end with a failure, and when SIGINT ends them.
use bpf_ringbuf.Common.{ℕ, true, false, [], ◌++◌, ◌≡◌, refl, ap, ◌∙◌, length, ◌<◌}
use mathlib.Core.Path.{subst}
use bpf_ringbuf.Loader.Int.{ℤ, pos, to_nat}
use bpf_ringbuf.Loader.{Loader, Answers, initial, tell, print}
use bpf_ringbuf.Loader.Main.{Outcome, exits, captures, main, signal_callback}
use bpf_ringbuf.Loader.Account.{account, present, number}
use bpf_ringbuf.Loader.Account.Laws.{
  Captured, OnOutcome, main-OnOutcome, clean-account, drop_present, clean-capture_enabled,
}

module _ (answers : Answers) (l : Loader) where
  captured : main answers initial ≡ captures l → Captured answers l
  captured e = subst (OnOutcome answers) e (main-OnOutcome answers)

  -- When main captures, the manager has as many rings as there are CPUs, at least one, ring number i
  -- reads the ring buffer that the outer map has under key i, the BPF program knows the same number of
  -- CPUs, and the capture is on.
  pub main-rings :
      main answers initial ≡ captures l
      → ((account l.log).entries ≡ number (account l.log).managed)
        × (length (account l.log).managed ≡ to_nat l.n_cpus)
        × (0 < to_nat l.n_cpus)
        × (l.rodata_n_cpus ≡ l.n_cpus)
        × (l.capture_enabled ≡ 1)
  main-rings e =
      let (managed, h, k, (cn, cr, lt), on, none_read, room) = captured e in
      (rw h refl, rw h k, lt, cr, on)

  -- main captures only when no call has failed, and by then it has closed the descriptor of every ring
  -- buffer that it created.
  pub main-fds :
      main answers initial ≡ captures l → ((account l.log).ok ≡ true) × ((account l.log).fds ≡ [])
  main-fds e = let (managed, h, k, c, on, none_read, room) = captured e in (rw h refl, rw h refl)

  -- main ends only with EXIT_FAILURE, only after a call that failed, and with the skeleton and the ring
  -- manager released; the capture was never on.
  pub main-exits :
      (code : ℤ)
      → main answers initial ≡ exits code l
      → (code ≡ pos 1)
        × ((account l.log).ok ≡ false)
        × ((account l.log).skels ≡ [])
        × ((account l.log).managers ≡ [])
        × (l.capture_enabled ≡ 0)
  main-exits code e =
      let (c, (ok, sk, mg, on)) = subst (OnOutcome answers) e (main-OnOutcome answers) in
      (c, ok, sk, mg, on.0)

  -- The globals when the signal comes: the loop and the programs have counted since.
  abbrev pub counting : ℕ → ℕ → Loader
  counting n_elaborated n_drops = record l { n_elaborated = n_elaborated; n_drops = n_drops }

  abbrev Ended : Outcome → Type 0
  Ended (captures l') = ⊥
  Ended (exits code l') =
      (code ≡ pos 0)
      × ((account l'.log).skels ≡ [])
      × ((account l'.log).managers ≡ [])
      × ((account l'.log).fds ≡ [])
      × (l'.capture_enabled ≡ 0)
      × ((account l'.log).arrays ≡ present l.prod_pos ++ present l.cons_pos)

  signal_callback-Ended :
      (n_elaborated n_drops : ℕ)
      → Captured answers l
      → Ended (signal_callback answers (counting n_elaborated n_drops))
  unfolding signal_callback
  signal_callback-Ended n d (managed, h, k, c, on, none_read, room) =
      let l1 = record (counting n d) { capture_enabled = 0 } in
      let l2 = tell answers (print n) (tell answers (print d) l1) in
      let e = clean-account answers l2 in
      (
        refl,
        ap (λ t. t.skels) e ∙ rw h (drop_present l.skel),
        ap (λ t. t.managers) e ∙ rw h (drop_present l.ringbuf),
        ap (λ t. t.fds) e ∙ rw h refl,
        clean-capture_enabled answers l2,
        ap (λ t. t.arrays) e ∙ rw h refl,
      )

  -- SIGINT during the capture, whatever has been counted by then, ends the process with 0 and the
  -- capture off; the skeleton and the manager are released and no ring buffer is open, but both
  -- position arrays are still allocated.
  pub signal_callback-main :
      (n_elaborated n_drops : ℕ) (code : ℤ) (l' : Loader)
      → main answers initial ≡ captures l
      → signal_callback answers (counting n_elaborated n_drops) ≡ exits code l'
      → (code ≡ pos 0)
        × ((account l'.log).skels ≡ [])
        × ((account l'.log).managers ≡ [])
        × ((account l'.log).fds ≡ [])
        × (l'.capture_enabled ≡ 0)
        × ((account l'.log).arrays ≡ present l.prod_pos ++ present l.cons_pos)
  signal_callback-main n d code l' e s = subst Ended s (signal_callback-Ended n d (captured e))
