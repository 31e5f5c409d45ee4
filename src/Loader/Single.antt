-- ===== src/Loader/Single.antt =====
-- `main` of the programs over a single ring (case1.c and case2.c of single_ringbuf_reserve): the
-- code that it returns, and what it releases.
use bpf_ringbuf.Common.{
  ℕ, zero, suc, true, false, [], ◌∷◌, ◌≡◌, refl, ◌∙◌, Bool-cases, inl, inr, append-nil, arith,
}
use mathlib.Core.Path.{subst}
use bpf_ringbuf.Loader.Int.{ℤ, pos, negsuc, negate, is_zero, same}
use bpf_ringbuf.Loader.{
  Loader, Answers, Log, initial, set_print, setrlimit, set_signal, skel_open, skel_load,
  skel_attach, skel_destroy, map_fd, ring_buffer_new,
}
use bpf_ringbuf.Loader.Steps.{bump_memlock_rlimit, open_skeleton}
use bpf_ringbuf.Loader.Main.{
  Outcome, exits, captures, single_main, single_signal_callback, single_load, single_ring,
  single_attach, destroy_and_return,
}
use bpf_ringbuf.Loader.Account.{account, present}
use bpf_ringbuf.Loader.Account.Stage.{Idle}
use bpf_ringbuf.Loader.Account.Laws.{drop_present}

-- The code that the last calls of a log stand for: a failed load or attach is returned with its sign
-- changed, a failed `ring_buffer__new` as 0, and any other failure as EXIT_FAILURE.
abbrev pub code_of : Log → ℤ
code_of [] = pos 1
code_of ((skel_destroy p, a) ∷ log) = code_of log
code_of ((skel_load p, a) ∷ log) = negate a
code_of ((skel_attach p, a) ∷ log) = negate a
code_of ((ring_buffer_new fd, a) ∷ log) = pos 0
code_of (_ ∷ log) = pos 1

-- What the globals and the log say of each other.
abbrev Fits : Loader → Type 0
Fits l =
    ((account l.log).skels ≡ present l.skel)
    × ((account l.log).managers ≡ present l.ringbuf)
    × Idle l
    × ((account l.log).consumed ≡ 0)

abbrev pub OnSingle : Outcome → Type 0
OnSingle (exits code l) =
    (code ≡ code_of l.log)
    × ((account l.log).skels ≡ [])
    × ((account l.log).managers ≡ present l.ringbuf)
    × (l.capture_enabled ≡ 0)
OnSingle (captures l) =
    ((account l.log).skels ≡ present l.skel)
    × ((account l.log).managers ≡ present l.ringbuf)
    × (is_zero l.ringbuf ≡ false)
    × (l.capture_enabled ≡ 1)
    × (l.n_elaborated ≡ 0)
    × ((account l.log).consumed ≡ 0)

-- The process has been ended by the signal.
abbrev Interrupted : Loader → Outcome → Type 0
Interrupted l (captures l') = ⊥
Interrupted l (exits code l') =
    (code ≡ pos 0)
    × ((account l'.log).skels ≡ [])
    × ((account l'.log).managers ≡ present l.ringbuf)
    × (l'.capture_enabled ≡ 0)

module _ (answers : Answers) where
  destroy_and_return-OnSingle :
      (err : ℤ) (l : Loader)
      → Fits l
      → negate err ≡ code_of l.log
      → OnSingle (destroy_and_return answers err l)
  destroy_and_return-OnSingle err l (sk, mg, on, none_read) c =
      (c, rw sk (drop_present l.skel), mg, on.0)

  single_attach-OnSingle :
      (l : Loader) → Fits l → is_zero l.ringbuf ≡ false → OnSingle (single_attach answers l)
  single_attach-OnSingle l (sk, mg, on, none_read) nz =
      let err = answers l.log (skel_attach l.skel) in
      elim (Bool-cases (is_zero err)) [
        | inl e ↦ rw e (sk, mg, nz, refl, on.1, none_read)
        | inr e ↦ rw e (
            destroy_and_return-OnSingle err (record l { log = (skel_attach l.skel, err) ∷ l.log })
              (sk, mg, on, none_read) refl)
      ]

  single_ring-OnSingle :
      (err : ℤ) (l : Loader)
      → Fits l
      → l.ringbuf ≡ pos 0
      → is_zero err ≡ true
      → OnSingle (single_ring answers err l)
  single_ring-OnSingle err l (sk, mg, on, none_read) nr z =
      let fd = answers l.log map_fd in
      let log1 = (map_fd, fd) ∷ l.log in
      let rb = answers log1 (ring_buffer_new fd) in
      let log2 = (ring_buffer_new fd, rb) ∷ log1 in
      elim (Bool-cases (is_zero rb)) [
        | inl e ↦ rw e (
            destroy_and_return-OnSingle err (record l { log = log2 }) (sk, rw e mg, on, none_read)
              (negate_zero err z))
        | inr e ↦ rw e (
            single_attach-OnSingle (record l { log = log2; ringbuf = rb })
              (sk, rw mg (rw nr (rw append-nil refl)), on, none_read) e)
      ]
    where
      negate_zero : (a : ℤ) → is_zero a ≡ true → negate a ≡ pos 0
      negate_zero (pos zero) h = refl
      negate_zero (pos (suc n)) h = ground arith
      negate_zero (negsuc n) h = ground arith

  single_load-OnSingle :
      (l : Loader) → Fits l → l.ringbuf ≡ pos 0 → OnSingle (single_load answers (true, l))
  single_load-OnSingle l (sk, mg, on, none_read) nr =
      let err = answers l.log (skel_load l.skel) in
      let l' = record l { log = (skel_load l.skel, err) ∷ l.log } in
      elim (Bool-cases (is_zero err)) [
        | inl e ↦ rw e (single_ring-OnSingle err l' (sk, mg, on, none_read) nr e)
        | inr e ↦ rw e (destroy_and_return-OnSingle err l' (sk, mg, on, none_read) refl)
      ]

  -- Each test before the skeleton is loaded ends the process with EXIT_FAILURE.
  pub single_main-OnSingle : OnSingle (single_main answers initial)
  unfolding single_main bump_memlock_rlimit open_skeleton
  single_main-OnSingle =
      let log0 = (set_print, answers [] set_print) ∷ [] in
      let err = answers log0 setrlimit in
      let log1 = (setrlimit, err) ∷ log0 in
      let old = answers log1 set_signal in
      let log2 = (set_signal, old) ∷ log1 in
      let p = answers log2 skel_open in
      let l = record initial { skel = p; log = (skel_open, p) ∷ log2 } in
      elim (Bool-cases (is_zero err)) [
        | inr e ↦ rw e (refl, refl, refl, refl)
        | inl e ↦ rw e (elim (Bool-cases (same old (negsuc 0))) [
          | inl e' ↦ rw e' (refl, refl, refl, refl)
          | inr e' ↦ rw e' (elim (Bool-cases (is_zero p)) [
            | inl z ↦ rw z (refl, rw z refl, refl, refl)
            | inr z ↦
                rw z (single_load-OnSingle l (rw append-nil refl, refl, (refl, refl), refl) refl)
          ])
        ])
      ]

  -- A main of a single ring that ends, ends with the code that its last failure stands for: a failed
  -- load or attach with its sign changed, a failed ring_buffer__new as 0, any other failure as 1. The
  -- skeleton is released, a ring manager is not, and the capture was never on.
  pub single_main-exits :
      (code : ℤ) (l : Loader)
      → single_main answers initial ≡ exits code l
      → (code ≡ code_of l.log)
        × ((account l.log).skels ≡ [])
        × ((account l.log).managers ≡ present l.ringbuf)
        × (l.capture_enabled ≡ 0)
  single_main-exits code l e = subst OnSingle e single_main-OnSingle

  single_signal_callback-OnSingle :
      (n d : ℕ) (l : Loader)
      → OnSingle (captures l)
      → Interrupted l (single_signal_callback answers (record l { n_elaborated = n; n_drops = d }))
  unfolding single_signal_callback
  single_signal_callback-OnSingle n d l (sk, mg, nz, on, unread, none_read) =
      (refl, rw sk (drop_present l.skel), mg, refl)

  -- SIGINT during the capture of a single ring, whatever has been counted by then, ends the process
  -- with 0 and the capture off; the skeleton is released, and the ring manager is not.
  single_signal_callback-main :
      (n d : ℕ) (code : ℤ) (l l' : Loader)
      → single_main answers initial ≡ captures l
      → single_signal_callback answers (record l { n_elaborated = n; n_drops = d }) ≡ exits code l'
      → (code ≡ pos 0)
        × ((account l'.log).skels ≡ [])
        × ((account l'.log).managers ≡ l.ringbuf ∷ [])
        × (l'.capture_enabled ≡ 0)
  single_signal_callback-main n d code l l' e s =
      let on = subst OnSingle e single_main-OnSingle in
      let (c, sk, mg, off) = subst (Interrupted l) s (single_signal_callback-OnSingle n d l on) in
      (c, sk, mg ∙ rw on.2 refl, off)
