-- ===== src/Loader/Signal/Laws.antt =====
-- What SIGINT does in each phase of `main`.
use mathlib.Core.Path.{subst}
use bpf_ringbuf.Common.{
  Bool, true, false, not, ◌≡◌, refl, ap, ◌∙◌, [], ◌∷◌, Bool-cases, inl, inr, arith,
}
use bpf_ringbuf.Loader.Int.{ℤ, pos, negsuc, same, same_refl, is_zero}
use bpf_ringbuf.Loader.{
  Answers, Loader, initial, set_print, setrlimit, skel_open, set_signal, tell, print,
}
use bpf_ringbuf.Loader.Steps.{
  Result, exited, finished, initialize_resources, bump_memlock_rlimit, open_skeleton, start_capture,
}
use bpf_ringbuf.Loader.Main.{exits, captures, signal_callback}
use bpf_ringbuf.Loader.Account.{account, present}
use bpf_ringbuf.Loader.Account.Ends.{Ends, Ends-split}
use bpf_ringbuf.Loader.Account.Stage.{Empty, Failed, Opened, WithInner, WithCpus, Loaded, SetUp}
use bpf_ringbuf.Loader.Account.Phases.{
  open_skeleton-Ends, load_inner_map-Ends, set_cpus_number-Ends, load_skeleton-Ends,
  close_inner_map-Ends,
}
use bpf_ringbuf.Loader.Account.Filling.{instaciate_ring_buffers-Ends, attach_skeleton-Ends}
use bpf_ringbuf.Loader.Account.Laws.{clean-account, clean-capture_enabled, drop_present}
use bpf_ringbuf.Loader.Signal.{
  Phase, initialized, opened, inner_map_loaded, cpus_set, loaded, inner_map_closed, instaciated,
  attached, capturing, Reaches, initialize, open_phase, load_map, set_cpus, load_phase, close_map,
  instaciate, attach_phase, capture, Interrupt, through_null, through_freed, handled, holds, intact,
  interrupt,
}
use bpf_ringbuf.Loader.Signal.Keeps.{
  Keeps, load_inner_map-Keeps, set_cpus_number-Keeps, load_skeleton-Keeps,
  instaciate_ring_buffers-Keeps, attach_skeleton-Keeps,
}

-- The process ends with 0, and holds neither a skeleton nor a manager.
abbrev pub Released : Interrupt → Type 0
Released through_null = ⊥
Released through_freed = ⊥
Released (handled (captures l)) = ⊥
Released (handled (exits code l)) =
    (code ≡ pos 0)
    × ((account l.log).skels ≡ [])
    × ((account l.log).managers ≡ [])
    × (l.capture_enabled ≡ 0)

-- In the first phase the handler goes through NULL.
abbrev pub Handled : Phase → Interrupt → Type 0
Handled initialized o = o ≡ through_null
Handled p o = Released o

-- There is a skeleton, and the globals are what `clean` has to release.
abbrev pub Owns : Loader → Type 0
Owns l =
    ((account l.log).skels ≡ present l.skel)
    × ((account l.log).managers ≡ present l.ringbuf)
    × (is_zero l.skel ≡ false)

holds-present : (p : ℤ) → is_zero p ≡ false → holds p (present p) ≡ true
holds-present p e = rw e (rw (same_refl p) refl)

Owns-intact : (l : Loader) → Owns l → intact l ≡ true
Owns-intact l (sk, mg, e) =
    rw (sk, mg, holds-present l.skel e)
      (elim (Bool-cases (is_zero l.ringbuf)) [
        | inl z ↦ rw z refl
        | inr nz ↦ rw nz (rw (same_refl l.ringbuf) refl)
      ])

module _ (answers : Answers) where
  pub interrupt-Released : (l : Loader) → Owns l → Released (interrupt answers l)
  unfolding interrupt signal_callback
  interrupt-Released l (sk, mg, e) =
      let l1 = record l { capture_enabled = 0 } in
      let l2 = tell answers (print l.n_elaborated) (tell answers (print l.n_drops) l1) in
      let c = clean-account answers l2 in
      rw (e, Owns-intact l (sk, mg, e))
        (
          refl,
          ap (λ t. t.skels) c ∙ rw sk (drop_present l.skel),
          ap (λ t. t.managers) c ∙ rw mg (drop_present l.ringbuf),
          clean-capture_enabled answers l2,
        )

  -- What holds in each phase.
  abbrev Stage : Phase → Loader → Type 0
  Stage initialized l = Opened l × (l.skel ≡ pos 0)
  Stage opened l = Opened l × (is_zero l.skel ≡ false)
  Stage inner_map_loaded l = WithInner l × (is_zero l.skel ≡ false)
  Stage cpus_set l = WithCpus l × (is_zero l.skel ≡ false)
  Stage loaded l = WithCpus l × (is_zero l.skel ≡ false)
  Stage inner_map_closed l = Loaded l × (is_zero l.skel ≡ false)
  Stage instaciated l = SetUp answers l × (is_zero l.skel ≡ false)
  Stage attached l = SetUp answers l × (is_zero l.skel ≡ false)
  Stage capturing l = Owns l

  abbrev OnResult : Result → Type 0
  OnResult (exited code l) = Unit
  OnResult (finished r) = Ends (Stage initialized) (λ l. Unit) r

  initialize-Stage : OnResult (initialize_resources answers initial)
  unfolding initialize_resources bump_memlock_rlimit
  initialize-Stage =
      let log = (set_print, answers [] set_print) ∷ [] in
      let err = answers log setrlimit in
      let log' = (setrlimit, err) ∷ log in
      elim (Bool-cases (is_zero err)) [
        | inr e ↦ rw e tt
        | inl e ↦ rw e (
            Ends-split (Stage initialized) (λ l. Unit)
              (not (same (answers log' set_signal) (negsuc 0)))
              (record initial { log = (set_signal, answers log' set_signal) ∷ log' })
              (λ e'. (((rw e (rw e' refl), (refl, refl)), refl, (refl, refl)), refl)) (λ e'. tt))
      ]

  open_skeleton-skel :
      (l : Loader) → Ends (λ l. is_zero l.skel ≡ false) (λ l. Unit) (open_skeleton answers l)
  unfolding open_skeleton
  open_skeleton-skel l =
      Ends-split (λ l. is_zero l.skel ≡ false) (λ l. Unit) (not (is_zero (answers l.log skel_open)))
        _ (λ e. not-false (is_zero (answers l.log skel_open)) e) (λ e. tt)
    where
      not-false : (b : Bool) → not b ≡ true → b ≡ false
      not-false b h = ground arith

  -- A phase that has returned true, and keeps the skeleton.
  phase-Stage :
      (good : Loader → Type 0) (r : Bool × Loader) (l l' : Loader)
      → r ≡ (true, l')
      → Ends good Failed r
      → Keeps l.skel r
      → is_zero l.skel ≡ false
      → good l' × (is_zero l'.skel ≡ false)
  phase-Stage good r l l' e ends keeps nz =
      let same_skel : l'.skel ≡ l.skel = subst (Keeps l.skel) e keeps in
      (subst (Ends good Failed) e ends, rw same_skel nz)

  SetUp-Owns : (l : Loader) → SetUp answers l → is_zero l.skel ≡ false → Owns l
  SetUp-Owns l (managed, (h, on), k, c, room) nz = (rw h refl, rw h refl, nz)

  pub Reaches-Stage : (p : Phase) (l : Loader) → Reaches answers p l → Stage p l
  unfolding start_capture
  Reaches-Stage initialized l (initialize e) = subst OnResult e initialize-Stage
  Reaches-Stage opened l' (open_phase {l} r e) =
      let (o, np) = Reaches-Stage initialized l r in
      (
        subst (Ends Opened Empty) e (open_skeleton-Ends answers l o np),
        subst (Ends (λ l. is_zero l.skel ≡ false) (λ l. Unit)) e (open_skeleton-skel l),
      )
  Reaches-Stage inner_map_loaded l' (load_map {l} r e) =
      let (s, nz) = Reaches-Stage opened l r in
      phase-Stage WithInner _ l l' e (load_inner_map-Ends answers l s)
        (load_inner_map-Keeps l.skel answers l refl) nz
  Reaches-Stage cpus_set l' (set_cpus {l} r e) =
      let (s, nz) = Reaches-Stage inner_map_loaded l r in
      phase-Stage WithCpus _ l l' e (set_cpus_number-Ends answers l s)
        (set_cpus_number-Keeps l.skel answers l refl) nz
  Reaches-Stage loaded l' (load_phase {l} r e) =
      let (s, nz) = Reaches-Stage cpus_set l r in
      phase-Stage WithCpus _ l l' e (load_skeleton-Ends answers l s)
        (load_skeleton-Keeps l.skel answers l refl) nz
  Reaches-Stage inner_map_closed l' (close_map {l} r e) =
      let (s, nz) = Reaches-Stage loaded l r in
      phase-Stage Loaded _ l l' e (close_inner_map-Ends answers l s) refl nz
  Reaches-Stage instaciated l' (instaciate {l} r e) =
      let (s, nz) = Reaches-Stage inner_map_closed l r in
      phase-Stage (SetUp answers) _ l l' e (instaciate_ring_buffers-Ends answers l s)
        (instaciate_ring_buffers-Keeps l.skel answers l refl) nz
  Reaches-Stage attached l' (attach_phase {l} r e) =
      let (s, nz) = Reaches-Stage instaciated l r in
      phase-Stage (SetUp answers) _ l l' e (attach_skeleton-Ends answers l s)
        (attach_skeleton-Keeps l.skel answers l refl) nz
  Reaches-Stage capturing l' (capture {l} r) =
      let (s, nz) = Reaches-Stage attached l r in SetUp-Owns l s nz

  -- SIGINT after any phase of `main`, whatever libbpf and the kernel have answered: while the skeleton
  -- is not open the handler goes through a NULL pointer; from then on it goes through nothing that has
  -- been released, ends the process with 0 and the capture off, and releases the skeleton and the
  -- manager.
  pub sigint-Handled :
      (p : Phase) (l : Loader) → Reaches answers p l → Handled p (interrupt answers l)
  unfolding interrupt
  sigint-Handled initialized l r = let (o, np) = Reaches-Stage initialized l r in rw np refl
  sigint-Handled opened l r =
      let (((h, on), nr, na), nz) = Reaches-Stage opened l r in
      interrupt-Released l (rw h refl, rw h refl, nz)
  sigint-Handled inner_map_loaded l r =
      let (((h, on), nr, na), nz) = Reaches-Stage inner_map_loaded l r in
      interrupt-Released l (rw h refl, rw h refl, nz)
  sigint-Handled cpus_set l r =
      let (((h, on), nr, c), nz) = Reaches-Stage cpus_set l r in
      interrupt-Released l (rw h refl, rw h refl, nz)
  sigint-Handled loaded l r =
      let (((h, on), nr, c), nz) = Reaches-Stage loaded l r in
      interrupt-Released l (rw h refl, rw h refl, nz)
  sigint-Handled inner_map_closed l r =
      let (((h, on), nr, c), nz) = Reaches-Stage inner_map_closed l r in
      interrupt-Released l (rw h refl, rw h refl, nz)
  sigint-Handled instaciated l r =
      let (s, nz) = Reaches-Stage instaciated l r in interrupt-Released l (SetUp-Owns l s nz)
  sigint-Handled attached l r =
      let (s, nz) = Reaches-Stage attached l r in interrupt-Released l (SetUp-Owns l s nz)
  sigint-Handled capturing l r = interrupt-Released l (Reaches-Stage capturing l r)
