-- ===== src/Loader/Signal/Same.antt =====
-- The phases beside `main`.
use bpf_ringbuf.Common.{Bool, true, false, ◌≡◌, refl, ◌↔◌, sym, ap}
use mathlib.Core.Path.{subst}
use bpf_ringbuf.Loader.{Answers, Loader, initial}
use bpf_ringbuf.Loader.Steps.{
  Result, exited, finished, and_then, initialize_resources, open_skeleton, load_inner_map,
  set_cpus_number, load_skeleton, instaciate_ring_buffers, attach_skeleton,
}
use bpf_ringbuf.Loader.Main.{
  Outcome, exits, captures, main, set_up, after_initialize, after_open, capture_or_clean,
  close_inner_map,
}
use bpf_ringbuf.Loader.Signal.{
  initialized, opened, instaciated, capturing, Reaches, initialize, open_phase, load_map, set_cpus,
  load_phase, close_map, instaciate, attach_phase, capture,
}

-- A result that is got through two ends, each with how it came about.
and_then-elim :
    (P : Bool × Loader → Type 0) (r : Bool × Loader) (next : Loader → Bool × Loader)
    → ((l : Loader) → r ≡ (true, l) → P (next l))
    → ((l : Loader) → P (false, l))
    → P (and_then r next)
and_then-elim P (true, l) next f g = f l refl
and_then-elim P (false, l) next f g = g l

module _ (answers : Answers) where
  -- If it captures, the phases have led there.
  abbrev Leads : Outcome → Type 0
  Leads (exits code l) = Unit
  Leads (captures l) = Reaches answers capturing l

  abbrev LeadsFrom : Bool × Loader → Type 0
  LeadsFrom r = Leads (capture_or_clean answers r)

  attach-Leads :
      (l : Loader)
      → Reaches answers instaciated l
      → (r : Bool × Loader) → attach_skeleton answers l ≡ r
      → LeadsFrom r
  attach-Leads l h (true, l') e = capture (attach_phase h e)
  attach-Leads l h (false, l') e = tt

  set_up-Leads : (l : Loader) → Reaches answers opened l → LeadsFrom (set_up answers l)
  unfolding set_up
  set_up-Leads l r =
      let fill : Loader → Bool × Loader =
        λ l. and_then (instaciate_ring_buffers answers l) (attach_skeleton answers) in
      let shut : Loader → Bool × Loader = λ l. and_then (close_inner_map answers l) fill in
      let load : Loader → Bool × Loader = λ l. and_then (load_skeleton answers l) shut in
      let count : Loader → Bool × Loader = λ l. and_then (set_cpus_number answers l) load in
      let fails : (l : Loader) → LeadsFrom (false, l) = λ l. tt in
      and_then-elim LeadsFrom (load_inner_map answers l) count
        (λ l1 e1.
          and_then-elim LeadsFrom (set_cpus_number answers l1) load
            (λ l2 e2.
              and_then-elim LeadsFrom (load_skeleton answers l2) shut
                (λ l3 e3.
                  and_then-elim LeadsFrom (close_inner_map answers l3) fill
                    (λ l4 e4.
                      and_then-elim LeadsFrom (instaciate_ring_buffers answers l4)
                        (attach_skeleton answers)
                        (λ l5 e5.
                          let r5 =
                            instaciate (close_map (load_phase (set_cpus (load_map r e1) e2) e3) e4)
                              e5 in
                          attach-Leads l5 r5 (attach_skeleton answers l5) refl)
                        fails)
                    fails)
                fails)
            fails)
        fails

  open-Leads :
      (l : Loader)
      → Reaches answers initialized l
      → (r : Bool × Loader) → open_skeleton answers l ≡ r
      → Leads (after_open answers r)
  open-Leads l h (true, l') e = set_up-Leads l' (open_phase h e)
  open-Leads l h (false, l') e = tt

  initialize-Leads :
      (r : Result) → initialize_resources answers initial ≡ r → Leads (after_initialize answers r)
  initialize-Leads (exited code l) e = tt
  initialize-Leads (finished (true, l)) e =
      open-Leads l (initialize e) (open_skeleton answers l) refl
  initialize-Leads (finished (false, l)) e = tt

  main-Leads : Leads (main answers initial)
  unfolding main
  main-Leads = initialize-Leads (initialize_resources answers initial) refl

  Reaches-main : (l : Loader) → Reaches answers capturing l → main answers initial ≡ captures l
  unfolding main set_up
  Reaches-main l
        (capture (
          attach_phase
            (instaciate {l' = l6}
              (close_map {l = l4} {l' = l5}
                (load_phase (set_cpus (load_map (open_phase (initialize e0) e1) e2) e3) e4)
                e5)
              e6)
            e7)) =
      let shut = (close_inner_map answers l4).1 in
      let e6' : instaciate_ring_buffers answers shut ≡ (true, l6) =
        subst (λ x. instaciate_ring_buffers answers x ≡ (true, l6)) (sym (ap (λ r. r.1) e5)) e6 in
      rw (e0, e1, e2, e3, e4, e6', e7) refl

  -- The phases, one after another with each returning true, lead to the capture with certain globals
  -- exactly if `main` does.
  pub phases-main : (l : Loader) → Reaches answers capturing l ↔ (main answers initial ≡ captures l)
  phases-main l = (Reaches-main l, λ e. subst Leads e main-Leads)
