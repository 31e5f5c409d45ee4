-- ===== src/Bench/Select.antt =====
-- The ring buffer that an event of multi_ringbuf_reserve.bpf.c goes to.
use bpf_ringbuf.Common.{
  ℕ, zero, suc, ◌+◌, ◌<◌, ◌≡◌, refl, ◌∙◌, Option, none, some, Bool, true, false, leb, Bool-cases,
  inl, inr,
}
use bpf_ringbuf.Bpf.{Helpers, QueryFlag, rb_avail_data}
use bpf_ringbuf.Bpf.Best.{first_min, weigh, choose_from, get_best_buffer}
use bpf_ringbuf.Bpf.Programs.{select_ringbuf}

-- What the kernel documents of the helpers that put no record into a ring buffer, about what others
-- see of the ring buffers (`image`): the CPU's number, a random number, a lookup, a query and a
-- reservation that fails leave it alone. A ring buffer that is found is one of the `cnt` in the array.
pub record Rests (h : Helpers) (cnt : ℕ) (V : Type 0) : Type 0 where
  pub image : h.State → V
  pub index : h.RingBuf → ℕ
  pub cpu : (st : h.State) → image (h.get_smp_processor_id st).1 ≡ image st
  pub prandom : (st : h.State) → image (h.get_prandom_u32 st).1 ≡ image st
  pub lookup : (i : ℕ) (st : h.State) → image (h.lookup_ringbuf i st).1 ≡ image st
  pub query :
      (rb : h.RingBuf) (flag : QueryFlag) (st : h.State) → image (h.query rb flag st).1 ≡ image st
  pub full :
      (rb : h.RingBuf) (n : ℕ) (st : h.State)
      → (h.reserve rb n st).0 ≡ none
      → image (h.reserve rb n st).1 ≡ image st
  pub index-lookup :
      (i : ℕ) (st : h.State) (rb : h.RingBuf) → (h.lookup_ringbuf i st).0 ≡ some rb → index rb < cnt

module _ (h : Helpers) (cnt : ℕ) {V : Type 0} (m : Rests h cnt V) where
  open h use {State, RingBuf, lookup_ringbuf, get_smp_processor_id}

  -- The ring buffer is one of the array, and the rest is as it was.
  abbrev InArray : Option RingBuf → Type 0
  InArray none = Unit
  InArray (some rb) = m.index rb < cnt

  abbrev pub Selects : State → Option RingBuf × State → Type 0
  Selects st (o, st') = InArray o × (m.image st' ≡ m.image st)

  lookup-Selects : (i : ℕ) (st : State) → Selects st (lookup_ringbuf i st)
  lookup-Selects i st = (found (lookup_ringbuf i st).0 refl, m.lookup i st)
    where
      found : (o : Option RingBuf) → (lookup_ringbuf i st).0 ≡ o → InArray o
      found none e = tt
      found (some rb) e = m.index-lookup i st rb e

  weigh-Selects :
      (left j least : ℕ) (chosen : Option RingBuf) (first st : State) (o : Option RingBuf × State)
      → Selects first (chosen, st)
      → Selects st o
      → ((least' : ℕ) (chosen' : Option RingBuf) (st' : State)
          → Selects first (chosen', st')
          → Selects first (choose_from h left j least' chosen' st'))
      → let (min', chosen', st') = weigh h o least chosen in
        Selects first (choose_from h left j min' chosen' st')
  weigh-Selects left j least chosen first st (none, st1) s (found, same) ih =
      ih least chosen st1 (s.0, same ∙ s.1)
  weigh-Selects left j least chosen first st (some rb, st1) s (found, same) ih =
      let (n, st2) = h.query rb rb_avail_data st1 in
      let kept : m.image st2 ≡ m.image first = m.query rb rb_avail_data st1 ∙ (same ∙ s.1) in
      elim (Bool-cases (leb n least)) [
        | inl less ↦ rw less (ih n (some rb) st2 (found, kept))
        | inr more ↦ rw more (ih least chosen st2 (s.0, kept))
      ]

  choose_from-Selects :
      (left j least : ℕ) (chosen : Option RingBuf) (first st : State)
      → Selects first (chosen, st)
      → Selects first (choose_from h left j least chosen st)
  unfolding choose_from
  choose_from-Selects zero j least chosen first st s = s
  choose_from-Selects (suc left) j least chosen first st s =
      weigh-Selects left (j + 1) least chosen first st (lookup_ringbuf j st) s (lookup-Selects j st)
        (λ least' chosen' st' s'. choose_from-Selects left (j + 1) least' chosen' first st' s')

  pub select-Selects :
      (customized : Bool) (n_cpus : ℕ) (st : State)
      → Selects st (select_ringbuf h customized n_cpus st)
  unfolding select_ringbuf get_best_buffer
  select-Selects true n_cpus st = choose_from-Selects n_cpus 0 first_min none st st (tt, refl)
  select-Selects false n_cpus st =
      let (cpu, st') = get_smp_processor_id st in
      let (found, same) = lookup-Selects cpu st' in (found, same ∙ m.cpu st)
