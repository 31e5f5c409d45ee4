-- ===== src/Bpf/Programs/Outcome.antt =====
-- What becomes of an event.
use bpf_ringbuf.Common.{
  ℕ, zero, suc, ◌+◌, ◌%◌, ◌≡◌, refl, Bool, true, false, Option, none, some, arith, inl, inr, ◌⊎◌,
  ◌==◌, if◌then◌else◌,
}
use bpf_ringbuf.Bpf.{
  QueryFlag, WakeupFlag, rb_avail_data, rb_no_wakeup, Helpers, Globals, count_drop, count_skip,
}
use bpf_ringbuf.Bpf.Sizes.{reserve_size, single_size}
use bpf_ringbuf.Bpf.Best.{weigh, choose_from, get_best_buffer}
use bpf_ringbuf.Bpf.Programs.{
  sent, send, reserve_some, with_ringbuf, select_ringbuf, catch_fentry, catch_fentry_one,
  send_entry, catch_fentry_output,
}

-- A count of the records that the running program has sent: a submit adds one, and so does an
-- output without an error; the other helpers add none.
pub record Counter (h : Helpers) : Type 0 where
  pub count : h.State → ℕ
  pub count-cpu : (st : h.State) → count (h.get_smp_processor_id st).1 ≡ count st
  pub count-prandom : (st : h.State) → count (h.get_prandom_u32 st).1 ≡ count st
  pub count-lookup : (i : ℕ) (st : h.State) → count (h.lookup_ringbuf i st).1 ≡ count st
  pub count-heap : (i : ℕ) (st : h.State) → count (h.lookup_heap i st).1 ≡ count st
  pub count-query :
      (rb : h.RingBuf) (flag : QueryFlag) (st : h.State) → count (h.query rb flag st).1 ≡ count st
  pub count-reserve :
      (rb : h.RingBuf) (n : ℕ) (st : h.State) → count (h.reserve rb n st).1 ≡ count st
  pub count-submit :
      (e : h.Event) (flag : WakeupFlag) (st : h.State) → count (h.submit e flag st) ≡ count st + 1
  pub count-output :
      (rb : h.RingBuf) (e : h.Entry) (n : ℕ) (flag : WakeupFlag) (st : h.State)
      → count (h.output rb e n flag st).1
        ≡ count st + (if (h.output rb e n flag st).0 then 0 else 1)

module _ (h : Helpers) (c : Counter h) where
  open h use {
    State, RingBuf, Event, Entry, get_smp_processor_id, get_prandom_u32, lookup_ringbuf,
    lookup_heap, reserve, output,
  }
  open c use {
    count, count-cpu, count-prandom, count-lookup, count-heap, count-query, count-reserve,
    count-submit, count-output,
  }

  -- The event is counted as skipped and nothing is sent, or nothing is counted and it is sent.
  abbrev pub SkippedOrSent : Globals → State → Globals × State → Type 0
  SkippedOrSent g st (g', st') =
      ((g' ≡ count_skip g) × (count st' ≡ count st)) ⊎ ((g' ≡ g) × (count st' ≡ count st + 1))

  -- The same, or the event is counted as a drop and nothing is sent.
  abbrev pub Counted : Globals → State → Globals × State → Type 0
  Counted g st (g', st') =
      ((g' ≡ count_drop g) × (count st' ≡ count st)) ⊎ SkippedOrSent g st (g', st')

  send-Counted :
      (g : Globals) (st : State) (o : Option Event × State)
      → count o.1 ≡ count st
      → Counted g st (send h g o)
  send-Counted g st (none, st') e = inl (refl, e)
  send-Counted g st (some event, st') e =
      inr (inr (refl, omega (arith, e, count-submit event rb_no_wakeup st')))

  reserve_some-Counted :
      (g : Globals) (st0 : State) (size : ℕ → ℕ) (rb : RingBuf) (st : State)
      → count st ≡ count st0
      → Counted g st0 (reserve_some h g size rb st)
  reserve_some-Counted g st0 size rb st e =
      let (r, st') = get_prandom_u32 st in
      send-Counted g st0 (reserve rb (size r) st')
        (omega (arith, e, count-prandom st, count-reserve rb (size r) st'))

  with_ringbuf-Counted :
      (g : Globals) (st0 : State) (size : ℕ → ℕ) (o : Option RingBuf × State)
      → count o.1 ≡ count st0
      → Counted g st0 (with_ringbuf h (reserve_some h g size) g o)
  with_ringbuf-Counted g st0 size (none, st) e = inr (inl (refl, e))
  with_ringbuf-Counted g st0 size (some rb, st) e = reserve_some-Counted g st0 size rb st e

  count-weigh :
      (o : Option RingBuf × State) (least : ℕ) (chosen : Option RingBuf)
      → count (weigh h o least chosen).2 ≡ count o.1
  count-weigh (none, st) least chosen = refl
  count-weigh (some rb, st) least chosen = count-query rb rb_avail_data st

  count-choose_from :
      (left j least : ℕ) (chosen : Option RingBuf) (st : State)
      → count (choose_from h left j least chosen st).1 ≡ count st
  unfolding choose_from
  count-choose_from zero j least chosen st = refl
  count-choose_from (suc left) j least chosen st =
      let (min', chosen', st') = weigh h (lookup_ringbuf j st) least chosen in
      omega (
        arith,
        count-choose_from left (j + 1) min' chosen' st',
        count-weigh (lookup_ringbuf j st) least chosen,
        count-lookup j st,
      )

  count-select_ringbuf :
      (customized : Bool) (n_cpus : ℕ) (st : State)
      → count (select_ringbuf h customized n_cpus st).1 ≡ count st
  unfolding select_ringbuf get_best_buffer
  count-select_ringbuf true n_cpus st = count-choose_from n_cpus 0 _ none st
  count-select_ringbuf false n_cpus st =
      let (cpu, st') = get_smp_processor_id st in omega (arith, count-cpu st, count-lookup cpu st')

  pub catch_fentry-Counted :
      (customized : Bool) (byte n_cpus : ℕ) (g : Globals) (st : State)
      → (g.capture_enabled == 0) ≡ false
      → Counted g st (catch_fentry h customized byte n_cpus g st)
  unfolding catch_fentry
  catch_fentry-Counted customized byte n_cpus g st on = rw on (
      with_ringbuf-Counted g st (λ r. reserve_size byte (r % 7))
        (select_ringbuf h customized n_cpus st) (count-select_ringbuf customized n_cpus st))

  -- While the capture is on, each run of `catch_fentry_one` of single_ringbuf_reserve.bpf.c counts
  -- one drop or submits one record, and nothing else of its globals changes.
  pub catch_fentry_one-Counted :
      (rb : RingBuf) (byte : ℕ) (g : Globals) (st : State)
      → (g.capture_enabled == 0) ≡ false
      → let (g', st') = catch_fentry_one h rb byte g st in
        ((g' ≡ count_drop g) × (count st' ≡ count st)) ⊎ ((g' ≡ g) × (count st' ≡ count st + 1))
  unfolding catch_fentry_one
  catch_fentry_one-Counted rb byte g st on =
      let size = λ (r : ℕ). single_size byte (r % 19) in
      let (r, st') = get_prandom_u32 st in
      rw on (
        ends (reserve rb (size r) st')
          (omega (arith, count-prandom st, count-reserve rb (size r) st')))
    where
      ends :
          (o : Option Event × State)
          → count o.1 ≡ count st
          → let (g', st') = send h g o in
            ((g' ≡ count_drop g) × (count st' ≡ count st)) ⊎ ((g' ≡ g) × (count st' ≡ count st + 1))
      ends (none, st') e = inl (refl, e)
      ends (some event, st') e = inr (refl, omega (arith, e, count-submit event rb_no_wakeup st'))

  sent-SkippedOrSent :
      (g : Globals) (st0 : State) (o : Bool × State)
      → count o.1 ≡ count st0 + (if o.0 then 0 else 1)
      → SkippedOrSent g st0 (sent h g o)
  sent-SkippedOrSent g st0 (true, st) e = inl (refl, omega (arith, e))
  sent-SkippedOrSent g st0 (false, st) e = inr (refl, e)

  send_entry-SkippedOrSent :
      (byte : ℕ) (g : Globals) (st0 : State) (rb : Option RingBuf) (e : Option Entry × State)
      → count e.1 ≡ count st0
      → SkippedOrSent g st0 (send_entry h byte g rb e)
  send_entry-SkippedOrSent byte g st0 none (e, st) c = inl (refl, c)
  send_entry-SkippedOrSent byte g st0 (some rb) (none, st) c = inl (refl, c)
  send_entry-SkippedOrSent byte g st0 (some rb) (some e, st) c =
      sent-SkippedOrSent g st0 (output rb e byte rb_no_wakeup st)
        (omega (arith, c, count-output rb e byte rb_no_wakeup st))

  -- While the capture is on, each run of `catch_fentry` of multi_ringbuf_output.bpf.c counts one
  -- skipped event or sends one record, and nothing else of its globals changes: an event that
  -- finds its ring buffer full is counted as skipped, and never as a drop.
  pub catch_fentry_output-SkippedOrSent :
      (byte : ℕ) (g : Globals) (st : State)
      → (g.capture_enabled == 0) ≡ false
      → SkippedOrSent g st (catch_fentry_output h byte g st)
  unfolding catch_fentry_output
  catch_fentry_output-SkippedOrSent byte g st on =
      let (cpu, st1) = get_smp_processor_id st in
      let (rb, st2) = lookup_ringbuf cpu st1 in
      rw on (
        send_entry-SkippedOrSent byte g st rb (lookup_heap cpu st2)
          (omega (arith, count-cpu st, count-lookup cpu st1, count-heap cpu st2)))
