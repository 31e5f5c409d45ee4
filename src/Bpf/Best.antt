-- ===== src/Bpf/Best.antt =====
-- `get_best_buffer` of multi_ringbuf_reserve.bpf.c: the ring buffer with the least data to read.
pub mod Least
use bpf_ringbuf.Common.{
  ℕ, zero, suc, ◌+◌, ◌*◌, List, [], ◌∷◌, Option, none, some, leb, if◌then◌else◌,
}
use bpf_ringbuf.Bpf.{Helpers, rb_avail_data}

-- The first value of `min_remained`.
abbrev pub first_min : ℕ
first_min = 16 * 1024 * 1024

module _ (h : Helpers) where
  open h use {State, RingBuf, lookup_ringbuf, query}

  -- `min_remained`, `chosen_rb`, and the kernel's state.
  abbrev pub Choice : Type 0
  Choice = ℕ × Option RingBuf × State

  -- The body of the loop after the lookup. The test is `rb_remained <= min_remained`.
  abbrev pub weigh : Option RingBuf × State → ℕ → Option RingBuf → Choice
  weigh (none, st) min_remained chosen = (min_remained, chosen, st)
  weigh (some rb, st) min_remained chosen =
      let (rb_remained, st') = query rb rb_avail_data st in
      let less = leb rb_remained min_remained in
      (if less then rb_remained else min_remained, if less then some rb else chosen, st')

  -- `for(j = 0; j < max; j++)`, with the iterations that are left.
  unfoldable pub choose_from : ℕ → ℕ → ℕ → Option RingBuf → State → Option RingBuf × State
  choose_from zero j min_remained chosen st = (chosen, st)
  choose_from (suc left) j min_remained chosen st =
      let (min', chosen', st') = weigh (lookup_ringbuf j st) min_remained chosen in
      choose_from left (j + 1) min' chosen' st'

  unfoldable pub get_best_buffer : ℕ → State → Option RingBuf × State
  get_best_buffer n_cpus st = choose_from n_cpus 0 first_min none st
