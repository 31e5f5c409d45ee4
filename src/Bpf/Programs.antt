-- ===== src/Bpf/Programs.antt =====
-- The three programs attached to `fentry/__x64_sys_getpgid`: `catch_fentry` of
-- multi_ringbuf_reserve.bpf.c and of multi_ringbuf_output.bpf.c, `catch_fentry_one` of
-- single_ringbuf_reserve.bpf.c. Each returns 0.
pub mod Outcome
pub mod Switch
pub mod Total
use bpf_ringbuf.Common.{
  ℕ, zero, suc, ◌%◌, Bool, true, false, Option, none, some, ◌==◌, if◌then◌else◌,
}
use bpf_ringbuf.Bpf.{rb_no_wakeup, Helpers, Globals, count_drop, count_skip}
use bpf_ringbuf.Bpf.Sizes.{reserve_size, single_size}
use bpf_ringbuf.Bpf.Best.{get_best_buffer}

module _ (h : Helpers) where
  open h use {
    State, RingBuf, Event, Entry, get_smp_processor_id, get_prandom_u32, lookup_ringbuf,
    lookup_heap, reserve, submit, output,
  }

  -- The end of the two reserving programs: `if(!event) { n_drops++; return 0; }`, and the submit.
  abbrev pub send : Globals → Option Event × State → Globals × State
  send g (none, st) = (count_drop g, st)
  send g (some event, st) = (g, submit event rb_no_wakeup st)

  -- The `switch` over the random number, whose cases ask for `size`.
  abbrev pub reserve_some : Globals → (ℕ → ℕ) → RingBuf → State → Globals × State
  reserve_some g size rb st = let (r, st') = get_prandom_u32 st in send g (reserve rb (size r) st')

  abbrev pub with_ringbuf :
      (RingBuf → State → Globals × State) → Globals → Option RingBuf × State → Globals × State
  with_ringbuf body g (none, st) = (count_skip g, st)
  with_ringbuf body g (some rb, st) = body rb st

  -- The ring buffer of the current CPU, or under CUSTOMIZED the one with the least data.
  unfoldable pub select_ringbuf : Bool → ℕ → State → Option RingBuf × State
  select_ringbuf true n_cpus st = get_best_buffer h n_cpus st
  select_ringbuf false n_cpus st =
      let (cpu, st') = get_smp_processor_id st in lookup_ringbuf cpu st'

  -- multi_ringbuf_reserve.bpf.c.
  unfoldable pub catch_fentry : Bool → ℕ → ℕ → Globals → State → Globals × State
  catch_fentry customized byte n_cpus g st =
      if g.capture_enabled == 0
      then (g, st)
      else with_ringbuf (reserve_some g (λ r. reserve_size byte (r % 7))) g
          (select_ringbuf customized n_cpus st)

  -- single_ringbuf_reserve.bpf.c; `rb` is the map itself.
  unfoldable pub catch_fentry_one : RingBuf → ℕ → Globals → State → Globals × State
  catch_fentry_one rb byte g st =
      if g.capture_enabled == 0
      then (g, st)
      else reserve_some g (λ r. single_size byte (r % 19)) rb st

  -- `if(err != 0) n_skipped++;`
  abbrev pub sent : Globals → Bool × State → Globals × State
  sent g (err, st) = (if err then count_skip g else g, st)

  -- `if(!rb || !e)`: both lookups are made first.
  abbrev pub send_entry : ℕ → Globals → Option RingBuf → Option Entry × State → Globals × State
  send_entry byte g none (e, st) = (count_skip g, st)
  send_entry byte g (some rb) (none, st) = (count_skip g, st)
  send_entry byte g (some rb) (some e, st) = sent g (output rb e byte rb_no_wakeup st)

  -- multi_ringbuf_output.bpf.c; `sizeof(*e)` is BYTE.
  unfoldable pub catch_fentry_output : ℕ → Globals → State → Globals × State
  catch_fentry_output byte g st =
      if g.capture_enabled == 0
      then (g, st)
      else (let (cpu, st1) = get_smp_processor_id st in
          let (rb, st2) = lookup_ringbuf cpu st1 in send_entry byte g rb (lookup_heap cpu st2))
