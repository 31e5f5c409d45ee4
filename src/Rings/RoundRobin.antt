-- ===== src/Rings/RoundRobin.antt =====
-- multi_ringbuf_reserve/case1.c: one event from one ring, then on to the next ring.

pub mod Laws
pub mod Fair
use mathlib.Core.Option
use bpf_ringbuf.Common.{Option, none, some, if◌then◌else◌, List}
use bpf_ringbuf.Ring.Chain.{Kernel}
use bpf_ringbuf.Reader
use bpf_ringbuf.Rings.{Rings, in_range, reader, store, Sample, tag, switch, Round, Outcome}
use bpf_ringbuf.Rings

-- `ringbuf_process_one_from_ring` is the function of single_ringbuf_reserve/case1.c on the entries
-- of the current ring; `none` is an access out of range.
unfoldable pub process_one_from_ring : Kernel → Rings → Option (Option Sample × Rings)
process_one_from_ring late m =
    let i = m.ringbuf_pos in
    let (sample, s) = Reader.process_one_from_ring late (reader m i) in
    if in_range m i then some (tag i sample, store m i s) else none

-- The loop's body up to its test: the ring is switched after each call.
unfoldable pub iterate : Kernel → Rings → Option (Option Sample × Rings)
iterate late m = Option.map (λ (sample, m'). (sample, switch m')) (process_one_from_ring late m)

unfoldable pub consume_one : List Round → Rings → Outcome
consume_one = Rings.consume_one iterate
