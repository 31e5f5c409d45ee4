-- ===== src/Rings/Sticky.antt =====
-- multi_ringbuf_reserve/case3.c and case4.c: the reader stays on a ring until it reaches the cached
-- producer position, then loads the new one and switches. The two files differ in where the
-- consumer position is stored: `each` is true for case4.c, which stores it at every record, and
-- false for case3.c, which stores it when it reaches the producer position.
pub mod Laws
pub mod Release
pub mod Waits
pub mod Settled
pub mod Returns
pub mod Takes
use mathlib.Core.Option
use bpf_ringbuf.Common.{
  ℕ, Bool, not, ◌||◌, Option, none, some, List, ◌==◌, ltb, leb, true, false, if◌then◌else◌,
}
use bpf_ringbuf.Ring.Chain.{Kernel}
use bpf_ringbuf.Reader.{Reader, take_record}
use bpf_ringbuf.Rings.{Rings, in_range, reader, store, Sample, tag, switch, Round, Outcome}
use bpf_ringbuf.Rings

-- The stores of the block `if(cons_pos >= prod_pos)`.
unfoldable pub reload : Bool → Reader → Reader
reload each s = record s {
  prod_pos = s.ring.producer_pos;
  ring = record s.ring { consumer_pos = if each then s.ring.consumer_pos else s.cons_pos };
}

-- `if(cons_pos != 0 || prod_pos == 0)`, after the reload.
abbrev pub leaves : Reader → Bool
leaves s = not (s.cons_pos == 0) || s.prod_pos == 0

-- `if(cons_pos < prod_pos) { ... }`; the kernel may act between the loads.
unfoldable pub read : Bool → Kernel → Reader → Option ℕ × Reader
read each late s =
    if ltb s.cons_pos s.prod_pos
    then take_record each (record s { ring = late.act s.ring })
    else (none, s)

abbrev stay : Option ℕ × Reader → Bool × Option ℕ × Reader
stay (sample, s) = (false, sample, s)

-- What the call does to the entries of the current ring, and whether it switches the ring.
unfoldable pub visit : Bool → Kernel → Reader → Bool × Option ℕ × Reader
visit each late s =
    if leb s.prod_pos s.cons_pos
    then (if leaves (reload each s)
        then (true, none, reload each s)
        else stay (read each late (reload each s)))
    else stay (read each late s)

unfoldable pub process_one_from_ring : Bool → Kernel → Rings → Option (Option Sample × Rings)
process_one_from_ring each late m =
    let i = m.ringbuf_pos in
    let (switches, sample, s) = visit each late (reader m i) in
    if in_range m i
    then some (tag i sample, if switches then switch (store m i s) else store m i s)
    else none

-- The functions of the two files.
abbrev pub case3 : Kernel → Rings → Option (Option Sample × Rings)
case3 = process_one_from_ring false

abbrev pub case4 : Kernel → Rings → Option (Option Sample × Rings)
case4 = process_one_from_ring true

-- The body of the loop of `ring_buffer__consume_one` is this call and its test.
unfoldable pub consume_one : Bool → List Round → Rings → Outcome
consume_one each = Rings.consume_one (process_one_from_ring each)

-- The functions of the two files.
abbrev pub case3_consume_one : List Round → Rings → Outcome
case3_consume_one = consume_one false

abbrev pub case4_consume_one : List Round → Rings → Outcome
case4_consume_one = consume_one true
