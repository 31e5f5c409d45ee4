-- ===== src/Reader/Release.antt =====
-- When the reader of single_ringbuf_reserve/case1.c gives the space of a record back to the kernel.
use bpf_ringbuf.Common.{◌<◌, ◌^◌, ◌≡◌, true, arith}
use bpf_ringbuf.Ring.Chain.{Kernel}
use bpf_ringbuf.Reader.{Reader, reload, take_record, process_one_from_ring}

take_record-released :
    (s : Reader)
    → s.ring.consumer_pos ≡ s.cons_pos
    → (take_record true s).1.ring.consumer_pos ≡ (take_record true s).1.cons_pos
unfolding take_record
take_record-released s e = ground arith

-- A reader whose position is what the kernel was told last is left so by every call, whatever the
-- call finds and whatever the kernel does meanwhile: a record is released as soon as it is read,
-- also the one that the call hands out.
pub process_one_from_ring-released :
    (late : Kernel) (s : Reader)
    → s.ring.producer_pos < 2 ^ 64
    → s.ring.consumer_pos ≡ s.cons_pos
    → let s' = (process_one_from_ring late s).1 in s'.ring.consumer_pos ≡ s'.cons_pos
unfolding process_one_from_ring reload
process_one_from_ring-released late s fits e = ground (
  arith,
  (late.grows s.ring fits).same_consumer,
  take_record-released (record (reload s) { ring = late.act s.ring }),
)
