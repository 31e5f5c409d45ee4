-- ===== src/Rings/Sticky/Release.antt =====
-- When multi_ringbuf_reserve/case3.c and case4.c tell the kernel what they have read.
use bpf_ringbuf.Common.{◌<◌, ◌^◌, ◌≡◌, true, false, arith, leb, if◌then◌else◌}
use bpf_ringbuf.Ring.Chain.{Kernel}
use bpf_ringbuf.Reader.{Reader, take_record}
use bpf_ringbuf.Rings.Sticky.{reload, read, visit}

take_record-consumer_pos :
    (s : Reader) → (take_record false s).1.ring.consumer_pos ≡ s.ring.consumer_pos
unfolding take_record
take_record-consumer_pos s = ground arith

read-consumer_pos :
    (late : Kernel) (s : Reader)
    → s.ring.producer_pos < 2 ^ 64
    → (read false late s).1.ring.consumer_pos ≡ s.ring.consumer_pos
unfolding read
read-consumer_pos late s fits = ground (
  arith,
  take_record-consumer_pos (record s { ring = late.act s.ring }),
  (late.grows s.ring fits).same_consumer,
)

-- Case 3: a call stores the consumer position exactly if it has reached the producer position that
-- it knew, and then the position at which the call began; so the kernel may not reuse the space
-- of a sample that the call hands out.
pub visit-consumer_pos :
    (late : Kernel) (s : Reader)
    → s.ring.producer_pos < 2 ^ 64
    → let (switches, sample, s') = visit false late s in
      s'.ring.consumer_pos ≡ (if leb s.prod_pos s.cons_pos then s.cons_pos else s.ring.consumer_pos)
unfolding visit reload
visit-consumer_pos late s fits =
    ground (arith, read-consumer_pos late s fits, read-consumer_pos late (reload false s) fits)

take_record-released :
    (s : Reader)
    → s.ring.consumer_pos ≡ s.cons_pos
    → (take_record true s).1.ring.consumer_pos ≡ (take_record true s).1.cons_pos
unfolding take_record
take_record-released s e = ground arith

read-released :
    (late : Kernel) (s : Reader)
    → s.ring.producer_pos < 2 ^ 64
    → s.ring.consumer_pos ≡ s.cons_pos
    → (read true late s).1.ring.consumer_pos ≡ (read true late s).1.cons_pos
unfolding read
read-released late s fits e = ground (
  arith,
  take_record-released (record s { ring = late.act s.ring }),
  (late.grows s.ring fits).same_consumer,
)

-- Case 4: a call that begins with the consumer position stored ends so, whatever it reads: each
-- record is released as it is read.
pub visit-released :
    (late : Kernel) (s : Reader)
    → s.ring.producer_pos < 2 ^ 64
    → s.ring.consumer_pos ≡ s.cons_pos
    → let (switches, sample, s') = visit true late s in s'.ring.consumer_pos ≡ s'.cons_pos
unfolding visit reload
visit-released late s fits e =
    ground (arith, read-released late s fits, read-released late (reload true s) fits)
