-- ===== src/Rings/RoundRobin/Laws.antt =====
-- What multi_ringbuf_reserve/case1.c reads of each ring.
use bpf_ringbuf.Common.{ℕ, ◌+◌, ◌%◌, ◌^◌, ◌<◌, refl, List, arith}
use bpf_ringbuf.Queue.{Queue}
use bpf_ringbuf.Reader.Refine.{Tracks}
use bpf_ringbuf.Reader.Fifo.{process-Progress}
use bpf_ringbuf.Rings.{Rings, in_range, reader, store, Sample, tag, switch, Round}
use bpf_ringbuf.Rings
use bpf_ringbuf.Rings.Progress.{IsValid, IterationReads, CaptureReads, capture-CaptureReads}
use bpf_ringbuf.Rings.Store.{IsValid-in_range, store-Reads}
use bpf_ringbuf.Rings.RoundRobin.{process_one_from_ring, iterate}

pub iterate-Reads : IterationReads iterate
unfolding iterate process_one_from_ring
iterate-Reads late m i q v t = rw (IsValid-in_range m v) (
  _,
  _,
  refl,
  store-Reads m v i q t _ _ ((m.ringbuf_pos + 1) % m.ring_cnt) (omega arith)
      (process-Progress late (reader m m.ringbuf_pos)),
)

-- A capture of case 1 on valid rings makes no access out of range, whatever the kernel does and
-- however long the calls run: each ring that is tracked is read as a queue, every record once and
-- in order, and `n_elaborated` counts the samples of all rings.
pub round_robin-CaptureReads :
    (calls : List (List Round)) (m : Rings) (i : ℕ) (q : Queue) (n : ℕ)
    → n < 2 ^ 64
    → IsValid m
    → Tracks (reader m i) q
    → CaptureReads m i q n (Rings.capture iterate calls m n)
round_robin-CaptureReads calls m i q n small v t =
    capture-CaptureReads iterate iterate-Reads i calls m q n small v t
