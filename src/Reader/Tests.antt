-- ===== src/Reader/Tests.antt =====
-- The reader on a small ring, and the theorems about it at that ring.
use bpf_ringbuf.Common.{◌+◌, ◌%◌, ◌^◌, ◌≡◌, refl, List, [], ◌∷◌, arith, length}
use bpf_ringbuf.Header.{roundup_len, is_busy, is_discarded, advance}
use bpf_ringbuf.Queue.{Queue, Extends}
use bpf_ringbuf.Ring.Chain.{idle}
use bpf_ringbuf.Ring.Example.{fresh, full, headers, headers-Chain, filling}
use bpf_ringbuf.Reader.{
  Reader, Round, reload, take_record, process_one_from_ring, capture, consume_one,
}
use bpf_ringbuf.Reader.Refine.{Tracks, Pops, process_one_from_ring-pop}
use bpf_ringbuf.Reader.Progress.{Progress}
use bpf_ringbuf.Reader.Fifo.{capture-Progress}
use bpf_ringbuf.Reader.Release.{process_one_from_ring-released}
use bpf_ringbuf.Reader.Offsets.{IsAligned, SampleIn, process_one_from_ring-IsAligned}

abbrev start : Reader
start = record { cons_pos = 0; prod_pos = 0; ring = fresh }

start-Tracks : Tracks start []
start-Tracks = record {
  chain = refl;
  cached = omega arith;
  released = omega arith;
  fits = omega arith;
}

-- A reader in front of the four records.
abbrev at_records : Reader
at_records = record { cons_pos = 0; prod_pos = 0; ring = full }

at_records-Tracks : Tracks at_records headers
at_records-Tracks = record {
  chain = headers-Chain;
  cached = omega arith;
  released = omega arith;
  fits = omega arith;
}

-- The kernel fills the ring before the first call.
abbrev rounds : List Round
rounds =
    record { before = filling; late = idle }
    ∷ record { before = idle; late = idle }
    ∷ record { before = idle; late = filling }
    ∷ record { before = idle; late = idle }
    ∷ []

-- The two samples, their number, and the reader in front of the busy record.
capture_runs :
    ((capture rounds start 0).0 ≡ 8 ∷ 48 ∷ [])
    × ((capture rounds start 0).1 ≡ 2)
    × ((capture rounds start 0).2.cons_pos ≡ 72)
    × ((capture rounds start 0).2.ring.consumer_pos ≡ 72)
unfolding capture consume_one process_one_from_ring reload take_record roundup_len is_busy
    is_discarded advance
capture_runs = (refl, refl, refl, refl)

capture-Progress_example :
    let (samples, n', s') = capture rounds start 5 in
    Progress start [] samples s' × (n' ≡ (5 + length samples) % 2 ^ 64)
capture-Progress_example = capture-Progress rounds start [] 5 (omega arith) start-Tracks

process_one_from_ring-pop_example :
    (q' : Queue) × Extends headers q'
    × Pops at_records (process_one_from_ring filling at_records) q'
process_one_from_ring-pop_example =
    process_one_from_ring-pop filling at_records headers at_records-Tracks

process_one_from_ring-released_example :
    let s' = (process_one_from_ring filling at_records).1 in s'.ring.consumer_pos ≡ s'.cons_pos
process_one_from_ring-released_example =
    process_one_from_ring-released filling at_records (omega arith) refl

process_one_from_ring-IsAligned_example :
    let (sample, s') = process_one_from_ring filling at_records in
    IsAligned 4 s' × SampleIn 128 sample
process_one_from_ring-IsAligned_example =
    process_one_from_ring-IsAligned 4 filling at_records (omega arith)
      (record { position = refl; size = refl })
