-- ===== src/Rings/Agree/Tests.antt =====
-- Two rings whose data words are all 16: one record in ring 0, two in ring 1.
use bpf_ringbuf.Common.{
  ℕ, ◌<◌, ◌≡◌, refl, [], ◌∷◌, arith, ◌==◌, if◌then◌else◌, Bool-cases, inl, inr,
}
use bpf_ringbuf.Header.{is_busy, is_discarded, roundup_len}
use bpf_ringbuf.Queue.{Queue}
use bpf_ringbuf.Queue.Committed.{Committed}
use bpf_ringbuf.Reader.Refine.{Tracks}
use bpf_ringbuf.Rings.{Rings, reader, capture}
use bpf_ringbuf.Rings.RoundRobin
use bpf_ringbuf.Rings.Sticky
use bpf_ringbuf.Rings.Sticky.{reload, read, visit, process_one_from_ring}
use bpf_ringbuf.Rings.Deliver.{Full}
use bpf_ringbuf.Rings.ReadsAll.{calls_at_rest}
use bpf_ringbuf.Rings.Agree.{delivery, cases-Agree}

abbrev two_rings : Rings
two_rings = record {
  cons_pos = λ i. 0;
  prod_pos = λ i. 0;
  n_cpus = 2;
  rings = λ i. record {
    data_word = λ _. 16;
    consumer_pos = 0;
    producer_pos = if i == 0 then 24 else 48;
    mask = 127;
  };
  ring_cnt = 2;
  ringbuf_pos = 0;
}

abbrev records : ℕ → Queue
records i = if i == 0 then 16 ∷ [] else 16 ∷ 16 ∷ []

records_held : (i : ℕ) → i < 2 → Committed (records i) × Tracks (reader two_rings i) (records i)
unfolding is_busy is_discarded roundup_len
records_held i lt = elim (Bool-cases (i == 0)) [
  | inl first ↦ rw first (
    ((refl, refl), tt),
    record {
      chain = (refl, refl);
      cached = omega arith;
      released = omega arith;
      fits = omega arith;
    },
  )
  | inr second ↦ rw second (
    ((refl, refl), ((refl, refl), tt)),
    record {
      chain = (refl, (refl, refl));
      cached = omega arith;
      released = omega arith;
      fits = omega arith;
    },
  )
]

two_rings-Full : Full 2 two_rings records
two_rings-Full = record {
  valid = record { current = omega arith; allocated = omega arith };
  count = refl;
  held = records_held;
}

cases-Agree_example :
    let case1 = capture RoundRobin.iterate (calls_at_rest 4 4) two_rings 0 in
    let case3 = capture Sticky.case3 (calls_at_rest 4 4) two_rings 0 in
    let case4 = capture Sticky.case4 (calls_at_rest 4 4) two_rings 0 in
    (delivery 2 case1 ≡ delivery 2 case3) × (delivery 2 case3 ≡ delivery 2 case4)
cases-Agree_example = cases-Agree 2 4 4 two_rings records two_rings-Full (omega arith) (omega arith)
