-- ===== src/Rings/Tests.antt =====
-- Two rings, the first empty and the second with four records, read by each case; and the theorems
-- at these rings.
use mathlib.Core.Option
use bpf_ringbuf.Common.{
  ℕ, zero, suc, ◌≡◌, refl, List, [], ◌∷◌, Option, some, true, false, arith, ◌==◌, leb,
  if◌then◌else◌,
}
use bpf_ringbuf.Header.{is_busy, is_discarded, roundup_len, advance}
use bpf_ringbuf.Ring.Chain.{idle}
use bpf_ringbuf.Ring.Example.{fresh, full, headers, headers-Chain, filling}
use bpf_ringbuf.Reader
use bpf_ringbuf.Reader.{Reader, take_record}
use bpf_ringbuf.Reader.Refine.{Tracks}
use bpf_ringbuf.Rings.{Rings, reader, Sample, Round, running}
use bpf_ringbuf.Rings
use bpf_ringbuf.Rings.Progress.{IsValid}
use bpf_ringbuf.Rings.RoundRobin
use bpf_ringbuf.Rings.RoundRobin.Fair.{Returns, consume_one-Returns}
use bpf_ringbuf.Rings.Sticky
use bpf_ringbuf.Rings.Sticky.Release.{visit-consumer_pos, visit-released}
use bpf_ringbuf.Rings.Sticky.Settled.{AllSettled, Commits}
use bpf_ringbuf.Rings.Sticky.Returns.{consume_one-Terminates}
use bpf_ringbuf.Ring.{Ring}
use bpf_ringbuf.Queue.{Extends-refl}
use bpf_ringbuf.Rings.Sticky.Waits.{consume_one-Waits}

abbrev two_rings : Rings
two_rings = record {
  cons_pos = λ _. 0;
  prod_pos = λ _. 0;
  n_cpus = 2;
  rings = λ i. if i == 1 then full else fresh;
  ring_cnt = 2;
  ringbuf_pos = 0;
}

abbrev quiet : Round
quiet = record { before = λ _. idle; late = idle }

-- The kernel fills a ring while it is read.
abbrev noisy : Round
noisy = record { before = λ _. idle; late = filling }

abbrev calls : List (List Round)
calls =
    (quiet ∷ quiet ∷ quiet ∷ [])
    ∷ (quiet ∷ quiet ∷ quiet ∷ quiet ∷ quiet ∷ quiet ∷ [])
    ∷ (quiet ∷ noisy ∷ quiet ∷ [])
    ∷ []

abbrev samples_of : Option (List Sample × ℕ × Rings) → Option (List Sample × ℕ)
samples_of = Option.map (λ (samples, n, m). (samples, n))

-- Both samples of the second ring; the third call waits.
round_robin_runs :
    samples_of (Rings.capture RoundRobin.iterate calls two_rings 0)
    ≡ some ((1, 8) ∷ (1, 48) ∷ [], 2)
unfolding Rings.capture Rings.consume_one RoundRobin.iterate RoundRobin.process_one_from_ring
    Reader.process_one_from_ring Reader.reload take_record roundup_len is_busy is_discarded advance
round_robin_runs = refl

sticky_runs :
    samples_of (Rings.capture (Sticky.process_one_from_ring false) calls two_rings 0)
    ≡ some ((1, 8) ∷ (1, 48) ∷ [], 2)
unfolding Rings.capture Rings.consume_one Sticky.process_one_from_ring Sticky.visit Sticky.read
    Sticky.reload take_record roundup_len is_busy is_discarded advance
sticky_runs = refl

two_rings-IsValid : IsValid two_rings
two_rings-IsValid = record { current = omega arith; allocated = omega arith }

second-Tracks : Tracks (reader two_rings 1) headers
second-Tracks = record {
  chain = headers-Chain;
  cached = omega arith;
  released = omega arith;
  fits = omega arith;
}

-- From the empty ring the full one is reached in two iterations.
consume_one-Returns_example : Returns (RoundRobin.consume_one (noisy ∷ noisy ∷ []) two_rings)
unfolding is_busy is_discarded
consume_one-Returns_example =
    consume_one-Returns (noisy ∷ noisy ∷ []) two_rings 1 headers two_rings-IsValid (omega arith)
      second-Tracks (refl, refl) (omega arith)

-- In front of the second ring's busy record, with the whole ring known.
abbrev at_busy : Rings
at_busy = record two_rings { cons_pos = λ _. 72; prod_pos = λ _. 88; ringbuf_pos = 1 }

visit-consumer_pos_example :
    let (switches, sample, s') = Sticky.visit false filling (reader at_busy 1) in
    s'.ring.consumer_pos ≡ (if leb 88 72 then 72 else 0)
visit-consumer_pos_example = visit-consumer_pos filling (reader at_busy 1) (omega arith)

visit-released_example :
    let (switches, sample, s') = Sticky.visit true filling (reader two_rings 1) in
    s'.ring.consumer_pos ≡ s'.cons_pos
visit-released_example = visit-released filling (reader two_rings 1) (omega arith) refl

consume_one-Waits_example :
    (m' : Rings) × (Sticky.consume_one true (quiet ∷ quiet ∷ []) at_busy ≡ running m')
    × (m'.ringbuf_pos ≡ 1)
unfolding is_busy
consume_one-Waits_example =
    consume_one-Waits true (quiet ∷ quiet ∷ []) at_busy 1 72
      (record { current = omega arith; allocated = omega arith }) refl
      (record { position = refl; known = omega arith; busy = refl })
      (λ r h. h, λ r h. h, (λ r h. h, λ r h. h, tt))

-- Two committed records, of which the first has been read.
abbrev committed : Ring
committed = record { data_word = λ _. 16; consumer_pos = 24; producer_pos = 48; mask = 127 }

abbrev one_left : Rings
one_left = record two_rings {
  cons_pos = λ i. if i == 1 then 24 else 0;
  prod_pos = λ i. if i == 1 then 24 else 0;
  rings = λ i. if i == 1 then committed else fresh;
}

idle-Commits : Commits idle
idle-Commits r p q small released chain c = (q, Extends-refl q, chain, c)

one_left-AllSettled : AllSettled one_left
unfolding roundup_len is_busy is_discarded
one_left-AllSettled zero lt = (
  [],
  record { chain = refl; cached = omega arith; released = omega arith; fits = omega arith },
  tt,
)
one_left-AllSettled (suc zero) lt = (
  16 ∷ [],
  record { chain = (refl, refl); cached = omega arith; released = omega arith; fits = omega arith },
  ((refl, refl), tt),
)
one_left-AllSettled (suc (suc i)) lt = absurd (omega (arith, lt))

-- Ring 0 is left, ring 1 is loaded and left, ring 0 is left, and then the record is read.
consume_one-Terminates_example :
    Returns (Sticky.case3_consume_one (quiet ∷ quiet ∷ quiet ∷ quiet ∷ []) one_left)
    × Returns (Sticky.case4_consume_one (quiet ∷ quiet ∷ quiet ∷ quiet ∷ []) one_left)
consume_one-Terminates_example =
    consume_one-Terminates (quiet ∷ quiet ∷ quiet ∷ quiet ∷ []) one_left 1
      (record { current = omega arith; allocated = omega arith }) one_left-AllSettled (omega arith)
      (omega arith) (once, (once, (once, (once, tt)))) (omega arith)
  where
    once : ((i : ℕ) → Commits idle) × Commits idle
    once = (λ i. idle-Commits, idle-Commits)
