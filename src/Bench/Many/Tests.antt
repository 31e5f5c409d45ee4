-- ===== src/Bench/Many/Tests.antt =====
-- A test with two rings of 128 bytes whose records all have 16 bytes.
use bpf_ringbuf.Common.{
  ℕ, ◌+◌, ◌-◌, ◌<◌, ◌^◌, ◌≡◌, refl, sym, Bool, true, false, ◌&&◌, ◌==◌, ltb, leb, Option, none,
  some, List, [], ◌∷◌, ◌++◌, arith, update, if◌then◌else◌,
}
use mathlib.Core.Option
use bpf_ringbuf.Header.{advance, roundup_len, is_busy, is_discarded}
use bpf_ringbuf.Reader
use bpf_ringbuf.Reader.{reload, take_record}
use bpf_ringbuf.Ring.{Ring}
use bpf_ringbuf.Rings.Store.{==-refl}
use bpf_ringbuf.Rings.RoundRobin
use bpf_ringbuf.Rings.Sticky
use bpf_ringbuf.Bpf.{Helpers}
use bpf_ringbuf.Bpf.Sizes.{reserve_size}
use bpf_ringbuf.Bpf.Programs.{select_ringbuf, catch_fentry}
use bpf_ringbuf.Bpf.Example.{on}
use bpf_ringbuf.Bench.{AddsOne, Turn, event, read, reads}
use bpf_ringbuf.Bench.Example.{ring_of, ring_of-AddsOne, answered}
use bpf_ringbuf.Bench.Many.{Mapped, Bench, turn, turns}
use bpf_ringbuf.Bench.Many.Balance.{Balanced}
use bpf_ringbuf.Bench.Many.Laws.{benches-Balance}
use bpf_ringbuf.Bench.Many.Drains.{Drained, benches-Drains}

-- The consumer and the producer positions.
abbrev State : Type 0
State = (ℕ → ℕ) × (ℕ → ℕ)

abbrev room : ℕ → ℕ → State → Bool
room i n st = n == 16 && (leb (st.1 i + 24) (2 ^ 63) && leb (st.1 i + 24 - st.0 i) 128)

-- The CPU that an event comes from is that of ring 1 once ring 0 has two records.
abbrev kernel : Helpers
kernel = record {
  State = State;
  RingBuf = ℕ;
  Event = ℕ;
  Entry = ℕ;
  get_smp_processor_id = λ st. (if ltb (st.1 0) 48 then 0 else 1, st);
  get_prandom_u32 = λ st. (0, st);
  lookup_ringbuf = λ i st. (if ltb i 2 then some i else none, st);
  lookup_heap = λ i st. (some 0, st);
  query = λ rb flag st. (st.1 rb - st.0 rb, st);
  reserve = λ rb n st. (if room rb n st then some rb else none, st);
  submit = λ e flag st. (st.0, update st.1 e (st.1 e + 24));
  output = λ rb e size flag st. (true, st);
}

abbrev view : State → ℕ → Ring
view st i = ring_of (st.0 i) (st.1 i)

submit-AddsOne :
    (rb n ev : ℕ) (st : State)
    → (if room rb n st then some rb else none) ≡ some ev
    → AddsOne false (view st rb) (view (st.0, update st.1 ev (st.1 ev + 24)) rb)
submit-AddsOne rb n ev st e =
    let (fits, own) = answered (room rb n st) rb ev e in
    rw (sym own, ==-refl rb) (ring_of-AddsOne (st.0 rb) (st.1 rb) (ground arith))

submit-others :
    (rb n ev : ℕ) (st : State)
    → (if room rb n st then some rb else none) ≡ some ev
    → (j : ℕ) → (rb == j) ≡ false
    → view (st.0, update st.1 ev (st.1 ev + 24)) j ≡ view st j
submit-others rb n ev st e j other =
    let (fits, own) = answered (room rb n st) rb ev e in rw (sym own, other) refl

lookup_index : (i rb : ℕ) → (if ltb i 2 then some i else none) ≡ some rb → rb < 2
lookup_index i rb e = let (small, own) = answered (ltb i 2) i rb e in ground arith

abbrev mapped : Mapped kernel 2
mapped = record {
  view = view;
  index = λ rb. rb;
  release = λ i p st. (update st.0 i p, st.1);
  view-release = λ i p st. rw (==-refl i) refl;
  view-others = λ i p st j other. rw other refl;
  view-cpu = λ st. refl;
  view-prandom = λ st. refl;
  view-lookup = λ i st. refl;
  view-query = λ rb flag st. refl;
  index-lookup = λ i st rb e. lookup_index i rb e;
  view-full = λ rb n st e. refl;
  view-submit = λ rb n flag ev st lt e. submit-AddsOne rb n ev st e;
  submit-others = λ rb n flag ev st e j other. submit-others rb n ev st e j other;
}

abbrev at_rest : Bench kernel
at_rest = record {
  globals = on;
  kernel = (λ i. 0, λ i. 0);
  cons_pos = λ i. 0;
  prod_pos = λ i. 0;
  n_cpus = 2;
  ring_cnt = 2;
  ringbuf_pos = 0;
  n_elaborated = 0;
}

abbrev order : List Turn
order =
    event ∷ event ∷ event ∷ read ∷ event ∷ event ∷ event ∷ event ∷ event ∷ read ∷ read ∷ read ∷ []

-- `n_drops`, `n_skipped` and `n_elaborated`.
abbrev counters : Option (Bench kernel) → List ℕ
counters none = []
counters (some b) = b.globals.n_drops ∷ b.globals.n_skipped ∷ b.n_elaborated ∷ []

-- Two records in ring 0 and one in ring 1; the reader takes one of each ring.
round_robin-order :
    counters (
      turns kernel 2 mapped RoundRobin.iterate false 8
        (event ∷ event ∷ event ∷ read ∷ read ∷ [])
        at_rest)
    ≡ 0 ∷ 0 ∷ 2 ∷ []
unfolding turns turn Option.bind catch_fentry select_ringbuf reserve_size RoundRobin.iterate
    RoundRobin.process_one_from_ring Reader.process_one_from_ring reload take_record roundup_len
    is_busy is_discarded advance
round_robin-order = refl

benches-Balance_example :
    Balanced kernel 2 mapped 8 (turns kernel 2 mapped RoundRobin.iterate false 8 order at_rest)
    × Balanced kernel 2 mapped 8 (turns kernel 2 mapped Sticky.case3 false 8 order at_rest)
    × Balanced kernel 2 mapped 8 (turns kernel 2 mapped Sticky.case4 false 8 order at_rest)
benches-Balance_example =
    benches-Balance kernel 2 mapped false 8 order at_rest
      (record { current = omega arith; allocated = omega arith }) refl
      (λ i lt. record {
        chain = refl;
        cached = omega arith;
        released = omega arith;
        fits = omega arith;
      })
      refl refl refl refl

-- Eight events and two rings.
benches-Drains_example :
    Drained kernel 2 mapped 8
      (turns kernel 2 mapped RoundRobin.iterate false 8 (order ++ reads 32) at_rest)
    × Drained kernel 2 mapped 8
        (turns kernel 2 mapped Sticky.case3 false 8 (order ++ reads 32) at_rest)
    × Drained kernel 2 mapped 8
        (turns kernel 2 mapped Sticky.case4 false 8 (order ++ reads 32) at_rest)
benches-Drains_example =
    benches-Drains kernel 2 mapped false 8 order 32 at_rest
      (record { current = omega arith; allocated = omega arith }) refl
      (λ i lt. record {
        chain = refl;
        cached = omega arith;
        released = omega arith;
        fits = omega arith;
      })
      refl refl refl refl (omega arith)
