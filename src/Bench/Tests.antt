-- ===== src/Bench/Tests.antt =====
-- A test on a ring of 128 bytes whose records all have 16 bytes.
use bpf_ringbuf.Common.{
  false, ℕ, ◌+◌, ◌-◌, ◌^◌, ◌≡◌, refl, Bool, true, ◌&&◌, ◌==◌, leb, none, some, List, [], ◌∷◌, arith,
  if◌then◌else◌,
}
use bpf_ringbuf.Header.{advance, roundup_len, is_busy, is_discarded}
use bpf_ringbuf.Ring.{Ring}
use bpf_ringbuf.Reader.{process_one_from_ring, reload, take_record}
use bpf_ringbuf.Bpf.Programs.{catch_fentry_one}
use bpf_ringbuf.Bpf.Sizes.{single_size}
use bpf_ringbuf.Bpf.{Helpers}
use bpf_ringbuf.Bpf.Example.{on}
use bpf_ringbuf.Bench.{AddsOne, Mapped, Turn, event, read, Bench, turn, turns}
use bpf_ringbuf.Bench.Example.{ring_of, ring_of-AddsOne, answered}
use bpf_ringbuf.Bench.Laws.{Balance, bench-Balance}

-- The consumer and the producer position.
abbrev State : Type 0
State = ℕ × ℕ

abbrev room : ℕ → State → Bool
room n st = n == 16 && (leb (st.1 + 24) (2 ^ 63) && leb (st.1 + 24 - st.0) 128)

abbrev kernel : Helpers
kernel = record {
  State = State;
  RingBuf = ℕ;
  Event = ℕ;
  Entry = ℕ;
  get_smp_processor_id = λ st. (0, st);
  get_prandom_u32 = λ st. (0, st);
  lookup_ringbuf = λ i st. (some 0, st);
  lookup_heap = λ i st. (some 0, st);
  query = λ rb flag st. (st.1 - st.0, st);
  reserve = λ rb n st. (if room n st then some 0 else none, st);
  submit = λ e flag st. (st.0, st.1 + 24);
  output = λ rb e size flag st. (true, st);
}

abbrev view : State → Ring
view st = ring_of st.0 st.1

submit-AddsOne :
    (n ev : ℕ) (st : State)
    → (if room n st then some 0 else none) ≡ some ev
    → AddsOne false (view st) (view (st.0, st.1 + 24))
submit-AddsOne n ev st e =
    let (fits, own) = answered (room n st) 0 ev e in ring_of-AddsOne st.0 st.1 (ground arith)

abbrev mapped : Mapped kernel 0
mapped = record {
  view = view;
  release = λ p st. (p, st.1);
  view-release = λ p st. refl;
  view-prandom = λ st. refl;
  view-full = λ n st e. refl;
  view-submit = λ n flag ev st e. submit-AddsOne n ev st e;
}

abbrev idle_bench : Bench kernel
idle_bench = record { globals = on; kernel = (0, 0); cons_pos = 0; prod_pos = 0; n_elaborated = 0 }

-- The sixth record has no room; then three are read.
abbrev order : List Turn
order = event ∷ event ∷ event ∷ event ∷ event ∷ event ∷ read ∷ read ∷ read ∷ event ∷ []

abbrev afterwards : Bench kernel
afterwards = turns kernel 0 mapped 8 order idle_bench

turns-order : (afterwards.globals.n_drops ≡ 1) × (afterwards.n_elaborated ≡ 3)
unfolding turns turn catch_fentry_one single_size process_one_from_ring reload take_record
    roundup_len is_busy is_discarded advance
turns-order = (refl, refl)

bench-Balance_example : Balance kernel 0 mapped 7 (turns kernel 0 mapped 8 order idle_bench)
bench-Balance_example =
    bench-Balance kernel 0 mapped 8 order idle_bench
      (record { chain = refl; cached = omega arith; released = omega arith; fits = omega arith })
      refl refl refl
