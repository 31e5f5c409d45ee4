-- ===== src/Bench/Cpus/Tests.antt =====
-- A test whose ring has room for one record, of 16 bytes.
use mathlib.Core.Option.{some-ne-none}
use bpf_ringbuf.Common.{
  ℕ, ◌+◌, ◌^◌, ◌≡◌, refl, sym, ap, ◌∙◌, Bool, true, false, ◌&&◌, not, ◌==◌, leb, Option, none, some,
  List, [], ◌∷◌, ◌++◌, length, arith, if◌then◌else◌, Bool-cases, inl, inr,
}
use bpf_ringbuf.Header.{advance, roundup_len, is_busy, is_discarded}
use bpf_ringbuf.Queue.Committed.{length-append}
use bpf_ringbuf.Ring.{Ring}
use bpf_ringbuf.Reader.Refine.{Tracks}
use bpf_ringbuf.Reader.{process_one_from_ring, reload, take_record}
use bpf_ringbuf.Bpf.{Helpers}
use bpf_ringbuf.Bpf.Sizes.{single_size}
use bpf_ringbuf.Bench.{AddsOne}
use bpf_ringbuf.Bench.Example.{answered}
use bpf_ringbuf.Bench.Cpus.Example.{ring_with, ring_with-AddsOne, ring_with-Submits, nothing_else}
use bpf_ringbuf.Bench.Cpus.{
  Submits, Mapped, Step, start, finish, read, Bench, reserve_one, step, steps, reads,
}
use bpf_ringbuf.Bench.Cpus.Whole.Settles.{Settles, single_test-Settles}
use bpf_ringbuf.Cases.Laws.{fresh_reader}
use bpf_ringbuf.Loader.Main.{single_main}
use bpf_ringbuf.Loader.Steps.{bump_memlock_rlimit, open_skeleton}
use bpf_ringbuf.Bench.Cpus.Whole.{begin, single_test}
use bpf_ringbuf.Bench.Cpus.Whole.Prints.{EndsWell, single_test-Prints}
use bpf_ringbuf.Loader.Example.{all_well, one_ring, single_main-all_well}

-- The consumer and the producer position, and whether the record is busy.
abbrev State : Type 0
State = ℕ × ℕ × Bool

abbrev room : ℕ → State → Bool
room n (consumer, producer, busy) =
    n == 16 && (not busy && (consumer == producer && leb (producer + 24) (2 ^ 63)))

abbrev kernel : Helpers
kernel = record {
  State = State;
  RingBuf = ℕ;
  Event = ℕ;
  Entry = ℕ;
  get_smp_processor_id = λ st. (0, st);
  get_prandom_u32 = λ st. (0, st);
  lookup_ringbuf = λ i st. (some 0, st);
  lookup_heap = λ i st. (some 0, st);
  query = λ rb flag st. (0, st);
  reserve = λ rb n st.
      (if room n st then some 0 else none, if room n st then (st.0, st.1 + 24, true) else st);
  submit = λ e flag st. (st.0, st.1, false);
  output = λ rb e size flag st. (true, st);
}

abbrev view : State → Ring
view (consumer, producer, busy) = ring_with consumer producer busy

abbrev pending : State → List ℕ
pending (consumer, producer, busy) = if busy then 0 ∷ [] else []

reserve-AddsOne :
    (consumer producer : ℕ) (busy : Bool)
    → room 16 (consumer, producer, busy) ≡ true
    → AddsOne true (view (consumer, producer, busy)) (view (consumer, producer + 24, true))
reserve-AddsOne consumer producer busy fits =
    ring_with-AddsOne consumer producer busy (ground arith) (ground arith)

-- A submit of the one record that is reserved.
submit-Submits :
    (consumer producer : ℕ) (busy : Bool)
    → length (pending (consumer, producer, busy)) ≡ 1
    → Submits 1 (view (consumer, producer, busy)) (view (consumer, producer, false))
submit-Submits consumer producer false e = absurd (omega arith)
submit-Submits consumer producer true e = ring_with-Submits consumer producer

pending_one : (st : State) (k : ℕ) → length (pending st) ≡ k + 1 → k ≡ 0
pending_one (consumer, producer, true) k e = omega arith
pending_one (consumer, producer, false) k e = absurd (omega arith)

split-length :
    (st : State) (before after : List ℕ) (event : ℕ)
    → pending st ≡ before ++ (event ∷ after)
    → (length (pending st) ≡ 1) × (length before + length after ≡ 0)
split-length st before after event e =
    let whole = ap length e ∙ length-append before (event ∷ after) in
    let none_else = pending_one st (length before + length after) (omega (arith, whole)) in
    (omega (arith, whole), none_else)

reserved :
    (st : State) (n event : ℕ)
    → (if room n st then some 0 else none) ≡ some event
    → (n ≡ 16) × (room 16 st ≡ true) × (event ≡ 0) × (room n st ≡ true)
reserved st n event e =
    let (fits, own) = answered (room n st) 0 event e in
    let size : n ≡ 16 = ground arith in (size, rw size at fits, sym own, fits)

-- What the kernel has reserved, if anything.
abbrev place : ℕ → State → Option ℕ
place n st = if room n st then some 0 else none

view-full :
    (n : ℕ) (st : State)
    → place n st ≡ none
    → (if room n st then (st.0, st.1 + 24, true) else st) ≡ st
view-full n st e = elim (Bool-cases (room n st)) [
  | inl fits ↦ absurd (some-ne-none 0 (rw fits at e))
  | inr full ↦ rw full refl
]

view-reserve :
    (n event : ℕ) (st : State)
    → (if room n st then some 0 else none) ≡ some event
    → AddsOne true (view st) (view (if room n st then (st.0, st.1 + 24, true) else st))
view-reserve n event st e =
    let (size, fits, own, now) = reserved st n event e in
    rw now (reserve-AddsOne st.0 st.1 st.2 fits)

pending-reserve :
    (n event : ℕ) (st : State)
    → (if room n st then some 0 else none) ≡ some event
    → pending (if room n st then (st.0, st.1 + 24, true) else st) ≡ event ∷ pending st
pending-reserve n event st e =
    let (size, fits, own, now) = reserved st n event e in
    let idle : st.2 ≡ false = ground arith in rw (now, own, idle) refl

view-submit :
    (before after : List ℕ) (event : ℕ) (st : State)
    → pending st ≡ before ++ (event ∷ after)
    → Submits (length (pending st)) (view st) (view (st.0, st.1, false))
view-submit before after event st e =
    let one = (split-length st before after event e).0 in rw one (submit-Submits st.0 st.1 st.2 one)

abbrev mapped : Mapped kernel 0
mapped = record {
  view = view;
  pending = pending;
  release = λ p st. (p, st.1, st.2);
  view-release = λ p st. refl;
  pending-release = λ p st. refl;
  view-prandom = λ st. refl;
  pending-prandom = λ st. refl;
  view-full = λ n st e. ap view (view-full n st e);
  pending-full = λ n st e. ap pending (view-full n st e);
  view-reserve = λ n event st e. view-reserve n event st e;
  pending-reserve = λ n event st e. pending-reserve n event st e;
  view-submit = λ before after event flag st e. view-submit before after event st e;
  pending-submit = λ before after event flag st e.
      nothing_else before after (split-length st before after event e).1;
}

-- The reader meets the record while it is busy, and takes it when it is committed; the second run
-- has no room.
abbrev order : List Step
order = start ∷ read ∷ start ∷ finish 0 ∷ read ∷ start ∷ finish 0 ∷ []

abbrev silent : State
silent = (0, 0, false)

abbrev afterwards : Bench kernel
afterwards = steps kernel 0 mapped 8 order (begin one_ring silent)

steps-order :
    (afterwards.globals.n_drops ≡ 1) × (afterwards.n_elaborated ≡ 1) × (afterwards.in_flight ≡ [])
unfolding steps step reserve_one single_size process_one_from_ring reload take_record roundup_len
    is_busy is_discarded advance single_main bump_memlock_rlimit open_skeleton
steps-order = (refl, refl, refl)

abbrev at_start : Tracks (fresh_reader (view silent)) []
at_start = record { chain = refl; cached = omega arith; released = omega arith; fits = omega arith }

single_test-Prints_example :
    EndsWell kernel 0 mapped 3 (single_test kernel 0 mapped all_well 8 order silent)
single_test-Prints_example =
    single_test-Prints kernel 0 mapped all_well 8 order silent at_start refl

single_test-Settles_example :
    Settles kernel 0 mapped 3 (single_test kernel 0 mapped all_well 8 (order ++ reads 3) silent)
single_test-Settles_example =
    single_test-Settles kernel 0 mapped all_well 8 order 3 silent one_ring single_main-all_well
      at_start refl steps-order.2 (omega arith)
