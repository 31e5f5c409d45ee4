-- ===== src/Bench/Smp/Example.antt =====
-- Two rings, each with room for one record of 16 bytes, and a kernel that has one event reserved at
-- a time, for the tests.
use bpf_ringbuf.Common.{
  ℕ, ◌+◌, ◌-◌, ◌<◌, ◌^◌, ◌≡◌, refl, sym, ap, Bool, true, false, ◌&&◌, ◌==◌, ltb, leb, Option, none,
  some, List, [], ◌∷◌, ◌++◌, length, arith, update, if◌then◌else◌, Bool-cases, inl, inr,
}
use mathlib.Core.Option.{some-ne-none}
use bpf_ringbuf.Queue.Committed.{length-append}
use bpf_ringbuf.Ring.{Ring}
use bpf_ringbuf.Ring.Chain.{idle}
use bpf_ringbuf.Rings.Store.{==-refl}
use bpf_ringbuf.Bpf.{Helpers}
use bpf_ringbuf.Bench.{AddsOne}
use bpf_ringbuf.Bench.Example.{answered}
use bpf_ringbuf.Bench.Cpus.{Submits, Step, start, finish, read}
use bpf_ringbuf.Bench.Cpus.Example.{ring_with, ring_with-AddsOne, ring_with-Submits, nothing_else}
use bpf_ringbuf.Bench.Smp.{count_at, Mapped}

-- The consumer and the producer positions, and the ring in which a record is reserved.
abbrev pub State : Type 0
State = (ℕ → ℕ) × (ℕ → ℕ) × Option ℕ

abbrev is_in : Option ℕ → ℕ → Bool
is_in none i = false
is_in (some rb) i = rb == i

abbrev is_none : Option ℕ → Bool
is_none none = true
is_none (some rb) = false

abbrev room : ℕ → ℕ → State → Bool
room i n st = n == 16 && (is_none st.2 && (st.0 i == st.1 i && leb (st.1 i + 24) (2 ^ 63)))

abbrev reserved : ℕ → State → State
reserved i st = (st.0, update st.1 i (st.1 i + 24), some i)

-- The CPU that an event comes from is that of ring 1 once ring 0 has had a record.
abbrev pub kernel : Helpers
kernel = record {
  State = State;
  RingBuf = ℕ;
  Event = ℕ;
  Entry = ℕ;
  get_smp_processor_id = λ st. (if ltb (st.1 0) 24 then 0 else 1, st);
  get_prandom_u32 = λ st. (0, st);
  lookup_ringbuf = λ i st. (if ltb i 2 then some i else none, st);
  lookup_heap = λ i st. (some 0, st);
  query = λ rb flag st. (st.1 rb - st.0 rb, st);
  reserve = λ rb n st.
      (if room rb n st then some rb else none, if room rb n st then reserved rb st else st);
  submit = λ e flag st. (st.0, st.1, none);
  output = λ rb e size flag st. (true, st);
}

abbrev events : Option ℕ → List ℕ
events none = []
events (some rb) = rb ∷ []

abbrev image : State → (ℕ → Ring) × List ℕ
image st = (λ i. ring_with (st.0 i) (st.1 i) (is_in st.2 i), events st.2)

pub full :
    (rb n : ℕ) (st : State)
    → (if room rb n st then some rb else none) ≡ none
    → image (if room rb n st then reserved rb st else st) ≡ image st
full rb n st e = elim (Bool-cases (room rb n st)) [
  | inl fits ↦ absurd (some-ne-none rb (rw fits at e))
  | inr over ↦ rw over refl
]

idle_before : (o : Option ℕ) → is_none o ≡ true → o ≡ none
idle_before none e = refl
idle_before (some rb) e = absurd cc

-- What a reservation has met that was made.
pub fits-room :
    (rb n ev : ℕ) (st : State)
    → (if room rb n st then some rb else none) ≡ some ev
    → (room rb n st ≡ true)
      × (rb ≡ ev)
      × (st.2 ≡ none)
      × (st.0 rb ≡ st.1 rb)
      × (st.1 rb + 24 < 2 ^ 64)
fits-room rb n ev st e =
    let (fits, own) = answered (room rb n st) rb ev e in
    (fits, own, idle_before st.2 (ground arith), ground arith, ground arith)

pub view-reserve :
    (rb n ev : ℕ) (st : State)
    → (if room rb n st then some rb else none) ≡ some ev
    → AddsOne true ((image st).0 rb) ((image (if room rb n st then reserved rb st else st)).0 rb)
view-reserve rb n ev st e =
    let (fits, own, idle, same, small) = fits-room rb n ev st e in
    rw (fits, ==-refl rb) (ring_with-AddsOne (st.0 rb) (st.1 rb) (is_in st.2 rb) same small)

pub reserve-others :
    (rb n ev : ℕ) (st : State)
    → (if room rb n st then some rb else none) ≡ some ev
    → (j : ℕ) → (rb == j) ≡ false
    → (image (if room rb n st then reserved rb st else st)).0 j ≡ (image st).0 j
reserve-others rb n ev st e j other =
    let (fits, own, idle, same, small) = fits-room rb n ev st e in rw (fits, other, idle) refl

pub pending-reserve :
    (rb n ev : ℕ) (st : State)
    → (if room rb n st then some rb else none) ≡ some ev
    → events (if room rb n st then reserved rb st else st).2 ≡ ev ∷ events st.2
pending-reserve rb n ev st e =
    let (fits, own, idle, same, small) = fits-room rb n ev st e in rw (fits, own, idle) refl

abbrev first : List ℕ → ℕ
first [] = 0
first (x ∷ xs) = x

-- The one event that is reserved.
pub only :
    (o : Option ℕ) (before after : List ℕ) (ev : ℕ)
    → events o ≡ before ++ (ev ∷ after)
    → (o ≡ some ev) × ([] ≡ before ++ after)
only none before after ev e = absurd (omega (arith, ap length e, length-append before (ev ∷ after)))
only (some rb) [] after ev e =
    (ap (λ l. some (first l)) e, nothing_else [] after (omega (arith, ap length e)))
only (some rb) (x ∷ before) after ev e =
    absurd (omega (arith, ap length e, length-append before (ev ∷ after)))

pub view-submit :
    (before after : List ℕ) (ev : ℕ) (st : State)
    → events st.2 ≡ before ++ (ev ∷ after)
    → Submits
        (count_at (λ e. e) ev (events st.2))
        ((image st).0 ev)
        ((image (st.0, st.1, none)).0 ev)
view-submit before after ev st e =
    rw ((only st.2 before after ev e).0, ==-refl ev) (ring_with-Submits (st.0 ev) (st.1 ev))

pub submit-others :
    (before after : List ℕ) (ev : ℕ) (st : State)
    → events st.2 ≡ before ++ (ev ∷ after)
    → (j : ℕ) → (ev == j) ≡ false
    → (image (st.0, st.1, none)).0 j ≡ (image st).0 j
submit-others before after ev st e j other = rw ((only st.2 before after ev e).0, other) refl

pub lookup_index : (i rb : ℕ) → (if ltb i 2 then some i else none) ≡ some rb → rb < 2
lookup_index i rb e = let (small, own) = answered (ltb i 2) i rb e in ground arith

abbrev pub mapped : Mapped kernel 2
mapped = record {
  rests = record {
    image = image;
    index = λ rb. rb;
    cpu = λ st. refl;
    prandom = λ st. refl;
    lookup = λ i st. refl;
    query = λ rb flag st. refl;
    full = λ rb n st e. full rb n st e;
    index-lookup = λ i st rb e. lookup_index i rb e;
  };
  place = λ e. e;
  release = λ i p st. (update st.0 i p, st.1, st.2);
  view-release = λ i p st. rw (==-refl i) refl;
  view-others = λ i p st j other. rw other refl;
  pending-release = λ i p st. refl;
  place-reserve = λ rb n ev st e. sym (fits-room rb n ev st e).1;
  view-reserve = λ rb n ev st lt e. view-reserve rb n ev st e;
  reserve-others = λ rb n ev st e j other. reserve-others rb n ev st e j other;
  pending-reserve = λ rb n ev st e. pending-reserve rb n ev st e;
  view-submit = λ before after ev flag st lt e. view-submit before after ev st e;
  submit-others = λ before after ev flag st e j other. submit-others before after ev st e j other;
  pending-submit = λ before after ev flag st e. (only st.2 before after ev e).1;
}

-- Nothing has happened.
abbrev pub silent : State
silent = (λ i. 0, λ i. 0, none)

-- The reader meets the record of ring 0 while it is busy, a second run finds an event reserved, and
-- the record of ring 1 is submitted after a read.
abbrev pub order : List Step
order = start ∷ read ∷ start ∷ finish 0 ∷ start ∷ read ∷ read ∷ finish 0 ∷ []
