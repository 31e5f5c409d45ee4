-- ===== src/Bpf/Example.antt =====
-- A small kernel, for the tests.
use bpf_ringbuf.Common.{ℕ, ◌+◌, ◌-◌, refl, [], ◌∷◌, none, some, ltb, if◌then◌else◌, get_or}
use bpf_ringbuf.Bpf.{Helpers, Globals}
use bpf_ringbuf.Bpf.Programs.Outcome.{Counter}

-- The records that were sent, and the free space, which all ring buffers share here.
abbrev pub State : Type 0
State = ℕ × ℕ

-- Four ring buffers with 300, 100, 200 and 100 bytes to read.
abbrev pub pending : ℕ → ℕ
pending rb = get_or (300 ∷ 100 ∷ 200 ∷ 100 ∷ []) rb 0

abbrev pub kernel : Helpers
kernel = record {
  State = State;
  RingBuf = ℕ;
  Event = ℕ;
  Entry = ℕ;
  get_smp_processor_id = λ st. (1, st);
  get_prandom_u32 = λ st. (9, st);
  lookup_ringbuf = λ i st. (if ltb i 4 then some i else none, st);
  lookup_heap = λ i st. (some i, st);
  query = λ rb flag st. (pending rb, st);
  reserve = λ rb size st. (if ltb st.1 size then none else some rb, (st.0, st.1 - size));
  submit = λ e flag st. (st.0 + 1, st.1);
  output =
      λ rb e size flag st. (ltb st.1 size, (st.0 + (if ltb st.1 size then 0 else 1), st.1 - size));
}

abbrev pub counter : Counter kernel
counter = record {
  count = λ st. st.0;
  count-cpu = λ st. refl;
  count-prandom = λ st. refl;
  count-lookup = λ i st. refl;
  count-heap = λ i st. refl;
  count-query = λ rb flag st. refl;
  count-reserve = λ rb n st. refl;
  count-submit = λ e flag st. refl;
  count-output = λ rb e n flag st. refl;
}

abbrev pub on : Globals
on = record { capture_enabled = 1; n_drops = 0; n_skipped = 0 }
