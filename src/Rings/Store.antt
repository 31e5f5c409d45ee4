-- ===== src/Rings/Store.antt =====
-- The current ring is written back, and the others.
use mathlib.Core.Path.{subst}
use bpf_ringbuf.Common.{
  ℕ, ◌<◌, ◌≡◌, refl, [], Option, none, some, true, false, arith, ◌==◌, Bool-cases, inl, inr,
}
use bpf_ringbuf.Queue.{Queue}
use bpf_ringbuf.Reader.{Reader, some_of}
use bpf_ringbuf.Reader.Refine.{Tracks}
use bpf_ringbuf.Reader.Progress.{Progress, Progress-refl}
use bpf_ringbuf.Rings.{Rings, in_range, reader, store, tag}
use bpf_ringbuf.Rings.Progress.{IsValid, from, Reads}

pub IsValid-in_range : (m : Rings) → IsValid m → in_range m m.ringbuf_pos ≡ true
IsValid-in_range m v = ground arith

pub ==-eq : (a b : ℕ) → (a == b) ≡ true → a ≡ b
==-eq a b h = ground arith

abbrev pub at_index : Rings → ℕ → Rings
at_index m next = record m { ringbuf_pos = next }

reader-same :
    (m : Rings) (j : ℕ) (s : Reader) (next i : ℕ)
    → (j == i) ≡ true
    → reader (at_index (store m j s) next) i ≡ s
reader-same m j s next i e = rw e

pub ==-refl : (a : ℕ) → (a == a) ≡ true
==-refl a = ground arith

pub reader-store : (m : Rings) (j : ℕ) (s : Reader) → reader (store m j s) j ≡ s
reader-store m j s = rw (==-refl j)

pub reader-other :
    (m : Rings) (j : ℕ) (s : Reader) (next i : ℕ)
    → (j == i) ≡ false
    → reader (at_index (store m j s) next) i ≡ reader m i
reader-other m j s next i e = rw e

from-same :
    (j i : ℕ) (sample : Option ℕ)
    → (j == i) ≡ true
    → from i (some_of (tag j sample) []) ≡ some_of sample []
from-same j i none e = refl
from-same j i (some d) e = rw e

from-other :
    (j i : ℕ) (sample : Option ℕ) → (j == i) ≡ false → from i (some_of (tag j sample) []) ≡ []
from-other j i none e = refl
from-other j i (some d) e = rw e

module _ (m : Rings) (v : IsValid m) (i : ℕ) (q : Queue) (t : Tracks (reader m i) q) where
  -- The current ring is read, and the index set to one in range.
  pub store-Reads :
      (sample : Option ℕ) (s : Reader) (next : ℕ)
      → next < m.ring_cnt
      → ((q' : Queue)
          → Tracks (reader m m.ringbuf_pos) q'
          → Progress (reader m m.ringbuf_pos) q' (some_of sample []) s)
      → Reads m i q
          (some_of (tag m.ringbuf_pos sample) [])
          (record (store m m.ringbuf_pos s) { ringbuf_pos = next })
  store-Reads sample s next fits reads = record {
    progress = elim (Bool-cases (m.ringbuf_pos == i)) [
      | inl same ↦
          rw (reader-same m j s next i same, from-same j i sample same)
            (subst
              (λ k.
                (q' : Queue)
                → Tracks (reader m k) q'
                → Progress (reader m k) q' (some_of sample []) s)
              (==-eq j i same) reads q t)
      | inr other ↦
          rw (reader-other m j s next i other, from-other j i sample other)
            (Progress-refl (reader m i) q t)
    ];
    valid = record { current = fits; allocated = v.allocated };
    same_cnt = refl;
  }
    where
      j : ℕ
      j = m.ringbuf_pos
