-- ===== src/Rings/Takes.antt =====
-- What an iteration does to the rings when the one that it reads holds a queue with no discarded
-- record, with the kernel at rest.
use mathlib.Core.Path.{subst}
use bpf_ringbuf.Common.{
  ℕ, ◌+◌, ◌%◌, ◌<◌, ◌≡◌, refl, sym, ap, ◌∙◌, Option, none, some, false, length, arith, ◌==◌,
}
use bpf_ringbuf.Queue.{Queue}
use bpf_ringbuf.Queue.Committed.{Committed, Kept, busies, Kept-Committed, Committed-busies}
use bpf_ringbuf.Ring.Chain.{idle}
use bpf_ringbuf.Reader.{Reader, reads_of}
use bpf_ringbuf.Reader.Refine.{Tracks}
use mathlib.Core.Option
use bpf_ringbuf.Reader.Takes.{Takes, process-Takes, Serves, process-Serves}
use bpf_ringbuf.Rings.{Rings, Iteration, Sample, reader, store, tag}
use bpf_ringbuf.Rings.Progress.{IsValid}
use bpf_ringbuf.Rings.Store.{IsValid-in_range, reader-store, reader-other, ==-refl}
use bpf_ringbuf.Rings.RoundRobin

-- The offset of a sample.
abbrev pub sample_of : Option Sample → Option ℕ
sample_of = Option.map (λ d. d.1)

sample_of-tag : (i : ℕ) (o : Option ℕ) → sample_of (tag i o) ≡ o
sample_of-tag i none = refl
sample_of-tag i (some d) = refl

-- The iteration makes no access out of range; the current ring is read, and the others are left.
pub record TakesOne (m : Rings) (q : Queue) (result : Option (Option Sample × Rings)) : Type 0 where
  pub out : Option Sample
  pub rings : Rings
  pub returns : result ≡ some (out, rings)
  pub rest : Queue
  pub counted : reads_of out + length rest ≡ length q
  pub kept : Kept rest
  pub same_busy : busies rest ≡ busies q
  pub tracks : Tracks (reader rings m.ringbuf_pos) rest
  pub others : (j : ℕ) → (m.ringbuf_pos == j) ≡ false → reader rings j ≡ reader m j
  pub frame :
      rings.rings m.ringbuf_pos
      ≡ record (m.rings m.ringbuf_pos) { consumer_pos = (rings.rings m.ringbuf_pos).consumer_pos }
  pub serves :
      Committed q
      → Serves
          (reader m m.ringbuf_pos)
          q
          (sample_of out, reader rings m.ringbuf_pos)
          (rings.ringbuf_pos ≡ (m.ringbuf_pos + 1) % m.ring_cnt)
  pub valid : IsValid rings
  pub same_cnt : rings.ring_cnt ≡ m.ring_cnt

abbrev pub IterationTakes : Iteration → Type 0
IterationTakes iterate =
    (m : Rings) (q : Queue)
    → IsValid m
    → Tracks (reader m m.ringbuf_pos) q
    → Kept q
    → TakesOne m q (iterate idle m)

pub TakesOne-Committed :
    (m : Rings) (q : Queue) (result : Option (Option Sample × Rings))
    → (x : TakesOne m q result) → Committed q
    → Committed x.rest
TakesOne-Committed m q result x c =
    Kept-Committed x.rest x.kept (x.same_busy ∙ Committed-busies q c)

reads_of-tag : (i : ℕ) (o : Option ℕ) → reads_of (tag i o) ≡ reads_of o
reads_of-tag i none = refl
reads_of-tag i (some d) = refl

-- The reader of the current ring is written back, and the index set to one in range.
pub store-TakesOne :
    (m : Rings) (q : Queue) (sample : Option ℕ) (s : Reader) (next : ℕ)
    → IsValid m
    → next < m.ring_cnt
    → (Committed q
        → Serves (reader m m.ringbuf_pos) q (sample, s) (next ≡ (m.ringbuf_pos + 1) % m.ring_cnt))
    → Takes (reader m m.ringbuf_pos) q (sample, s)
    → TakesOne m q
        (some (tag m.ringbuf_pos sample, record (store m m.ringbuf_pos s) { ringbuf_pos = next }))
store-TakesOne m q sample s next v lt serves t =
    let i = m.ringbuf_pos in
    let same = reader-store m i s in
    record {
      out = _;
      rings = _;
      returns = refl;
      rest = t.rest;
      counted = ap (λ n. n + length t.rest) (reads_of-tag i sample) ∙ t.counted;
      kept = t.kept;
      same_busy = t.same_busy;
      tracks = subst (λ r. Tracks r t.rest) (sym same) t.tracks;
      others = λ j e. reader-other m i s next j e;
      frame =
          ap (λ r. r.ring) same
          ∙ (t.frame
              ∙ ap (λ r. record (m.rings i) { consumer_pos = r.ring.consumer_pos }) (sym same));
      serves = λ c. rw (sample_of-tag i sample, ==-refl i) (serves c);
      valid = record { current = lt; allocated = v.allocated };
      same_cnt = refl;
    }

pub round_robin-Takes : IterationTakes RoundRobin.iterate
unfolding RoundRobin.iterate RoundRobin.process_one_from_ring
round_robin-Takes m q v t k = rw (IsValid-in_range m v) (
    store-TakesOne m q _ _ ((m.ringbuf_pos + 1) % m.ring_cnt) v (let lt = v.current in omega arith)
      (λ c. process-Serves (reader m m.ringbuf_pos) q t c refl)
      (process-Takes (reader m m.ringbuf_pos) q t k))
