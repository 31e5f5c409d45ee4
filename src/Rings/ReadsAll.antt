-- ===== src/Rings/ReadsAll.antt =====
-- A capture, with the kernel at rest, of rings that hold committed records.
use bpf_ringbuf.Common.{
  ℕ, zero, suc, ◌+◌, ◌*◌, ◌≤◌, ◌≡◌, refl, sym, ◌∙◌, inl, inr, Option, some, List, [], ◌∷◌, length,
  arith,
}
use bpf_ringbuf.Header.{u64}
use bpf_ringbuf.Queue.{Queue}
use bpf_ringbuf.Rings.{Rings, Sample, Round, Outcome, Iteration, capture, then_capture}
use bpf_ringbuf.Rings.Takes.{IterationTakes}
use bpf_ringbuf.Rings.Held.{waits}
use bpf_ringbuf.Rings.Soon.{positive, Soon-any}
use bpf_ringbuf.Rings.Deliver.{
  copies, at_rest, Full, SameEnds, Returns, FindsNone, call-Returns, call-FindsNone,
}

-- `calls` calls of `ring_buffer__consume_one`, of at most `rounds` iterations each.
abbrev pub calls_at_rest : ℕ → ℕ → List (List Round)
calls_at_rest calls rounds = copies calls (copies rounds at_rest)

-- A capture that has read every record.
pub record ReadsAll (cnt : ℕ) (m : Rings) (waiting : ℕ → Queue)
    (out : Option (List Sample × ℕ × Rings)) : Type 0 where
  pub samples : List Sample
  pub count : ℕ
  pub rings : Rings
  pub returns : out ≡ some (samples, count, rings)
  pub rest : ℕ → Queue
  pub full : Full cnt rings rest
  pub none_waits : waits cnt rest ≡ 0
  pub ends : SameEnds m rings
  pub all : length samples ≡ waits cnt waiting

module _ (iterate : Iteration) (law : IterationTakes iterate) (cnt rounds : ℕ)
    (twice : 2 * cnt ≤ rounds) where
  stop-ReadsAll :
      (rest : Rings → Option (List Sample × ℕ × Rings)) (m : Rings) (waiting : ℕ → Queue) (n : ℕ)
      (o : Outcome)
      → waits cnt waiting ≡ 0
      → FindsNone cnt m o
      → ReadsAll cnt m waiting (then_capture rest n o)
  stop-ReadsAll rest m waiting n o none_wait y = rw y.runs (record {
    samples = [];
    count = n;
    rings = y.rings;
    returns = refl;
    rest = y.rest;
    full = y.full;
    none_waits = y.none_waits;
    ends = y.ends;
    all = sym none_wait;
  })

  go-ReadsAll :
      (rest : Rings → Option (List Sample × ℕ × Rings)) (m : Rings) (waiting : ℕ → Queue) (n : ℕ)
      (o : Outcome) (y : Returns cnt m waiting o)
      → ReadsAll cnt y.rings y.rest (rest y.rings)
      → ReadsAll cnt m waiting (then_capture rest n o)
  go-ReadsAll rest m waiting n o y z =
      rw (y.returns, z.returns)
        (record {
          samples = y.sample ∷ z.samples;
          count = z.count;
          rings = z.rings;
          returns = refl;
          rest = z.rest;
          full = z.full;
          none_waits = z.none_waits;
          ends = λ i. z.ends i ∙ y.ends i;
          all = omega (arith, z.all, y.one_fewer);
        })

  pub capture-ReadsAll :
      (calls : ℕ) (m : Rings) (waiting : ℕ → Queue) (n : ℕ)
      → Full cnt m waiting
      → waits cnt waiting ≤ calls
      → ReadsAll cnt m waiting (capture iterate (calls_at_rest calls rounds) m n)
  unfolding capture
  capture-ReadsAll zero m waiting n f enough = record {
    samples = [];
    count = n;
    rings = m;
    returns = refl;
    rest = waiting;
    full = f;
    none_waits = omega arith;
    ends = λ i. refl;
    all = omega arith;
  }
  capture-ReadsAll (suc calls) m waiting n f enough = elim (positive (waits cnt waiting)) [
    | inl none_wait ↦
        stop-ReadsAll _ m waiting n _ none_wait
          (call-FindsNone iterate law cnt rounds m waiting f none_wait)
    | inr (w, e) ↦
        let lt = f.valid.current in
        let s = Soon-any cnt waiting m w 0 rounds (omega (arith, f.count)) e (omega arith) in
        let y = call-Returns iterate law cnt rounds m waiting f s in
        go-ReadsAll (λ m'. capture iterate (calls_at_rest calls rounds) m' (u64 (n + 1))) m waiting
          n _ y
          (capture-ReadsAll calls y.rings y.rest (u64 (n + 1)) y.full (omega (arith, y.one_fewer)))
  ]
