-- ===== src/Rings/Deliver.antt =====
-- What the readers make of rings that hold committed records, with the kernel at rest: each call of
-- `ring_buffer__consume_one` returns a record while there is one.
use mathlib.Core.Path.{subst}
use bpf_ringbuf.Common.{
  ℕ, zero, suc, ◌+◌, ◌≡◌, refl, ap, ◌∙◌, inl, inr, Option, none, some, List, [], ◌∷◌, arith, ◌==◌,
  Bool-cases,
}
use bpf_ringbuf.Queue.{Queue}
use bpf_ringbuf.Queue.Committed.{Committed, Committed-Kept}
use bpf_ringbuf.Ring.{Ring}
use bpf_ringbuf.Ring.Chain.{idle}
use bpf_ringbuf.Reader.{Reader, reads_of}
use bpf_ringbuf.Rings.{
  Rings, Sample, Round, Outcome, running, returned, Iteration, consume_one, return_or,
}
use bpf_ringbuf.Rings.Progress.{IsValid}
use bpf_ringbuf.Rings.Store.{==-eq}
use bpf_ringbuf.Rings.Takes.{TakesOne, IterationTakes, TakesOne-Committed, sample_of}
use bpf_ringbuf.Rings.Held.{Held, waits, Held-update}
use bpf_ringbuf.Rings.Soon.{Soon, Passes, Passes-here, Passes-other, left, fewer}

abbrev pub copies {ℓ} : {A : Type ℓ} → ℕ → A → List A
copies zero a = []
copies (suc n) a = a ∷ copies n a

abbrev pub at_rest : Round
at_rest = record { before = λ i. idle; late = idle }

-- `waiting i` is the queue of ring `i`, all records committed.
pub record Full (cnt : ℕ) (m : Rings) (waiting : ℕ → Queue) : Type 0 where
  pub valid : IsValid m
  pub count : m.ring_cnt ≡ cnt
  pub held : Held Committed cnt m waiting

-- The kernel has produced nothing.
abbrev pub SameEnds : Rings → Rings → Type 0
SameEnds m m' = (i : ℕ) → (m'.rings i).producer_pos ≡ (m.rings i).producer_pos

module _ (cnt : ℕ) (m : Rings) (waiting : ℕ → Queue) (result : Option (Option Sample × Rings))
    (x : TakesOne m (waiting m.ringbuf_pos) result) (f : Full cnt m waiting) where
  iteration-Full : Full cnt x.rings (left cnt m waiting result x f.count f.valid)
  iteration-Full = record {
    valid = x.valid;
    count = x.same_cnt ∙ f.count;
    held =
        let lt = f.valid.current in
        let c = (f.held m.ringbuf_pos (omega (arith, f.count))).0 in
        Held-update Committed cnt m.ringbuf_pos m x.rings waiting x.rest x.others
          (TakesOne-Committed m (waiting m.ringbuf_pos) result x c) x.tracks f.held;
  }

  iteration-SameEnds : SameEnds m x.rings
  iteration-SameEnds i = elim (Bool-cases (m.ringbuf_pos == i)) [
    | inl same ↦
        subst (λ k. (x.rings.rings k).producer_pos ≡ (m.rings k).producer_pos)
          (==-eq m.ringbuf_pos i same) (ap {A = Ring} (λ r. r.producer_pos) x.frame)
    | inr other ↦ ap {A = Reader} (λ s. s.ring.producer_pos) (x.others i other)
  ]

-- A call that has returned a record, and the queues that are left.
pub record Returns (cnt : ℕ) (m : Rings) (waiting : ℕ → Queue) (o : Outcome) : Type 0 where
  pub sample : Sample
  pub rings : Rings
  pub returns : o ≡ returned sample rings
  pub rest : ℕ → Queue
  pub full : Full cnt rings rest
  pub one_fewer : waits cnt rest + 1 ≡ waits cnt waiting
  pub ends : SameEnds m rings

-- A call that has found nothing.
pub record FindsNone (cnt : ℕ) (m : Rings) (o : Outcome) : Type 0 where
  pub rings : Rings
  pub runs : o ≡ running rings
  pub rest : ℕ → Queue
  pub full : Full cnt rings rest
  pub none_waits : waits cnt rest ≡ 0
  pub ends : SameEnds m rings

module _ (iterate : Iteration) (law : IterationTakes iterate) (cnt : ℕ) where
  iteration :
      (m : Rings) (waiting : ℕ → Queue)
      → Full cnt m waiting
      → TakesOne m (waiting m.ringbuf_pos) (iterate idle m)
  iteration m waiting f =
      let lt = f.valid.current in
      let (c, t) = f.held m.ringbuf_pos (omega (arith, f.count)) in
      law m (waiting m.ringbuf_pos) f.valid t (Committed-Kept (waiting m.ringbuf_pos) c)

  current :
      (m : Rings) (waiting : ℕ → Queue) → Full cnt m waiting → Committed (waiting m.ringbuf_pos)
  current m waiting f =
      let lt = f.valid.current in (f.held m.ringbuf_pos (omega (arith, f.count))).0

  -- An iteration that has found none leaves the queues as they were.
  none_found :
      (m : Rings) (waiting : ℕ → Queue) (f : Full cnt m waiting)
      → (x : TakesOne m (waiting m.ringbuf_pos) (iterate idle m)) → x.out ≡ none
      → waits cnt (left cnt m waiting _ x f.count f.valid) ≡ waits cnt waiting
  none_found m waiting f x e =
      let none_read : reads_of x.out ≡ 0 = ap reads_of e in
      omega (arith, fewer cnt m waiting _ x f.count f.valid, x.counted)

  -- The ring that waits is one step nearer.
  nearer :
      (n : ℕ) (m : Rings) (waiting : ℕ → Queue) (f : Full cnt m waiting)
      → (x : TakesOne m (waiting m.ringbuf_pos) (iterate idle m)) → x.out ≡ none
      → Soon cnt m waiting 0 (n + 1)
      → Soon cnt x.rings (left cnt m waiting _ x f.count f.valid) 0 n
  nearer n m waiting f x e s = elim (x.serves (current m waiting f)) [
    | inl one ↦ let none_read : reads_of (sample_of x.out) ≡ 0 = rw e refl in absurd (omega arith)
    | inr (no_sample, moved, why) ↦
        let passes : Passes cnt m waiting _ x f.count f.valid =
          (ap reads_of e, rw f.count at moved, why) in
        elim (Bool-cases (m.ringbuf_pos == s.ring)) [
          | inl here ↦ Passes-here cnt m waiting _ x f.count f.valid 0 n s passes here
          | inr other ↦ Passes-other cnt m waiting _ x f.count f.valid 0 n s passes other
        ]
  ]

  outcome-Returns :
      (again : Rings → Outcome) (n : ℕ) (m : Rings) (waiting : ℕ → Queue) (f : Full cnt m waiting)
      → (x : TakesOne m (waiting m.ringbuf_pos) (iterate idle m)) → (o : Option Sample) → x.out ≡ o
      → Soon cnt m waiting 0 (n + 1)
      → ((m' : Rings) (waiting' : ℕ → Queue)
          → Full cnt m' waiting'
          → Soon cnt m' waiting' 0 n
          → Returns cnt m' waiting' (again m'))
      → Returns cnt m waiting (return_or again (some (o, x.rings)))
  outcome-Returns again n m waiting f x (some d) e s ih =
      let one_read : reads_of x.out ≡ 1 = ap reads_of e in
      record {
        sample = d;
        rings = x.rings;
        returns = refl;
        rest = left cnt m waiting _ x f.count f.valid;
        full = iteration-Full cnt m waiting _ x f;
        one_fewer = omega (arith, fewer cnt m waiting _ x f.count f.valid, x.counted);
        ends = iteration-SameEnds cnt m waiting _ x f;
      }
  outcome-Returns again n m waiting f x none e s ih =
      let y = ih x.rings _ (iteration-Full cnt m waiting _ x f) (nearer n m waiting f x e s) in
      record {
        sample = y.sample;
        rings = y.rings;
        returns = y.returns;
        rest = y.rest;
        full = y.full;
        one_fewer = omega (arith, y.one_fewer, none_found m waiting f x e);
        ends = λ i. y.ends i ∙ iteration-SameEnds cnt m waiting _ x f i;
      }

  pub call-Returns :
      (n : ℕ) (m : Rings) (waiting : ℕ → Queue)
      → Full cnt m waiting
      → Soon cnt m waiting 0 n
      → Returns cnt m waiting (consume_one iterate (copies n at_rest) m)
  unfolding consume_one
  call-Returns zero m waiting f s = let bound = s.enough in absurd (omega arith)
  call-Returns (suc n) m waiting f s =
      let x = iteration m waiting f in
      rw x.returns (
        outcome-Returns (consume_one iterate (copies n at_rest)) n m waiting f x x.out refl
          (subst (λ l. Soon cnt m waiting 0 l) (omega arith) s)
          (λ m' waiting' f' s'. call-Returns n m' waiting' f' s'))

  outcome-FindsNone :
      (again : Rings → Outcome) (m : Rings) (waiting : ℕ → Queue) (f : Full cnt m waiting)
      → (x : TakesOne m (waiting m.ringbuf_pos) (iterate idle m)) → (o : Option Sample) → x.out ≡ o
      → waits cnt waiting ≡ 0
      → ((m' : Rings) (waiting' : ℕ → Queue)
          → Full cnt m' waiting'
          → waits cnt waiting' ≡ 0
          → FindsNone cnt m' (again m'))
      → FindsNone cnt m (return_or again (some (o, x.rings)))
  outcome-FindsNone again m waiting f x (some d) e none_wait ih =
      let one_read : reads_of x.out ≡ 1 = ap reads_of e in
      absurd (omega (arith, fewer cnt m waiting _ x f.count f.valid, x.counted))
  outcome-FindsNone again m waiting f x none e none_wait ih =
      let y =
        ih x.rings _ (iteration-Full cnt m waiting _ x f)
          (none_found m waiting f x e ∙ none_wait) in
      record {
        rings = y.rings;
        runs = y.runs;
        rest = y.rest;
        full = y.full;
        none_waits = y.none_waits;
        ends = λ i. y.ends i ∙ iteration-SameEnds cnt m waiting _ x f i;
      }

  pub call-FindsNone :
      (n : ℕ) (m : Rings) (waiting : ℕ → Queue)
      → Full cnt m waiting
      → waits cnt waiting ≡ 0
      → FindsNone cnt m (consume_one iterate (copies n at_rest) m)
  unfolding consume_one
  call-FindsNone zero m waiting f none_wait = record {
    rings = m;
    runs = refl;
    rest = waiting;
    full = f;
    none_waits = none_wait;
    ends = λ i. refl;
  }
  call-FindsNone (suc n) m waiting f none_wait =
      let x = iteration m waiting f in
      rw x.returns (
        outcome-FindsNone (consume_one iterate (copies n at_rest)) m waiting f x x.out refl
          none_wait (λ m' waiting' f' w'. call-FindsNone n m' waiting' f' w'))
