-- ===== src/Bench/Smp/Parts.antt =====
-- A run of `catch_fentry` as its two parts, and the events that are reserved in one ring.
use bpf_ringbuf.Common.{
  ℕ, ◌+◌, ◌%◌, ◌<◌, ◌≡◌, refl, Option, none, some, List, [], ◌∷◌, ◌++◌, Bool, arith, ◌==◌,
  Bool-cases, inl, inr,
}
use bpf_ringbuf.Bpf.{Helpers, Globals}
use bpf_ringbuf.Bpf.Sizes.{reserve_size}
use bpf_ringbuf.Bpf.Programs.{send, reserve_some, with_ringbuf, select_ringbuf, catch_fentry}
use bpf_ringbuf.Bench.Cpus.{dropped, submit_one}
use bpf_ringbuf.Bench.Smp.{count_at, reserve_from, reserve_in}

module _ (h : Helpers) where
  open h use {State, RingBuf, Event, reserve}

  sent :
      (g : Globals) (r : Option Event × State)
      → let (g', o, st') = dropped h g r in send h g r ≡ (g', submit_one h o st')
  sent g (none, st) = refl
  sent g (some event, st) = refl

  reserve_from-submit_one :
      (byte : ℕ) (g : Globals) (o : Option RingBuf × State)
      → let (g', event, st') = reserve_from h byte g o in
        with_ringbuf h (reserve_some h g (λ r. reserve_size byte (r % 7))) g o
        ≡ (g', submit_one h event st')
  reserve_from-submit_one byte g (none, st) = refl
  reserve_from-submit_one byte g (some rb, st) = sent g (reserve rb _ _)

  -- A run of catch_fentry of multi_ringbuf_reserve.bpf.c is its part up to the reservation followed,
  -- if there is an event, by its submit.
  reserve_in-submit_one :
      (customized : Bool) (byte n_cpus : ℕ) (g : Globals) (st : State)
      → let (g', o, st') = reserve_in h customized byte n_cpus g st in
        catch_fentry h customized byte n_cpus g st ≡ (g', submit_one h o st')
  unfolding reserve_in catch_fentry
  reserve_in-submit_one customized byte n_cpus g st = elim (Bool-cases (g.capture_enabled == 0)) [
    | inl off ↦ rw off refl
    | inr on ↦ rw on (reserve_from-submit_one byte g (select_ringbuf h customized n_cpus st))
  ]

module _ {A : Type 0} (place : A → ℕ) where
  pub count_at-append :
      (i : ℕ) (xs ys : List A)
      → count_at place i (xs ++ ys) ≡ count_at place i xs + count_at place i ys
  count_at-append i [] ys = omega arith
  count_at-append i (x ∷ xs) ys = omega (arith, count_at-append i xs ys)

  -- The events are all in rings of the array.
  abbrev pub Placed : ℕ → List A → Type 0
  Placed cnt [] = Unit
  Placed cnt (x ∷ xs) = (place x < cnt) × Placed cnt xs

  pub Placed-one :
      (cnt : ℕ) (before after : List A) (x : A)
      → Placed cnt (before ++ (x ∷ after))
      → (place x < cnt) × Placed cnt (before ++ after)
  Placed-one cnt [] after x (lt, p) = (lt, p)
  Placed-one cnt (y ∷ before) after x (lt, p) =
      let (own, rest) = Placed-one cnt before after x p in (own, (lt, rest))
