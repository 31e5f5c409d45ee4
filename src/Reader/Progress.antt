-- ===== src/Reader/Progress.antt =====
-- What a reader has done to its ring over any number of calls: the records that it has read, in
-- order, and those that are pending. Steps of the reader and of the kernel compose.
use mathlib.Core.Path.{ap₂}
use native.Mathlib.Nat.{add_assoc}
use bpf_ringbuf.Common.{
  ℕ, ◌+◌, ◌≡◌, refl, sym, ap, ◌∙◌, ◌⊎◌, inl, inr, false, Option, none, some, List, [], ◌∷◌, ◌++◌,
  append_assoc, arith, bit_and, Bool-cases, if◌then◌else◌,
}
use bpf_ringbuf.Header.{hdr_sz, is_busy, is_discarded, roundup_len}
use bpf_ringbuf.Queue.Committed.{span-append}
use bpf_ringbuf.Queue.{Queue, span, pop, Extends, Extends-refl, Extends-trans, Extends-append}
use bpf_ringbuf.Ring.Chain.{Kernel}
use bpf_ringbuf.Reader.{Reader, some_of}
use bpf_ringbuf.Reader.Refine.{Tracks, Moves, Pops, Kernel-Tracks, Kernel-mask}

-- The offsets of the payloads of `q`, which begins at position `p`, without the discarded records.
abbrev pub payloads : ℕ → ℕ → Queue → List ℕ
payloads mask p [] = []
payloads mask p (h ∷ q) =
    let rest = payloads mask (p + roundup_len h) q in
    if is_discarded h then rest else ((bit_and p mask + hdr_sz) ∷ rest)

abbrev pub AllCommitted : Queue → Type 0
AllCommitted [] = Unit
AllCommitted (h ∷ q) = (is_busy h ≡ false) × AllCommitted q

-- From `s` at the front of `q` the reader has come to `s'`: the records of the ring, as the kernel
-- has extended them by then, are those that it has read, all committed, followed by those that are
-- pending; the samples are the payloads of the records that it has read and that are not
-- discarded; it has moved over exactly the records that it has read.
pub record Progress (s : Reader) (q : Queue) (samples : List ℕ) (s' : Reader) : Type 0 where
  pub gone : Queue
  pub pending : Queue
  pub log : Extends q (gone ++ pending)
  pub committed : AllCommitted gone
  pub delivered : samples ≡ payloads s.ring.mask s.cons_pos gone
  pub position : s'.cons_pos ≡ s.cons_pos + span gone
  pub same_mask : s'.ring.mask ≡ s.ring.mask
  pub ends : Tracks s' pending

AllCommitted-append : (a b : Queue) → AllCommitted a → AllCommitted b → AllCommitted (a ++ b)
AllCommitted-append [] b p q = q
AllCommitted-append (h ∷ a) b p q = (p.0, AllCommitted-append a b p.1 q)

payloads-append :
    (mask p : ℕ) (a b : Queue)
    → payloads mask p (a ++ b) ≡ payloads mask p a ++ payloads mask (p + span a) b
payloads-append mask p [] b = ap (λ x. payloads mask x b) (omega arith)
payloads-append mask p (h ∷ a) b =
    let later =
      payloads-append mask (p + roundup_len h) a b
      ∙ ap (λ x. payloads mask (p + roundup_len h) a ++ payloads mask x b) (add_assoc p _ _) in
    elim (Bool-cases (is_discarded h)) [
      | inl dropped ↦ rw dropped later
      | inr kept ↦ rw kept (ap (λ l. (bit_and p mask + hdr_sz) ∷ l) later)
    ]

pub Progress-refl : (s : Reader) (q : Queue) → Tracks s q → Progress s q [] s
Progress-refl s q t = record {
  gone = [];
  pending = q;
  log = Extends-refl q;
  committed = tt;
  delivered = refl;
  position = omega arith;
  same_mask = refl;
  ends = t;
}

pub Progress-trans :
    {s s' s'' : Reader} {q : Queue} {xs ys : List ℕ} (a : Progress s q xs s')
    → Progress s' a.pending ys s''
    → Progress s q (xs ++ ys) s''
Progress-trans {s} {s'} {s''} {q} a b = record {
  gone = a.gone ++ b.gone;
  pending = b.pending;
  log =
      rw append_assoc
        (Extends-trans q (a.gone ++ a.pending) _ a.log (Extends-append a.gone a.pending _ b.log));
  committed = AllCommitted-append a.gone b.gone a.committed b.committed;
  delivered =
      ap₂ ◌++◌ a.delivered
        (b.delivered ∙ ap₂ (λ mask p. payloads mask p b.gone) a.same_mask a.position)
      ∙ sym (payloads-append s.ring.mask s.cons_pos a.gone b.gone);
  position = omega (arith, a.position, b.position, span-append a.gone b.gone);
  same_mask = b.same_mask ∙ a.same_mask;
  ends = b.ends;
}

-- The kernel acts.
pub Progress-kernel :
    (k : Kernel) (s : Reader) (q : Queue)
    → Tracks s q
    → Progress s q [] (record s { ring = k.act s.ring })
Progress-kernel k s q t =
    let (q', e, t') = Kernel-Tracks k s q t in
    record {
      gone = [];
      pending = q';
      log = e;
      committed = tt;
      delivered = refl;
      position = omega arith;
      same_mask = Kernel-mask k s t;
      ends = t';
    }

-- `pop` takes no record, or the first, which is committed.
pop-cases :
    (q : Queue)
    → (pop q ≡ (none, q))
      ⊎ ((h : ℕ) × (rest : Queue) × (q ≡ h ∷ rest)
          × (is_busy h ≡ false)
          × (pop q ≡ (if is_discarded h then none else some h, rest)))
unfolding pop
pop-cases [] = inl refl
pop-cases (h ∷ q) = elim (Bool-cases (is_busy h)) [
  | inl busy ↦ inl (rw busy)
  | inr idle ↦ inr (h, q, refl, idle, ground arith)
]

module _ (s : Reader) (q q' : Queue) (result : Option ℕ × Reader) (e : Extends q q') where
  Progress-stay : Moves s result q' (none, q') → Progress s q (some_of result.0 []) result.1
  Progress-stay m = record {
    gone = [];
    pending = q';
    log = e;
    committed = tt;
    delivered = ap (λ o. some_of o []) m.sample;
    position = omega (arith, m.moved);
    same_mask = m.same_mask;
    ends = m.after;
  }

  Progress-take :
      (h : ℕ) (rest : Queue)
      → q' ≡ h ∷ rest
      → is_busy h ≡ false
      → Moves s result q' (if is_discarded h then none else some h, rest)
      → Progress s q (some_of result.0 []) result.1
  Progress-take h rest f idle m = record {
    gone = h ∷ [];
    pending = rest;
    log = rw f at e;
    committed = (idle, tt);
    delivered = ap (λ o. some_of o []) m.sample ∙ (elim (Bool-cases (is_discarded h)) [
      | inl dropped ↦ rw dropped refl
      | inr kept ↦ rw kept refl
    ]);
    position = omega (arith, m.moved, ap span f);
    same_mask = m.same_mask;
    ends = m.after;
  }

  -- A call that does what `pop` does.
  pub Progress-pop : Pops s result q' → Progress s q (some_of result.0 []) result.1
  Progress-pop m = elim (pop-cases q') [
    | inl stay ↦ Progress-stay (rw stay at m)
    | inr (h, rest, first, idle, popped) ↦ Progress-take h rest first idle (rw popped at m)
  ]
