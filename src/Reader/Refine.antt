-- ===== src/Reader/Refine.antt =====
-- One call of the reader beside `pop` on the queue that the ring holds.
use mathlib.Core.Option
use mathlib.Core.Path.{ap₂}
use bpf_ringbuf.Common.{
  ℕ, ◌+◌, ◌≤◌, ◌<◌, ◌^◌, ◌≡◌, refl, ◌∙◌, inl, inr, Bool, true, false, Option, [], ◌∷◌, arith,
  bit_and, ltb, Bool-cases, if◌then◌else◌,
}
use bpf_ringbuf.Header.{hdr_sz, is_busy, is_discarded, roundup_len, advance}
use bpf_ringbuf.Header.Bounds.{advance_lem}
use bpf_ringbuf.Queue.{Queue, span, pop, Extends}
use bpf_ringbuf.Ring.Chain.{header_at, Chain, Chain-first, Kernel}
use bpf_ringbuf.Reader.{Reader, reload, take_record, process_one_from_ring}

-- The reader stands at the front of the queue `q`, has seen no more than the kernel has produced,
-- and has released no more than it has read.
pub record Tracks (s : Reader) (q : Queue) : Type 0 where
  pub chain : Chain (header_at s.ring) s.cons_pos q s.ring.producer_pos
  pub cached : s.prod_pos ≤ s.ring.producer_pos
  pub released : s.ring.consumer_pos ≤ s.cons_pos
  pub fits : s.ring.producer_pos < 2 ^ 64

-- Where the payload of the record at the reader's position lies.
abbrev pub payload : Reader → ℕ
payload s = bit_and s.cons_pos s.ring.mask + hdr_sz

-- The reader past its first record, which it may have released.
abbrev past : Bool → Reader → ℕ → Reader
past release s h = record s {
  cons_pos = advance s.cons_pos h;
  ring = record s.ring {
    consumer_pos = if release then advance s.cons_pos h else s.ring.consumer_pos;
  };
}

past-cons_pos :
    (s : Reader) (h : ℕ) (q : Queue)
    → Tracks s (h ∷ q)
    → advance s.cons_pos h ≡ s.cons_pos + roundup_len h
past-cons_pos s h q t =
    ground (arith, advance_lem s.cons_pos h, Chain-first (header_at s.ring) s.cons_pos h q t.chain)

past-Tracks :
    (release : Bool) (s : Reader) (h : ℕ) (q : Queue)
    → Tracks s (h ∷ q)
    → Tracks (past release s h) q
past-Tracks release s h q t = record {
  chain = rw (past-cons_pos s h q t) t.chain.1;
  cached = t.cached;
  released = ground (arith, past-cons_pos s h q t);
  fits = t.fits;
}

-- A call that returns `result` has done what `pop` does to the queue `q`: the sample is the payload
-- of the record that `pop` hands out, and the reader stands at the front of what is left, having
-- moved over exactly the records that are gone.
pub record Moves (s : Reader) (result : Option ℕ × Reader) (q : Queue) (popped : Option ℕ × Queue)
    : Type 0 where
  pub sample : result.0 ≡ Option.map (λ _. payload s) popped.0
  pub after : Tracks result.1 popped.1
  pub moved : result.1.cons_pos + span popped.1 ≡ s.cons_pos + span q
  pub same_mask : result.1.ring.mask ≡ s.ring.mask

abbrev pub Pops : Reader → Option ℕ × Reader → Queue → Type 0
Pops s result q = Moves s result q (pop q)

pub take_record-pop :
    (release : Bool) (s : Reader) (h : ℕ) (q : Queue)
    → Tracks s (h ∷ q)
    → Pops s (take_record release s) (h ∷ q)
unfolding take_record pop
take_record-pop release s h q t = rw t.chain.0 (elim (Bool-cases (is_busy h)) [
  | inl busy ↦ rw busy (record { sample = refl; after = t; moved = refl; same_mask = refl })
  | inr committed ↦ rw committed (elim (Bool-cases (is_discarded h)) [
    | inl dropped ↦ rw dropped (record {
      sample = refl;
      after = past-Tracks release s h q t;
      moved = step;
      same_mask = refl;
    })
    | inr kept ↦ rw kept (record {
      sample = refl;
      after = past-Tracks release s h q t;
      moved = step;
      same_mask = refl;
    })
  ])
])
  where
    step : advance s.cons_pos h + span q ≡ s.cons_pos + (roundup_len h + span q)
    step = omega (arith, past-cons_pos s h q t)

-- After the reload the cached position tells whether the queue is empty.
pub reload-Tracks : (s : Reader) (q : Queue) → Tracks s q → Tracks (reload s) q
unfolding reload
reload-Tracks s q t = record {
  chain = t.chain;
  cached = ground arith;
  released = t.released;
  fits = t.fits;
}

pub reload-empty : (s : Reader) → Tracks s [] → ltb (reload s).cons_pos (reload s).prod_pos ≡ false
unfolding reload
reload-empty s t = ground arith

pub reload-first :
    (s : Reader) (h : ℕ) (q : Queue)
    → Tracks s (h ∷ q)
    → ltb (reload s).cons_pos (reload s).prod_pos ≡ true
unfolding reload
reload-first s h q t = ground (arith, Chain-first (header_at s.ring) s.cons_pos h q t.chain)

-- What the kernel does to a tracked ring extends the queue.
pub Kernel-Tracks :
    (k : Kernel) (s : Reader) (q : Queue)
    → Tracks s q
    → (q' : Queue) × Extends q q' × Tracks (record s { ring = k.act s.ring }) q'
Kernel-Tracks k s q t =
    let g = k.grows s.ring t.fits in
    let (q', e, c) = g.keeps s.cons_pos q t.released t.chain in
    (q', e, record { chain = c; cached = omega arith; released = omega arith; fits = g.fits })

pub Kernel-mask :
    (k : Kernel) (s : Reader) {q : Queue} → Tracks s q → (k.act s.ring).mask ≡ s.ring.mask
Kernel-mask k s t = (k.grows s.ring t.fits).same_mask

pub take_record-Extends :
    (release : Bool) (s : Reader) (h : ℕ) (q q' : Queue)
    → Extends (h ∷ q) q'
    → Tracks s q'
    → Pops s (take_record release s) q'
take_record-Extends release s h q [] e t = absurd e
take_record-Extends release s h q (h' ∷ q') e t = take_record-pop release s h' q' t

-- The mask does not change while the kernel acts.
pub Pops-mask :
    {s s' : Reader} {result : Option ℕ × Reader} {q : Queue}
    → s'.ring.mask ≡ s.ring.mask
    → s'.cons_pos ≡ s.cons_pos
    → Pops s' result q
    → Pops s result q
Pops-mask {s} {q} e c p = record {
  sample = p.sample ∙ ap₂ (λ m pos. Option.map (λ _. bit_and pos m + hdr_sz) (pop q).0) e c;
  after = p.after;
  moved = omega arith;
  same_mask = p.same_mask ∙ e;
}

-- One call of `ringbuf_process_one_from_ring`, with the kernel acting between its two loads,
-- is one `pop` of the queue, as the kernel has extended it by then.
pub process_one_from_ring-pop :
    (late : Kernel) (s : Reader) (q : Queue)
    → Tracks s q
    → (q' : Queue) × Extends q q' × Pops s (process_one_from_ring late s) q'
unfolding process_one_from_ring reload pop
process_one_from_ring-pop late s [] t =
    rw (reload-empty s t) (
      [],
      tt,
      record { sample = refl; after = reload-Tracks s [] t; moved = refl; same_mask = refl },
    )
process_one_from_ring-pop late s (h ∷ q) t =
    let (q', e, t') = Kernel-Tracks late (reload s) (h ∷ q) (reload-Tracks s (h ∷ q) t) in
    let p = take_record-Extends true (record (reload s) { ring = late.act s.ring }) h q q' e t' in
    rw (reload-first s h q t) (q', e, Pops-mask (Kernel-mask late s t) refl p)
