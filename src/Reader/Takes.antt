-- ===== src/Reader/Takes.antt =====
-- What a call of a reader does to a queue none of whose records is discarded, with the kernel at rest.
use mathlib.Core.Option
use bpf_ringbuf.Common.{
  none, suc, ℕ, ◌+◌, ◌≤◌, ◌<◌, ◌⊎◌, ◌≡◌, refl, ap, ◌∙◌, Option, some, [], ◌∷◌, Bool, true, length,
  arith, Bool-cases, inl, inr,
}
use bpf_ringbuf.Header.{is_busy}
use bpf_ringbuf.Queue.{Queue, pop}
use bpf_ringbuf.Queue.Committed.{Committed, Kept, busies, Kept-Committed, Committed-busies}
use bpf_ringbuf.Ring.Chain.{idle, header_at}
use bpf_ringbuf.Reader.{Reader, reload, take_record, process_one_from_ring, reads_of}
use bpf_ringbuf.Reader.Refine.{
  Tracks, take_record-pop, reload-Tracks, reload-empty, reload-first, Moves, payload,
}

-- The sample, if any, is that of the first record; a busy record stays; of the ring only
-- `consumer_pos` has changed.
pub record Takes (s : Reader) (q : Queue) (result : Option ℕ × Reader) : Type 0 where
  pub rest : Queue
  pub counted : reads_of result.0 + length rest ≡ length q
  pub kept : Kept rest
  pub same_busy : busies rest ≡ busies q
  pub tracks : Tracks result.1 rest
  pub frame : result.1.ring ≡ record s.ring { consumer_pos = result.1.ring.consumer_pos }

-- No record becomes busy.
pub Takes-Committed :
    (s : Reader) (q : Queue) (result : Option ℕ × Reader)
    → (x : Takes s q result) → Committed q
    → Committed x.rest
Takes-Committed s q result x c = Kept-Committed x.rest x.kept (x.same_busy ∙ Committed-busies q c)

module _ (release : Bool) where
  take_record-frame :
      (s : Reader)
      → (take_record release s).1.ring
        ≡ record s.ring { consumer_pos = (take_record release s).1.ring.consumer_pos }
  unfolding take_record
  take_record-frame s = elim (Bool-cases (is_busy (header_at s.ring s.cons_pos))) [
    | inl e ↦ rw e refl
    | inr e ↦ rw e refl
  ]

  pub take_record-Takes :
      (s : Reader) (x : ℕ) (q : Queue)
      → Tracks s (x ∷ q)
      → Kept (x ∷ q)
      → Takes s (x ∷ q) (take_record release s)
  unfolding pop
  take_record-Takes s x q t (d, k) = elim (Bool-cases (is_busy x)) [
    | inl busy ↦ first (none, x ∷ q) (rw busy at moves) (omega arith) (d, k) refl
    | inr ready ↦
        first (some x, q) (rw (ready, d) at moves) (omega arith) k (rw ready (omega arith))
  ]
    where
      moves : Moves s (take_record release s) (x ∷ q) (pop (x ∷ q))
      moves = take_record-pop release s x q t

      first :
          (popped : Option ℕ × Queue)
          → Moves s (take_record release s) (x ∷ q) popped
          → reads_of popped.0 + length popped.1 ≡ suc (length q)
          → Kept popped.1
          → busies popped.1 ≡ busies (x ∷ q)
          → Takes s (x ∷ q) (take_record release s)
      first (o, rest) p e kept same = record {
        rest = rest;
        counted = ap (λ o. reads_of o + length rest) p.sample ∙ (counted o ∙ e);
        kept = kept;
        same_busy = same;
        tracks = p.after;
        frame = take_record-frame s;
      }
        where
          counted :
              (o : Option ℕ)
              → reads_of (Option.map (λ _. payload s) o) + length rest ≡ reads_of o + length rest
          counted none = refl
          counted (some h) = refl

pub process-Takes :
    (s : Reader) (q : Queue) → Tracks s q → Kept q → Takes s q (process_one_from_ring idle s)
unfolding process_one_from_ring reload
process-Takes s [] t k = rw (reload-empty s t) (record {
  rest = [];
  counted = refl;
  kept = tt;
  same_busy = refl;
  tracks = reload-Tracks s [] t;
  frame = refl;
})
process-Takes s (x ∷ q) t k =
    let r = take_record-Takes true (reload s) x q (reload-Tracks s (x ∷ q) t) k in
    rw (reload-first s x q t) (record {
      rest = r.rest;
      counted = r.counted;
      kept = r.kept;
      same_busy = r.same_busy;
      tracks = r.tracks;
      frame = r.frame;
    })

-- A reader of a ring that is not empty finds a record.
pub take_record_some :
    (release : Bool) (s : Reader) (x : ℕ) (q : Queue)
    → Tracks s (x ∷ q)
    → Committed (x ∷ q)
    → reads_of (take_record release s).0 ≡ 1
unfolding pop
take_record_some release s x q t ((b, d), c) =
    counted (rw (b, d) at (take_record-pop release s x q t))
  where
    counted :
        Moves s (take_record release s) (x ∷ q) (some x, q) → reads_of (take_record release s).0 ≡ 1
    counted p = ap reads_of p.sample

pub process_some :
    (s : Reader) (x : ℕ) (q : Queue)
    → Tracks s (x ∷ q)
    → Committed (x ∷ q)
    → reads_of (process_one_from_ring idle s).0 ≡ 1
unfolding process_one_from_ring reload
process_some s x q t c =
    rw (reload-first s x q t) (take_record_some true (reload s) x q (reload-Tracks s (x ∷ q) t) c)

-- A call that finds no record leaves the ring, if `moves` says so, which is then empty or has a
-- record that the reader did not know before and knows now.
abbrev pub Serves : Reader → Queue → Option ℕ × Reader → Type 0 → Type 0
Serves s q (sample, s') moves =
    (reads_of sample ≡ 1)
    ⊎ ((reads_of sample ≡ 0)
        × moves
        × ((length q ≡ 0) ⊎ ((s.prod_pos ≤ s.cons_pos) × (s'.cons_pos < s'.prod_pos))))

pub process-Serves :
    (s : Reader) (q : Queue) {moves : Type 0}
    → Tracks s q
    → Committed q
    → moves
    → Serves s q (process_one_from_ring idle s) moves
unfolding process_one_from_ring
process-Serves s [] t c go = inr (rw (reload-empty s t) refl, go, inl refl)
process-Serves s (x ∷ q) t c go = inl (process_some s x q t c)
