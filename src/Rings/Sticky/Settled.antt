-- ===== src/Rings/Sticky/Settled.antt =====
-- One iteration of multi_ringbuf_reserve/case3.c and case4.c where no record is busy or discarded.
use bpf_ringbuf.Common.{
  ℕ, ◌≤◌, ◌<◌, ◌^◌, ◌≡◌, refl, ◌⊎◌, inl, inr, List, [], ◌∷◌, Option, none, some, Bool, true, false,
  arith, leb, ltb, Bool-cases,
}
use bpf_ringbuf.Queue.Committed.{Committed}
use bpf_ringbuf.Queue.{Queue, Extends}
use bpf_ringbuf.Ring.{Ring}
use bpf_ringbuf.Ring.Chain.{Kernel, header_at, Chain}
use bpf_ringbuf.Reader.{Reader, take_record}
use bpf_ringbuf.Reader.Refine.{Tracks, payload}
use bpf_ringbuf.Rings.{Rings, reader, store, Sample, Round, switch}
use bpf_ringbuf.Rings.Progress.{IsValid}
use bpf_ringbuf.Rings.Store.{IsValid-in_range}
use bpf_ringbuf.Rings.Sticky.{reload, leaves, read, visit, process_one_from_ring}

-- The kernel commits each record that it adds before the reader looks.
abbrev pub Commits : Kernel → Type 0
Commits k =
    (r : Ring) (p : ℕ) (q : Queue)
    → r.producer_pos < 2 ^ 64
    → r.consumer_pos ≤ p
    → Chain (header_at r) p q r.producer_pos
    → Committed q
    → (q' : Queue) × Extends q q'
      × Chain (header_at (k.act r)) p q' (k.act r).producer_pos
      × Committed q'

abbrev pub AllCommit : List Round → Type 0
AllCommit [] = Unit
AllCommit (w ∷ ws) = (((i : ℕ) → Commits (w.before i)) × Commits w.late) × AllCommit ws

-- The reader is at a queue of committed records.
abbrev pub Settled : Reader → Type 0
Settled s = (q : Queue) × Tracks s q × Committed q

-- There is a record to read.
abbrev pub HasRecord : Reader → Type 0
HasRecord s = s.cons_pos < s.ring.producer_pos

-- The reader knows that there is.
abbrev pub Knows : Reader → Type 0
Knows s = s.cons_pos < s.prod_pos

-- The kernel's move keeps a reader settled, and what there is to read.
kernel-Tracks :
    (k : Kernel) (s : Reader) (q q' : Queue)
    → Tracks s q
    → Chain (header_at (k.act s.ring)) s.cons_pos q' (k.act s.ring).producer_pos
    → Tracks (record s { ring = k.act s.ring }) q'
kernel-Tracks k s q q' t c =
    let g = k.grows s.ring t.fits in
    record { chain = c; cached = omega arith; released = omega arith; fits = g.fits }

pub kernel-Settled :
    (k : Kernel) → Commits k → (s : Reader) → Settled s → Settled (record s { ring = k.act s.ring })
kernel-Settled k law s (q, t, c) =
    let (q', e, chain, c') = law s.ring s.cons_pos q t.fits t.released t.chain c in
    (q', kernel-Tracks k s q q' t chain, c')

pub kernel-HasRecord :
    (k : Kernel) (s : Reader)
    → Settled s
    → HasRecord s
    → HasRecord (record s { ring = k.act s.ring })
kernel-HasRecord k s (q, t, c) h = let g = k.grows s.ring t.fits in omega arith

-- The first record of a settled reader is handed out.
take_record-Settled :
    (each : Bool) (s : Reader)
    → Settled s
    → HasRecord s
    → (s' : Reader) × (take_record each s ≡ (some (payload s), s'))
unfolding take_record
take_record-Settled each s ([], t, c) h = let e = t.chain in absurd (omega arith)
take_record-Settled each s (x ∷ q, t, ((b, d), c)) h = rw t.chain.0 (rw (b, d) (_, refl))

module _ (each : Bool) where
  pub reload-Settled : (s : Reader) → Settled s → Settled (reload each s)
  unfolding reload
  reload-Settled s (q, t, c) = (
    q,
    record { chain = t.chain; cached = omega arith; released = ground arith; fits = t.fits },
    c,
  )

  read-Settled :
      (late : Kernel)
      → Commits late
      → (s : Reader) → Settled s
      → Knows s
      → (s' : Reader) × (d : ℕ) × (read each late s ≡ (some d, s'))
  unfolding read
  read-Settled late law s p known =
      let e : ltb s.cons_pos s.prod_pos ≡ true = ground arith in
      let has : HasRecord s = let t = p.1.cached in omega arith in
      let (s', e') =
        take_record-Settled each (record s { ring = late.act s.ring }) (kernel-Settled late law s p)
          (kernel-HasRecord late s p has) in
      rw (e, e') (s', _, refl)

  -- A visit hands out a record, or has reached the known position, loads the new one and switches.
  abbrev Goes : Reader → Bool × Option ℕ × Reader → Type 0
  Goes s result =
      ((s' : Reader) × (d : ℕ) × (result ≡ (false, some d, s')))
      ⊎ ((result ≡ (true, none, reload each s)) × (leb s.prod_pos s.cons_pos ≡ true))

  visit-Goes :
      (late : Kernel) → Commits late → (s : Reader) → Settled s → Goes s (visit each late s)
  unfolding visit
  visit-Goes late law s p = elim (Bool-cases (leb s.prod_pos s.cons_pos)) [
    | inr known ↦
        (let (s', d, e) = read-Settled late law s p (ground arith) in
          rw (known, e) (inl (s', d, refl)))
    | inl reached ↦ elim (Bool-cases (leaves (reload each s))) [
      | inl moves ↦ rw (reached, moves) (inr (refl, refl))
      | inr stays ↦
          (let (s', d, e) =
              read-Settled late law (reload each s) (reload-Settled s p)
                (stays-Knows (reload each s) stays) in
            rw (reached, stays, e) (inl (s', d, refl)))
    ]
  ]
    where
      stays-Knows : (s : Reader) → leaves s ≡ false → Knows s
      stays-Knows s e = ground arith

  -- The rings after an iteration that switches.
  abbrev pub switched : Rings → Rings
  switched m = let i = m.ringbuf_pos in switch (store m i (reload each (reader m i)))

  abbrev pub StepGoes : Rings → Option (Option Sample × Rings) → Type 0
  StepGoes m result =
      ((d : Sample) × (m' : Rings) × (result ≡ some (some d, m')))
      ⊎ ((result ≡ some (none, switched m))
          × ((m.prod_pos m.ringbuf_pos) ≤ (m.cons_pos m.ringbuf_pos)))

  pub process-Goes :
      (late : Kernel)
      → Commits late
      → (m : Rings) → IsValid m
      → Settled (reader m m.ringbuf_pos)
      → StepGoes m (process_one_from_ring each late m)
  unfolding process_one_from_ring
  process-Goes late law m v p = elim (visit-Goes late law (reader m m.ringbuf_pos) p) [
    | inl (s', d, e) ↦ rw (e, IsValid-in_range m v) (inl (_, _, refl))
    | inr (e, reached) ↦ rw (e, IsValid-in_range m v) (inr (refl, ground arith))
  ]

-- Every ring is settled.
abbrev pub AllSettled : Rings → Type 0
AllSettled m = (i : ℕ) → i < m.ring_cnt → Settled (reader m i)
