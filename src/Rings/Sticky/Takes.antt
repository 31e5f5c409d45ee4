-- ===== src/Rings/Sticky/Takes.antt =====
-- What an iteration of case 3 or 4 does to the rings, with the kernel at rest.
use bpf_ringbuf.Common.{
  ℕ, ◌+◌, ◌%◌, ◌<◌, ◌≤◌, ◌⊎◌, ◌≡◌, refl, Option, none, [], ◌∷◌, Bool, true, false, length, arith,
  leb, ltb, Bool-cases, inl, inr,
}
use bpf_ringbuf.Queue.{Queue}
use bpf_ringbuf.Queue.Committed.{Committed, Kept}
use bpf_ringbuf.Ring.Chain.{idle}
use bpf_ringbuf.Reader.{Reader, take_record, reads_of}
use bpf_ringbuf.Reader
use bpf_ringbuf.Reader.Refine.{Tracks, reload-first}
use bpf_ringbuf.Reader.Takes.{Takes, take_record-Takes, take_record_some, Serves}
use bpf_ringbuf.Rings.{reader}
use bpf_ringbuf.Rings.Store.{IsValid-in_range}
use bpf_ringbuf.Rings.Sticky.{reload, leaves, read, visit, process_one_from_ring}
use bpf_ringbuf.Rings.Takes.{IterationTakes, store-TakesOne}

module _ (each : Bool) where
  reload-Tracks : (s : Reader) (q : Queue) → Tracks s q → Tracks (reload each s) q
  unfolding reload
  reload-Tracks s q t = record {
    chain = t.chain;
    cached = omega arith;
    released = ground arith;
    fits = t.fits;
  }

  -- What follows a reload is a step from before it.
  reload-Takes :
      (s : Reader) (q : Queue) (result : Option ℕ × Reader)
      → Takes (reload each s) q result
      → Takes s q result
  unfolding reload
  reload-Takes s q result t = record {
    rest = t.rest;
    counted = t.counted;
    kept = t.kept;
    same_busy = t.same_busy;
    tracks = t.tracks;
    frame = t.frame;
  }

  stay-Takes : (s : Reader) (q : Queue) → Tracks s q → Kept q → Takes s q (none, s)
  stay-Takes s q t k = record {
    rest = q;
    counted = omega arith;
    kept = k;
    same_busy = refl;
    tracks = t;
    frame = refl;
  }

  read-Takes : (s : Reader) (q : Queue) → Tracks s q → Kept q → Takes s q (read each idle s)
  unfolding read
  read-Takes s q t k = elim (Bool-cases (ltb s.cons_pos s.prod_pos)) [
    | inr e ↦ rw e (stay-Takes s q t k)
    | inl e ↦ rw e (first e q t k)
  ]
    where
      first :
          ltb s.cons_pos s.prod_pos ≡ true
          → (q : Queue) → Tracks s q
          → Kept q
          → Takes s q (take_record each s)
      first e [] t k = let end = t.chain in let known = t.cached in absurd (ground arith)
      first e (x ∷ q) t k = take_record-Takes each s x q t k

  visit-Takes :
      (s : Reader) (q : Queue)
      → Tracks s q
      → Kept q
      → let (switches, sample, s') = visit each idle s in Takes s q (sample, s')
  unfolding visit
  visit-Takes s q t k = elim (Bool-cases (leb s.prod_pos s.cons_pos)) [
    | inr known ↦ rw known (read-Takes s q t k)
    | inl reached ↦ rw reached (elim (Bool-cases (leaves (reload each s))) [
      | inl moves ↦ rw moves (
          reload-Takes s q (none, reload each s)
            (stay-Takes (reload each s) q (reload-Tracks s q t) k))
      | inr stays ↦ rw stays (
          reload-Takes s q (read each idle (reload each s))
            (read-Takes (reload each s) q (reload-Tracks s q t) k))
    ])
  ]

  read_some :
      (s : Reader) (q : Queue)
      → Tracks s q
      → Committed q
      → ltb s.cons_pos s.prod_pos ≡ true
      → reads_of (read each idle s).0 ≡ 1
  unfolding read
  read_some s [] t c e = let end = t.chain in let known = t.cached in absurd (ground arith)
  read_some s (x ∷ q) t c e = rw e (take_record_some each s x q t c)

  -- What is unknown before a reload is known after it.
  reload_knows :
      (s : Reader) (q : Queue)
      → Tracks s q
      → leb s.prod_pos s.cons_pos ≡ true
      → (length q ≡ 0)
        ⊎ ((s.prod_pos ≤ s.cons_pos) × ((reload each s).cons_pos < (reload each s).prod_pos))
  unfolding reload Reader.reload
  reload_knows s [] t e = inl refl
  reload_knows s (x ∷ q) t e = let found = reload-first s x q t in inr (ground arith, ground arith)

  visit-Serves :
      (s : Reader) (q : Queue)
      → Tracks s q
      → Committed q
      → let (switches, sample, s') = visit each idle s in Serves s q (sample, s') (switches ≡ true)
  unfolding visit
  visit-Serves s q t c = elim (Bool-cases (leb s.prod_pos s.cons_pos)) [
    | inr known ↦ rw known (inl (read_some s q t c (ground arith)))
    | inl reached ↦ rw reached (elim (Bool-cases (leaves (reload each s))) [
      | inl moves ↦ rw moves (inr (refl, refl, reload_knows s q t reached))
      | inr stays ↦
          rw stays (inl (read_some (reload each s) q (reload-Tracks s q t) c (not_leaves s stays)))
    ])
  ]
    where
      not_leaves :
          (s : Reader)
          → leaves (reload each s) ≡ false
          → ltb (reload each s).cons_pos (reload each s).prod_pos ≡ true
      not_leaves s stays = ground arith

  served :
      (s : Reader) (q : Queue) (r : Option ℕ × Reader) {A B : Type 0}
      → (A → B)
      → Serves s q r A
      → Serves s q r B
  served s q r f (inl one) = inl one
  served s q r f (inr (no_sample, a, rest)) = inr (no_sample, f a, rest)

  pub sticky-Takes : IterationTakes (process_one_from_ring each)
  unfolding process_one_from_ring
  sticky-Takes m q v t k =
      let s = reader m m.ringbuf_pos in
      let next = (m.ringbuf_pos + 1) % m.ring_cnt in
      let r : Option ℕ × Reader = ((visit each idle s).1, (visit each idle s).2) in
      let x = visit-Takes s q t k in
      rw (IsValid-in_range m v) (elim (Bool-cases (visit each idle s).0) [
        | inl switches ↦ rw switches (
            store-TakesOne m q _ _ next v (let lt = v.current in omega arith)
              (λ c. served s q r (λ e. refl) (visit-Serves s q t c)) x)
        | inr stays ↦ rw stays (
            store-TakesOne m q _ _ m.ringbuf_pos v v.current
              (λ c. served s q r (λ e. absurd cc) (visit-Serves s q t c)) x)
      ])
