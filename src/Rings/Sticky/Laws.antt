-- ===== src/Rings/Sticky/Laws.antt =====
-- What multi_ringbuf_reserve/case3.c and case4.c read of each ring.
use bpf_ringbuf.Common.{
  ℕ, ◌+◌, ◌%◌, ◌^◌, ◌<◌, ◌≡◌, refl, List, [], ◌∷◌, Bool, false, arith, ltb, leb, Bool-cases, inl,
  inr,
}
use bpf_ringbuf.Queue.{Queue, Extends, Extends-refl}
use bpf_ringbuf.Ring.Chain.{Kernel}
use bpf_ringbuf.Reader.{Reader, some_of, take_record}
use bpf_ringbuf.Reader.Refine.{
  Tracks, Pops, Kernel-Tracks, Kernel-mask, Pops-mask, take_record-Extends,
}
use bpf_ringbuf.Reader.Progress.{Progress, Progress-refl, Progress-trans, Progress-pop}
use bpf_ringbuf.Rings.{Rings, in_range, reader, store, Sample, tag, switch, Round}
use bpf_ringbuf.Rings
use bpf_ringbuf.Rings.Progress.{IsValid, IterationReads, CaptureReads, capture-CaptureReads}
use bpf_ringbuf.Rings.Store.{IsValid-in_range, store-Reads}
use bpf_ringbuf.Rings.Sticky.{reload, leaves, read, visit, process_one_from_ring}

module _ (each : Bool) where
  reload-Progress : (s : Reader) (q : Queue) → Tracks s q → Progress s q [] (reload each s)
  unfolding reload
  reload-Progress s q t = record {
    gone = [];
    pending = q;
    log = Extends-refl q;
    committed = tt;
    delivered = refl;
    position = omega arith;
    same_mask = refl;
    ends = record { chain = t.chain; cached = omega arith; released = ground arith; fits = t.fits };
  }

  -- The reader knows that there is a record.
  read-record :
      (late : Kernel) (s : Reader) (h : ℕ) (q : Queue)
      → Tracks s (h ∷ q)
      → (q' : Queue) × Extends (h ∷ q) q'
        × Pops s (take_record each (record s { ring = late.act s.ring })) q'
  read-record late s h q t =
      let (q', e, t') = Kernel-Tracks late s (h ∷ q) t in
      let p = take_record-Extends each (record s { ring = late.act s.ring }) h q q' e t' in
      (q', e, Pops-mask (Kernel-mask late s t) refl p)

  read-Progress :
      (late : Kernel) (s : Reader) (q : Queue)
      → Tracks s q
      → let (sample, s') = read each late s in Progress s q (some_of sample []) s'
  unfolding read
  read-Progress late s [] t =
      let e : ltb s.cons_pos s.prod_pos ≡ false = ground arith in rw e (Progress-refl s [] t)
  read-Progress late s (h ∷ q) t = elim (Bool-cases (ltb s.cons_pos s.prod_pos)) [
    | inl e ↦
        let (q', x, p) = read-record late s h q t in
        rw e
          (Progress-pop s (h ∷ q) q' (take_record each (record s { ring = late.act s.ring })) x p)
    | inr e ↦ rw e (Progress-refl s (h ∷ q) t)
  ]

  visit-Progress :
      (late : Kernel) (s : Reader) (q : Queue)
      → Tracks s q
      → let (switches, sample, s') = visit each late s in Progress s q (some_of sample []) s'
  unfolding visit
  visit-Progress late s q t = elim (Bool-cases (leb s.prod_pos s.cons_pos)) [
    | inr known ↦ rw known (read-Progress late s q t)
    | inl reached ↦ rw reached (elim (Bool-cases (leaves (reload each s))) [
      | inl moves ↦ rw moves (reload-Progress s q t)
      | inr stays ↦ rw stays (later (reload-Progress s q t))
    ])
  ]
    where
      later :
          Progress s q [] (reload each s)
          → let (sample, s') = read each late (reload each s) in Progress s q (some_of sample []) s'
      later a = Progress-trans a (read-Progress late (reload each s) a.pending a.ends)

  pub sticky-Reads : IterationReads (process_one_from_ring each)
  unfolding process_one_from_ring
  sticky-Reads late m i q v t = rw (IsValid-in_range m v) (
    _,
    _,
    refl,
    elim (Bool-cases (visit each late (reader m m.ringbuf_pos)).0) [
      | inl switches ↦ rw switches (
          store-Reads m v i q t _ _ ((m.ringbuf_pos + 1) % m.ring_cnt) (omega arith)
            (visit-Progress late (reader m m.ringbuf_pos)))
      | inr stays ↦ rw stays (
          store-Reads m v i q t _ _ m.ringbuf_pos v.current
            (visit-Progress late (reader m m.ringbuf_pos)))
    ],
  )

  -- A capture of case 3 (`each` false) or case 4 (`each` true) on valid rings makes no access out of
  -- range, whatever the kernel does and however long the calls run: each ring that is tracked is
  -- read as a queue, every record once and in order, and `n_elaborated` counts the samples of all
  -- rings.
  pub sticky-CaptureReads :
      (calls : List (List Round)) (m : Rings) (i : ℕ) (q : Queue) (n : ℕ)
      → n < 2 ^ 64
      → IsValid m
      → Tracks (reader m i) q
      → CaptureReads m i q n (Rings.capture (process_one_from_ring each) calls m n)
  sticky-CaptureReads calls m i q n small v t =
      capture-CaptureReads (process_one_from_ring each) sticky-Reads i calls m q n small v t
