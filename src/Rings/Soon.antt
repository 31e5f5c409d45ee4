-- ===== src/Rings/Soon.antt =====
-- How many iterations pass until a record is taken from rings that wait.
use native.Mathlib.Nat.{mod-eq_of_lt, add-mod_right}
use bpf_ringbuf.Common.{
  ℕ, zero, suc, ◌+◌, ◌-◌, ◌*◌, ◌%◌, ◌≤◌, ◌<◌, ◌≡◌, refl, sym, ap, ◌∙◌, ◌⊎◌, inl, inr, Option, none,
  some, true, false, length, arith, ◌==◌, update, Bool-cases,
}
use bpf_ringbuf.Queue.{Queue}
use bpf_ringbuf.Queue.Committed.{Committed}
use bpf_ringbuf.Ring.{Ring}
use bpf_ringbuf.Reader.{Reader, reads_of}
use bpf_ringbuf.Rings.{Rings, Sample}
use bpf_ringbuf.Rings.Progress.{IsValid}
use bpf_ringbuf.Rings.Store.{==-eq, ==-refl}
use bpf_ringbuf.Rings.Takes.{TakesOne, sample_of}
use bpf_ringbuf.Rings.RoundRobin.Fair.{step-nearer, distance, distance_lem}
use bpf_ringbuf.Rings.Held.{total, waits, waits-update}

-- The globals of the reader that decide, and the queues: a ring that waits is at most `steps`
-- iterations away, which are counted from the current index. The first visit may only make its
-- records known, and then the reader goes once round.
pub record Soon (cnt : ℕ) (r : Rings) (waiting : ℕ → Queue) (w n : ℕ) : Type 0 where
  pub ring : ℕ
  pub fits : ring < cnt
  pub waits_there : 1 ≤ length (waiting ring)
  pub away : ℕ
  pub below : away < cnt
  pub ahead : (r.ringbuf_pos + away) % cnt ≡ ring
  pub steps : ℕ
  pub known : ((r.cons_pos ring < r.prod_pos ring) × (steps ≡ away)) ⊎ (steps ≡ away + cnt)
  pub enough : w * (2 * cnt) + steps + 1 ≤ n

-- After `n` iterations every record is taken.
abbrev pub DrainsIn : ℕ → Rings → (ℕ → Queue) → ℕ → Type 0
DrainsIn cnt r waiting n =
    (waits cnt waiting ≡ 0) ⊎ ((w : ℕ) × (waits cnt waiting ≡ w + 1) × Soon cnt r waiting w n)

pub positive : (k : ℕ) → (k ≡ 0) ⊎ ((w : ℕ) × (k ≡ w + 1))
positive zero = inl refl
positive (suc w) = inr (w, omega arith)

find : (n : ℕ) (f : ℕ → ℕ) (w : ℕ) → total n f ≡ w + 1 → (i : ℕ) × (i < n) × (1 ≤ f i)
find zero f w e = absurd (omega arith)
find (suc n) f w e = elim (positive (f n)) [
  | inl z ↦ let (i, lt, one) = find n f w (omega arith) in (i, omega arith, one)
  | inr (v, some_wait) ↦ (n, omega arith, omega arith)
]

module _ (cnt : ℕ) (waiting : ℕ → Queue) where
  -- From any index, a record that waits takes at most two rounds.
  pub Soon-any :
      (r : Rings) (w v n : ℕ)
      → r.ringbuf_pos < cnt
      → waits cnt waiting ≡ w + 1
      → v * (2 * cnt) + 2 * cnt ≤ n
      → Soon cnt r waiting v n
  Soon-any r w v n lt e enough =
      let (i, fits, one) = find cnt (λ j. length (waiting j)) w e in
      let (below, ahead) = distance_lem cnt r.ringbuf_pos i lt fits in
      record {
        ring = i;
        fits = fits;
        waits_there = one;
        away = distance cnt r.ringbuf_pos i;
        below = below;
        ahead = ahead;
        steps = distance cnt r.ringbuf_pos i + cnt;
        known = inr refl;
        enough = omega arith;
      }

  pub DrainsIn-any :
      (r : Rings) (n : ℕ)
      → r.ringbuf_pos < cnt
      → waits cnt waiting * (2 * cnt) ≤ n
      → DrainsIn cnt r waiting n
  DrainsIn-any r n lt enough = elim (positive (waits cnt waiting)) [
    | inl none_wait ↦ inl none_wait
    | inr (w, e) ↦
        let bound : (w + 1) * (2 * cnt) ≤ n = rw e at enough in
        inr (w, e, Soon-any r w w n lt e (omega arith))
  ]

-- Only the positions of the reader and its index decide.
pub DrainsIn-fields :
    (cnt : ℕ) (r : Rings) (waiting : ℕ → Queue) (n : ℕ) (rings : ℕ → Ring) (n_cpus ring_cnt : ℕ)
    → DrainsIn cnt r waiting n
    → DrainsIn cnt (record r { rings = rings; n_cpus = n_cpus; ring_cnt = ring_cnt }) waiting n
DrainsIn-fields cnt r waiting n rings n_cpus ring_cnt (inl none_wait) = inl none_wait
DrainsIn-fields cnt r waiting n rings n_cpus ring_cnt (inr (w, e, s)) = inr (
  w,
  e,
  record {
    ring = s.ring;
    fits = s.fits;
    waits_there = s.waits_there;
    away = s.away;
    below = s.below;
    ahead = s.ahead;
    steps = s.steps;
    known = s.known;
    enough = s.enough;
  },
)

module _ (cnt : ℕ) (m : Rings) (waiting : ℕ → Queue) (result : Option (Option Sample × Rings))
    (x : TakesOne m (waiting m.ringbuf_pos) result) (e : m.ring_cnt ≡ cnt) (v : IsValid m) where
  abbrev pub left : ℕ → Queue
  left = update waiting m.ringbuf_pos x.rest

  in_range : m.ringbuf_pos < cnt
  in_range = let lt = v.current in omega (arith, e)

  pub fewer : waits cnt left + length (waiting m.ringbuf_pos) ≡ waits cnt waiting + length x.rest
  fewer = waits-update cnt m.ringbuf_pos waiting x.rest in_range

  count-sample : (o : Option Sample) → reads_of (sample_of o) ≡ reads_of o
  count-sample none = refl
  count-sample (some d) = refl

  -- The iteration has passed an empty ring, or made its records known.
  abbrev pub Passes : Type 0
  Passes =
      (reads_of x.out ≡ 0)
      × (x.rings.ringbuf_pos ≡ (m.ringbuf_pos + 1) % cnt)
      × ((length (waiting m.ringbuf_pos) ≡ 0)
          ⊎ ((m.prod_pos m.ringbuf_pos ≤ m.cons_pos m.ringbuf_pos)
              × (x.rings.cons_pos m.ringbuf_pos < x.rings.prod_pos m.ringbuf_pos)))

  pub Passes-here :
      (w n : ℕ) (s : Soon cnt m waiting w (n + 1))
      → Passes
      → (m.ringbuf_pos == s.ring) ≡ true
      → Soon cnt x.rings left w n
  Passes-here w n s (none_read, moved, why) here =
      let i = m.ringbuf_pos in
      let eq : i ≡ s.ring = ==-eq i s.ring here in
      let there : 1 ≤ length (waiting i) = rw eq s.waits_there in
      let k = x.counted in
      let own : length (left i) ≡ length x.rest = rw (==-refl i) refl in
      let off = in_range in
      record {
        ring = i;
        fits = off;
        waits_there = omega (arith, own);
        away = cnt - 1;
        below = omega arith;
        ahead =
            step-nearer i x.rings.ringbuf_pos cnt i (cnt - 1) moved
              (ap (λ d. d % cnt) (omega arith) ∙ (add-mod_right i cnt ∙ mod-eq_of_lt off));
        steps = cnt - 1;
        known = inl (elim why [ inl empty ↦ absurd (omega arith) | inr (un, now) ↦ now ], refl);
        enough =
            let bound = s.enough in
            elim s.known [
              | inl (fresh, same) ↦ elim why [
                | inl empty ↦ absurd (omega arith)
                | inr (un, now) ↦ absurd (omega (arith, ap m.cons_pos eq, ap m.prod_pos eq))
              ]
              | inr same ↦ omega arith
            ];
      }

  pub Passes-other :
      (w n : ℕ) (s : Soon cnt m waiting w (n + 1))
      → Passes
      → (m.ringbuf_pos == s.ring) ≡ false
      → Soon cnt x.rings left w n
  Passes-other w n s (none_read, moved, why) other = elim (positive s.away) [
    | inl none_away ↦
        let here : m.ringbuf_pos ≡ s.ring =
          sym (mod-eq_of_lt in_range) ∙ (ap (λ d. d % cnt) (omega arith) ∙ s.ahead) in
        absurd (ground arith)
    | inr (d, away_suc) ↦
        let same = x.others s.ring other in
        let same_cons : x.rings.cons_pos s.ring ≡ m.cons_pos s.ring =
          ap {A = Reader} (λ r. r.cons_pos) same in
        let same_prod : x.rings.prod_pos s.ring ≡ m.prod_pos s.ring =
          ap {A = Reader} (λ r. r.prod_pos) same in
        let bound = s.enough in
        let off = s.below in
        record {
          ring = s.ring;
          fits = s.fits;
          waits_there = rw other s.waits_there;
          away = d;
          below = omega arith;
          ahead =
              step-nearer m.ringbuf_pos x.rings.ringbuf_pos cnt s.ring d moved
                (ap (λ k. (m.ringbuf_pos + k) % cnt) (omega arith) ∙ s.ahead);
          steps = s.steps - 1;
          known = elim s.known [
            | inl (fresh, exact) ↦ inl (omega arith, omega arith)
            | inr exact ↦ inr (omega arith)
          ];
          enough = elim s.known [ inl (fresh, exact) ↦ omega arith | inr exact ↦ omega arith ];
        }
  ]

  -- One iteration fewer is left.
  pub DrainsIn-step :
      (n : ℕ)
      → Committed (waiting m.ringbuf_pos)
      → DrainsIn cnt m waiting (n + 1)
      → DrainsIn cnt x.rings left n
  DrainsIn-step n c (inl none_wait) = inl (omega (arith, fewer, x.counted))
  DrainsIn-step n c (inr (w, more, s)) = elim (x.serves c) [
    | inl one ↦
        let bound = s.enough in
        let now : waits cnt left ≡ w = omega (arith, fewer, x.counted, count-sample x.out) in
        DrainsIn-any cnt left x.rings n (let lt = x.valid.current in omega (arith, x.same_cnt, e))
          (rw now (omega arith))
    | inr (no_sample, moved, why) ↦
        let read_none = sym (count-sample x.out) ∙ no_sample in
        let passes : Passes = (read_none, rw e at moved, why) in
        let as_many : waits cnt left ≡ w + 1 = omega (arith, fewer, x.counted) in
        elim (Bool-cases (m.ringbuf_pos == s.ring)) [
          | inl here ↦ inr (w, as_many, Passes-here w n s passes here)
          | inr other ↦ inr (w, as_many, Passes-other w n s passes other)
        ]
  ]
