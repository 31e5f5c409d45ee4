-- ===== src/Rings/Agree.antt =====
-- What the readers deliver of rings that hold committed records, with the kernel at rest. Which ring
-- comes next differs from case to case; a quotient forgets it.
mod Tests
use mathlib.Core.Option
use mathlib.Core.Path.{ap₂}
use mathlib.Core.Quot
use mathlib.Core.Quot.{Quot}
use bpf_ringbuf.Common.{
  ℕ, zero, suc, ◌+◌, ◌*◌, ◌%◌, ◌^◌, ◌≤◌, ◌<◌, ◌≡◌, refl, sym, ap, ◌∙◌, ◌⊎◌, inl, inr, Option, none,
  some, List, [], ◌∷◌, ◌++◌, append-nil, true, false, length, arith,
}
use bpf_ringbuf.Header.{u64, roundup_len}
use bpf_ringbuf.Queue.{Queue, span, Extends}
use bpf_ringbuf.Queue.Committed.{Committed, Extends-same}
use bpf_ringbuf.Ring.Chain.{Chain, Chain-first, Chain-span, header_at}
use bpf_ringbuf.Reader.{Reader}
use bpf_ringbuf.Reader.Refine.{Tracks}
use bpf_ringbuf.Reader.Progress.{Progress, payloads}
use bpf_ringbuf.Rings.{
  Rings, Sample, Round, Outcome, running, returned, Iteration, reader, consume_one, capture,
  then_capture,
}
use bpf_ringbuf.Rings.Progress.{from, IterationReads, CaptureReads, capture-CaptureReads}
use bpf_ringbuf.Rings.Takes.{IterationTakes, round_robin-Takes}
use bpf_ringbuf.Rings.Sticky.Takes.{sticky-Takes}
use bpf_ringbuf.Rings.RoundRobin
use bpf_ringbuf.Rings.RoundRobin.Laws.{iterate-Reads}
use bpf_ringbuf.Rings.Sticky
use bpf_ringbuf.Rings.Sticky.Laws.{sticky-Reads}
use bpf_ringbuf.Rings.Held.{waits, waits_none-at_end}
use bpf_ringbuf.Rings.Soon.{positive, Soon-any}
use bpf_ringbuf.Rings.Deliver.{
  copies, at_rest, Full, SameEnds, Returns, FindsNone, call-Returns, call-FindsNone,
}
use bpf_ringbuf.Rings.ReadsAll.{calls_at_rest, ReadsAll, capture-ReadsAll}

-- Where the reader has come to the end of a ring to which nothing was added, it has read the queue.
read_all :
    (s s' : Reader) (q : Queue) (samples : List ℕ)
    → Committed q
    → Tracks s q
    → (p : Progress s q samples s') → s'.ring.producer_pos ≡ s.ring.producer_pos
    → s'.cons_pos ≡ s'.ring.producer_pos
    → samples ≡ payloads s.ring.mask s.cons_pos q
read_all s s' q samples c t p same at_end =
    p.delivered ∙ ap (payloads s.ring.mask s.cons_pos) (gone_all p.pending p.ends p.log)
  where
    gone_all : (pending : Queue) → Tracks s' pending → Extends q (p.gone ++ pending) → p.gone ≡ q
    gone_all [] t' log =
        Extends-same q p.gone c (rw append-nil at log)
          (omega (arith, p.position, Chain-span (header_at s.ring) s.cons_pos q t.chain))
    gone_all (x ∷ q') t' log =
        absurd (omega (arith, Chain-first (header_at s'.ring) s'.cons_pos x q' t'.chain))

-- No access was out of range; n_elaborated counts the records, and of each ring the samples are the
-- payloads of its records, in order, up to the producer position.
abbrev pub DeliversAll : ℕ → Rings → (ℕ → Queue) → Option (List Sample × ℕ × Rings) → Type 0
DeliversAll cnt m waiting none = ⊥
DeliversAll cnt m waiting (some (samples, n, m')) =
    (n ≡ waits cnt waiting % 2 ^ 64)
    × ((i : ℕ)
        → i < cnt
        → (from i samples ≡ payloads (m.rings i).mask (m.cons_pos i) (waiting i))
          × (m'.cons_pos i ≡ (m.rings i).producer_pos))

run-DeliversAll :
    (iterate : Iteration)
    → IterationTakes iterate
    → IterationReads iterate
    → (cnt calls rounds : ℕ) (m : Rings) (waiting : ℕ → Queue) → Full cnt m waiting
    → waits cnt waiting ≤ calls
    → 2 * cnt ≤ rounds
    → DeliversAll cnt m waiting (capture iterate (calls_at_rest calls rounds) m 0)
run-DeliversAll iterate takes reads cnt calls rounds m waiting f enough twice =
    rw r.returns (count, λ i lt. ring i lt (reads_of_ring i lt))
  where
    r : ReadsAll cnt m waiting (capture iterate (calls_at_rest calls rounds) m 0)
    r = capture-ReadsAll iterate takes cnt rounds twice calls m waiting 0 f enough

    reads_of_ring :
        (i : ℕ) → i < cnt → CaptureReads m i (waiting i) 0 (some (r.samples, r.count, r.rings))
    reads_of_ring i lt = rw r.returns at (
        capture-CaptureReads iterate reads i (calls_at_rest calls rounds) m (waiting i) 0
          (omega arith) f.valid (f.held i lt).1)

    count : r.count ≡ waits cnt waiting % 2 ^ 64
    count =
        let current = f.valid.current in
        let (progress, n) = reads_of_ring m.ringbuf_pos (omega (arith, f.count)) in
        omega (arith, n, r.all)

    ring :
        (i : ℕ)
        → i < cnt
        → CaptureReads m i (waiting i) 0 (some (r.samples, r.count, r.rings))
        → (from i r.samples ≡ payloads (m.rings i).mask (m.cons_pos i) (waiting i))
          × (r.rings.cons_pos i ≡ (m.rings i).producer_pos)
    ring i lt (reading, n) =
        let at_end = waits_none-at_end Committed cnt r.rings r.rest r.full.held r.none_waits i lt in
        let (c, t) = f.held i lt in
        (
          read_all (reader m i) (reader r.rings i) (waiting i) _ c t reading.progress (r.ends i)
              at_end,
          at_end ∙ r.ends i,
        )

-- With the kernel at rest, valid rings that hold queues of committed records, at least as many
-- calls as records, and at least two iterations for each ring in each call: the captures of case 1,
-- case 3 and case 4 make no access out of range, come to the producer position of every ring, and
-- deliver of every ring the payloads of its records, every one once and in order, and n_elaborated
-- is their number modulo 2 ^ 64.
pub cases-DeliversAll :
    (cnt calls rounds : ℕ) (m : Rings) (waiting : ℕ → Queue)
    → Full cnt m waiting
    → waits cnt waiting ≤ calls
    → 2 * cnt ≤ rounds
    → DeliversAll cnt m waiting (capture RoundRobin.iterate (calls_at_rest calls rounds) m 0)
      × DeliversAll cnt m waiting (capture Sticky.case3 (calls_at_rest calls rounds) m 0)
      × DeliversAll cnt m waiting (capture Sticky.case4 (calls_at_rest calls rounds) m 0)
cases-DeliversAll cnt calls rounds m waiting f enough twice = (
  run-DeliversAll _ round_robin-Takes iterate-Reads cnt calls rounds m waiting f enough twice,
  run-DeliversAll _ (sticky-Takes false) (sticky-Reads false) cnt calls rounds m waiting f enough
      twice,
  run-DeliversAll _ (sticky-Takes true) (sticky-Reads true) cnt calls rounds m waiting f enough
      twice,
)

-- The same samples of each ring in the same order, whatever comes between them.
abbrev pub SameOrder : ℕ → List Sample → List Sample → Type 0
SameOrder cnt a b = (i : ℕ) → i < cnt → from i a ≡ from i b

-- What a capture has delivered, without the order between the rings, and n_elaborated.
abbrev pub delivery :
    (cnt : ℕ) → Option (List Sample × ℕ × Rings) → Option (Quot (SameOrder cnt) × ℕ)
delivery cnt = Option.map (λ (samples, n, m). (Quot.mk samples, n))

same-delivery :
    (cnt : ℕ) (m : Rings) (waiting : ℕ → Queue) (a b : Option (List Sample × ℕ × Rings))
    → DeliversAll cnt m waiting a
    → DeliversAll cnt m waiting b
    → delivery cnt a ≡ delivery cnt b
same-delivery cnt m waiting none b d e = absurd d
same-delivery cnt m waiting (some a) none d e = absurd e
same-delivery cnt m waiting (some (a, n, r)) (some (b, k, s)) (nd, d) (ke, e) =
    ap₂ (λ x y. some (x, y)) (Quot.sound (λ i lt. (d i lt).0 ∙ sym (e i lt).0)) (nd ∙ sym ke)

-- With the kernel at rest, valid rings that hold queues of committed records, at least as many
-- calls as records, and at least two iterations for each ring in each call: case 1, case 3 and
-- case 4 deliver the same samples of every ring in the same order, as elements of the quotient that
-- forgets how the rings alternate, and the same n_elaborated.
pub cases-Agree :
    (cnt calls rounds : ℕ) (m : Rings) (waiting : ℕ → Queue)
    → Full cnt m waiting
    → waits cnt waiting ≤ calls
    → 2 * cnt ≤ rounds
    → let case1 = capture RoundRobin.iterate (calls_at_rest calls rounds) m 0 in
      let case3 = capture Sticky.case3 (calls_at_rest calls rounds) m 0 in
      let case4 = capture Sticky.case4 (calls_at_rest calls rounds) m 0 in
      (delivery cnt case1 ≡ delivery cnt case3) × (delivery cnt case3 ≡ delivery cnt case4)
cases-Agree cnt calls rounds m waiting f enough twice =
    let (one, three, four) = cases-DeliversAll cnt calls rounds m waiting f enough twice in
    (same-delivery cnt m waiting _ _ one three, same-delivery cnt m waiting _ _ three four)
