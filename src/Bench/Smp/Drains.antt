-- ===== src/Bench/Smp/Drains.antt =====
-- How a test over one ring for each CPU ends whose runs have overlapped.
use mathlib.Core.Option
use mathlib.Core.Path.{subst}
use native.Mathlib.Nat.{mul-le-mul_right}
use bpf_ringbuf.Common.{
  ℕ, zero, suc, ◌+◌, ◌*◌, ◌%◌, ◌^◌, ◌≤◌, ◌<◌, ◌≡◌, ap, ◌∙◌, inl, inr, Option, none, some, List, [],
  Bool, false, arith, ◌==◌,
}
use bpf_ringbuf.Queue.Committed.{Committed, Kept, Kept-Committed}
use bpf_ringbuf.Ring.Chain.{idle}
use bpf_ringbuf.Reader.Refine.{Tracks}
use bpf_ringbuf.Rings.{reader}
use bpf_ringbuf.Rings.Progress.{IsValid}
use bpf_ringbuf.Rings.Takes.{TakesOne}
use bpf_ringbuf.Rings.Held.{waits, waits_none-at_end}
use bpf_ringbuf.Rings.Soon.{DrainsIn, DrainsIn-any, DrainsIn-step, DrainsIn-fields}
use bpf_ringbuf.Bpf.{Helpers}
use bpf_ringbuf.Bench.Cpus.{Step, starts, reads}
use bpf_ringbuf.Bench.Smp.{
  Case, iterate_of, count_at, Mapped, Bench, view, pending, mapped, after_read, step, steps,
}
use bpf_ringbuf.Bench.Smp.Balance.{Balance}
use bpf_ringbuf.Bench.Smp.Laws.{Balanced, after_read-rest, taken, smp-Balance}

module _ (h : Helpers) (cnt : ℕ) (m : Mapped h cnt) where
  -- The reader has come to the end of every ring, and the counters add up to `k`.
  abbrev pub Drained : ℕ → Option (Bench h) → Type 0
  Drained k none = ⊥
  Drained k (some b) =
      ((i : ℕ) → i < cnt → b.cons_pos i ≡ (view h cnt m b.kernel i).producer_pos)
      × ((b.globals.n_drops + (b.globals.n_skipped + b.n_elaborated)) % 2 ^ 64 ≡ k % 2 ^ 64)

  waits_none-Drained :
      (k : ℕ) (b : Bench h) (a : Balance h cnt m k b) → waits cnt a.waiting ≡ 0 → Drained k (some b)
  waits_none-Drained k b a none_wait = (
    waits_none-at_end Kept cnt (mapped h cnt m b) a.waiting a.held none_wait,
    omega (arith, a.all, a.n_drops, a.n_skipped, a.n_elaborated),
  )

  -- Once every run has submitted its record, none that waits is busy.
  settled :
      (k : ℕ) (b : Bench h) (a : Balance h cnt m k b)
      → b.in_flight ≡ []
      → Committed (a.waiting b.ringbuf_pos)
  settled k b a landed =
      let i = b.ringbuf_pos in
      let current = a.valid.current in
      let lt : i < cnt = omega (arith, a.count) in
      Kept-Committed (a.waiting i) (a.held i lt).0 (a.busy i lt ∙ ap (count_at m.place i) landed)

  few : (k w n : ℕ) → w ≤ k → k * (2 * cnt) ≤ n → w * (2 * cnt) ≤ n
  few k w n le bound = let more = mul-le-mul_right (2 * cnt) le in omega arith

  module _ (c : Case) (customized : Bool) (byte : ℕ) where
    -- The account after one iteration, with one iteration fewer left.
    read-Bound :
        (k n : ℕ) (b : Bench h) (a : Balance h cnt m k b)
        → b.in_flight ≡ []
        → DrainsIn cnt (mapped h cnt m b) a.waiting (n + 1)
        → (x : TakesOne
            (mapped h cnt m b)
            (a.waiting b.ringbuf_pos)
            (iterate_of c idle (mapped h cnt m b)))
        → let b' = after_read h cnt m b (x.out, x.rings) in
          (a' : Balance h cnt m k b') × DrainsIn cnt (mapped h cnt m b') a'.waiting n
    read-Bound k n b a landed d x =
        let (a', e) = after_read-rest h cnt m c customized byte k b a x in
        let left =
          DrainsIn-step cnt (mapped h cnt m b) a.waiting _ x a.count a.valid n
            (settled k b a landed) d in
        (a', rw e (DrainsIn-fields cnt x.rings _ n _ _ _ left))

    drain :
        (n k : ℕ) (b : Bench h) (a : Balance h cnt m k b)
        → b.in_flight ≡ []
        → DrainsIn cnt (mapped h cnt m b) a.waiting n
        → Drained k (steps h cnt m c customized byte (reads n) b)
    unfolding steps step Option.bind
    drain zero k b a landed (inl none_wait) = waits_none-Drained k b a none_wait
    drain zero k b a landed (inr (w, e, s)) = let bound = s.enough in absurd (omega arith)
    drain (suc n) k b a landed d =
        let x = taken h cnt m c customized byte k b a in
        let within = subst (λ l. DrainsIn cnt (mapped h cnt m b) a.waiting l) (omega arith) d in
        let (a', d') = read-Bound k n b a landed within x in
        rw x.returns (drain n k (after_read h cnt m b (x.out, x.rings)) a' landed d')

  -- A test over one ring for each CPU whose rings are empty at first, with the capture on, the three
  -- counters at 0 and no record reserved, with as many rings in the reader as in the array, an index
  -- and positions for each, with a kernel that keeps the rings as documented (Mapped), with or without
  -- CUSTOMIZED, with the runs of the program overlapping in any way between their reservation and
  -- their submit only, and with the loop of case 1, case 3 or case 4: if every run has submitted its record, then after at least two more iterations for
  -- each run and each ring no access was out of range, the reader has come to the producer position
  -- of every ring, and n_drops, n_skipped and n_elaborated are together the number of runs, modulo
  -- 2 ^ 64.
  pub smp-Drains :
      (c : Case) (customized : Bool) (byte : ℕ) (ts : List Step) (n : ℕ) (b b' : Bench h)
      → IsValid (mapped h cnt m b)
      → b.ring_cnt ≡ cnt
      → ((i : ℕ) → i < cnt → Tracks (reader (mapped h cnt m b) i) [])
      → b.in_flight ≡ []
      → pending h cnt m b.kernel ≡ []
      → (b.globals.capture_enabled == 0) ≡ false
      → b.globals.n_drops ≡ 0
      → b.globals.n_skipped ≡ 0
      → b.n_elaborated ≡ 0
      → steps h cnt m c customized byte ts b ≡ some b'
      → b'.in_flight ≡ []
      → starts ts * (2 * cnt) ≤ n
      → Drained (starts ts) (steps h cnt m c customized byte (reads n) b')
  smp-Drains c customized byte ts n b b' v count empty none_flies none_held on zd zs ze ran landed
        enough =
      let a : Balance h cnt m (starts ts) b' = subst (Balanced h cnt m (starts ts)) ran (
        smp-Balance h cnt m c customized byte ts b v count empty none_flies none_held on zd zs
          ze) in
      let current = a.valid.current in
      drain c customized byte n (starts ts) b' a landed (
        DrainsIn-any cnt a.waiting (mapped h cnt m b') n (omega (arith, a.count))
          (few (starts ts) (waits cnt a.waiting) n (omega (arith, a.all)) enough))
