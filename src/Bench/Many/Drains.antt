-- ===== src/Bench/Many/Drains.antt =====
-- How a test over one ring for each CPU ends, when no more events come.
use mathlib.Core.Option
use mathlib.Core.Path.{subst}
use native.Mathlib.Nat.{mul-le-mul_right}
use bpf_ringbuf.Common.{
  ℕ, zero, suc, ◌+◌, ◌*◌, ◌%◌, ◌^◌, ◌≤◌, ◌<◌, ◌≡◌, refl, inl, inr, Option, none, some, List, [],
  ◌∷◌, ◌++◌, Bool, true, false, arith, ◌==◌,
}
use bpf_ringbuf.Queue.Committed.{Committed}
use bpf_ringbuf.Ring.Chain.{idle}
use bpf_ringbuf.Reader.Refine.{Tracks}
use bpf_ringbuf.Rings.{Iteration, reader}
use bpf_ringbuf.Rings.Progress.{IsValid}
use bpf_ringbuf.Rings.Takes.{TakesOne, IterationTakes, round_robin-Takes}
use bpf_ringbuf.Rings.Sticky.Takes.{sticky-Takes}
use bpf_ringbuf.Rings.RoundRobin
use bpf_ringbuf.Rings.Sticky
use bpf_ringbuf.Bpf.{Helpers}
use bpf_ringbuf.Bench.{Turn, events, reads}
use bpf_ringbuf.Bench.Many.{Mapped, Bench, mapped, after_read, turn, turns}
use bpf_ringbuf.Rings.Held.{waits, waits_none-at_end}
use bpf_ringbuf.Bench.Many.Balance.{Balance, Balanced}
use bpf_ringbuf.Bench.Many.Laws.{after_read-rest, taken, start-Balanced, start-Balance}
use bpf_ringbuf.Rings.Soon.{DrainsIn, DrainsIn-any, DrainsIn-step, DrainsIn-fields}

module _ (h : Helpers) (cnt : ℕ) (m : Mapped h cnt) where
  -- The reader has come to the end of every ring, and the counters add up to `k`.
  abbrev pub Drained : ℕ → Option (Bench h) → Type 0
  Drained k none = ⊥
  Drained k (some b) =
      ((i : ℕ) → i < cnt → b.cons_pos i ≡ (m.view b.kernel i).producer_pos)
      × ((b.globals.n_drops + (b.globals.n_skipped + b.n_elaborated)) % 2 ^ 64 ≡ k % 2 ^ 64)

  waits_none-Drained :
      (k : ℕ) (b : Bench h) (a : Balance h cnt m k b) → waits cnt a.waiting ≡ 0 → Drained k (some b)
  waits_none-Drained k b a none_wait = (
    waits_none-at_end Committed cnt (mapped h cnt m b) a.waiting a.held none_wait,
    omega (arith, a.all, a.n_drops, a.n_skipped, a.n_elaborated),
  )

  module _ (iterate : Iteration) (law : IterationTakes iterate) (customized : Bool) (byte : ℕ) where
    abbrev Bound : (k : ℕ) (b : Bench h) → Balance h cnt m k b → ℕ → Type 0
    Bound k b a n = DrainsIn cnt (mapped h cnt m b) a.waiting n

    -- The account after one iteration, with one iteration fewer left.
    read-Bound :
        (k n : ℕ) (b : Bench h) (a : Balance h cnt m k b)
        → Bound k b a (n + 1)
        → (x : TakesOne
            (mapped h cnt m b)
            (a.waiting b.ringbuf_pos)
            (iterate idle (mapped h cnt m b)))
        → let b' = after_read h cnt m b (x.out, x.rings) in
          (a' : Balance h cnt m k b') × Bound k b' a' n
    read-Bound k n b a d x =
        let (a', e) = after_read-rest h cnt m iterate law customized byte k b a x in
        let current = a.valid.current in
        let left =
          DrainsIn-step cnt (mapped h cnt m b) a.waiting _ x a.count a.valid n
            (a.held b.ringbuf_pos (omega (arith, a.count))).0 d in
        (a', rw e (DrainsIn-fields cnt x.rings _ n _ _ _ left))

    drain :
        (n k : ℕ) (b : Bench h) (a : Balance h cnt m k b)
        → Bound k b a n
        → Drained k (turns h cnt m iterate customized byte (reads n) b)
    unfolding turns turn Option.bind
    drain zero k b a (inl none_wait) = waits_none-Drained k b a none_wait
    drain zero k b a (inr (w, e, s)) = let bound = s.enough in absurd (omega arith)
    drain (suc n) k b a d =
        let x = taken h cnt m iterate law customized byte k b a in
        let (a', d') = read-Bound k n b a (subst (λ l. Bound k b a l) (omega arith) d) x in
        rw x.returns (drain n k (after_read h cnt m b (x.out, x.rings)) a' d')

    turns-append :
        (ts us : List Turn) (b : Bench h)
        → turns h cnt m iterate customized byte (ts ++ us) b
          ≡ Option.bind
              (turns h cnt m iterate customized byte ts b)
              (turns h cnt m iterate customized byte us)
    unfolding turns Option.bind
    turns-append [] us b = refl
    turns-append (t ∷ ts) us b =
        bind-append (turn h cnt m iterate customized byte t b)
          (turns h cnt m iterate customized byte (ts ++ us))
          (turns h cnt m iterate customized byte ts) (turns h cnt m iterate customized byte us)
          (turns-append ts us)
      where
        bind-append :
            (o : Option (Bench h)) (f g l : Bench h → Option (Bench h))
            → ((b : Bench h) → f b ≡ Option.bind (g b) l)
            → Option.bind o f ≡ Option.bind (Option.bind o g) l
        bind-append none f g l e = refl
        bind-append (some b) f g l e = e b

    start-Drained :
        (ts : List Turn) (n : ℕ) (b : Bench h)
        → Balance h cnt m 0 b
        → events ts * (2 * cnt) ≤ n
        → Drained (events ts) (turns h cnt m iterate customized byte (ts ++ reads n) b)
    unfolding Option.bind
    start-Drained ts n b a enough = rw (turns-append ts (reads n) b) (
        then_drain (turns h cnt m iterate customized byte ts b)
          (start-Balanced h cnt m iterate law customized byte ts b a))
      where
        few : (k w : ℕ) → w ≤ k → k * (2 * cnt) ≤ n → w * (2 * cnt) ≤ n
        few k w le bound = let more = mul-le-mul_right (2 * cnt) le in omega arith

        then_drain :
            (o : Option (Bench h))
            → Balanced h cnt m (events ts) o
            → Drained (events ts) (Option.bind o (turns h cnt m iterate customized byte (reads n)))
        then_drain none bad = bad
        then_drain (some b') a' =
            let current = a'.valid.current in
            drain n (events ts) b' a' (
              DrainsIn-any cnt a'.waiting (mapped h cnt m b') n (omega (arith, a'.count))
                (few (events ts) (waits cnt a'.waiting) (omega (arith, a'.all)) enough))

  -- A test over one ring for each CPU whose rings are empty at first, with the capture on and the
  -- three counters at 0, with as many rings in the reader as in the array, an index and positions for
  -- each, with a kernel that keeps the rings as documented (Mapped), with or without CUSTOMIZED:
  -- after any order of getpgid calls and iterations of the loop of case 1, case 3 or case 4, and then
  -- at least two iterations for each event and each ring without another event, no access was out of
  -- range, the reader has come to the producer position of every ring, and n_drops, n_skipped and
  -- n_elaborated are together the number of events, modulo 2 ^ 64.
  pub benches-Drains :
      (customized : Bool) (byte : ℕ) (ts : List Turn) (n : ℕ) (b : Bench h)
      → IsValid (mapped h cnt m b)
      → b.ring_cnt ≡ cnt
      → ((i : ℕ) → i < cnt → Tracks (reader (mapped h cnt m b) i) [])
      → (b.globals.capture_enabled == 0) ≡ false
      → b.globals.n_drops ≡ 0
      → b.globals.n_skipped ≡ 0
      → b.n_elaborated ≡ 0
      → events ts * (2 * cnt) ≤ n
      → Drained (events ts) (turns h cnt m RoundRobin.iterate customized byte (ts ++ reads n) b)
        × Drained (events ts) (turns h cnt m Sticky.case3 customized byte (ts ++ reads n) b)
        × Drained (events ts) (turns h cnt m Sticky.case4 customized byte (ts ++ reads n) b)
  benches-Drains customized byte ts n b v count empty on zd zs ze enough =
      let start = start-Balance h cnt m b v count empty on zd zs ze in
      (
        start-Drained RoundRobin.iterate round_robin-Takes customized byte ts n b start enough,
        start-Drained Sticky.case3 (sticky-Takes false) customized byte ts n b start enough,
        start-Drained Sticky.case4 (sticky-Takes true) customized byte ts n b start enough,
      )
