-- ===== src/Bench/Cpus/Drains.antt =====
-- How a test over a single ring ends whose events come from several CPUs.
use bpf_ringbuf.Common.{
  ℕ, zero, suc, ◌+◌, ◌%◌, ◌^◌, ◌≤◌, ◌≡◌, refl, ap, ◌∙◌, ◌⊎◌, inl, inr, List, [], ◌∷◌, false, length,
  arith, ◌==◌,
}
use bpf_ringbuf.Queue.{Queue}
use bpf_ringbuf.Queue.Committed.{Committed, Kept-Committed}
use bpf_ringbuf.Ring.Chain.{idle}
use bpf_ringbuf.Reader.{process_one_from_ring, reads_of}
use bpf_ringbuf.Reader.Refine.{Tracks}
use bpf_ringbuf.Reader.Takes.{process-Takes, process_some}
use bpf_ringbuf.Rings.Held.{empty-at_end}
use bpf_ringbuf.Bpf.{Helpers}
use bpf_ringbuf.Bench.Cpus.{Mapped, Step, read, Bench, reader, step, steps, starts, reads}
use bpf_ringbuf.Bench.Cpus.Laws.{Balance, read-rest, cpus-Balance}

module _ (h : Helpers) (rb : h.RingBuf) (m : Mapped h rb) (byte : ℕ) where
  -- Once every run has submitted its record, none that waits is busy.
  settled : (k : ℕ) (b : Bench h) (a : Balance h rb m k b) → b.in_flight ≡ [] → Committed a.waiting
  settled k b a landed = Kept-Committed a.waiting a.kept (a.busy ∙ ap length landed)

  -- A read takes a record if one waits.
  read-less :
      (k n : ℕ) (b : Bench h) (a : Balance h rb m k b)
      → b.in_flight ≡ []
      → length a.waiting ≤ n + 1
      → (a' : Balance h rb m k (step h rb m byte read b)) × (length a'.waiting ≤ n)
  read-less k n b a landed few =
      let s = reader h rb m b in
      let x = process-Takes s a.waiting a.tracks a.kept in
      let (a', e) = read-rest h rb m byte k b a x in
      let left : length a'.waiting ≡ length x.rest = ap length e in
      let took = takes a.waiting a.tracks (settled k b a landed) in (a', omega (arith, x.counted))
    where
      takes :
          (q : Queue)
          → Tracks (reader h rb m b) q
          → Committed q
          → (length q ≡ 0) ⊎ (reads_of (process_one_from_ring idle (reader h rb m b)).0 ≡ 1)
      takes [] t c = inl refl
      takes (x ∷ q) t c = inr (process_some (reader h rb m b) x q t c)

  drain :
      (n k : ℕ) (b : Bench h) (a : Balance h rb m k b)
      → b.in_flight ≡ []
      → length a.waiting ≤ n
      → (a' : Balance h rb m k (steps h rb m byte (reads n) b)) × (length a'.waiting ≡ 0)
  unfolding steps step
  drain zero k b a landed few = (a, omega arith)
  drain (suc n) k b a landed few =
      let (a', few') = read-less k n b a landed (omega arith) in
      drain n k (step h rb m byte read b) a' landed few'

  -- A test over a single ring that is empty at first, with the capture on, both counters at 0 and no
  -- record reserved, with a kernel that keeps the ring as documented (Mapped), and with the runs of
  -- the program overlapping in any way between their reservation and their submit only: once every run has submitted its record, and the capture
  -- loop has gone on alone for at least as many iterations as there were runs, the reader has come
  -- to the producer position, and n_drops and n_elaborated are together the number of runs, modulo
  -- 2 ^ 64.
  pub cpus-Drains :
      (ts : List Step) (n : ℕ) (b : Bench h)
      → Tracks (reader h rb m b) []
      → b.in_flight ≡ []
      → m.pending b.kernel ≡ []
      → (b.globals.capture_enabled == 0) ≡ false
      → b.globals.n_drops ≡ 0
      → b.n_elaborated ≡ 0
      → (steps h rb m byte ts b).in_flight ≡ []
      → starts ts ≤ n
      → let b' = steps h rb m byte (reads n) (steps h rb m byte ts b) in
        (b'.cons_pos ≡ (m.view b'.kernel).producer_pos)
        × ((b'.globals.n_drops + b'.n_elaborated) % 2 ^ 64 ≡ starts ts % 2 ^ 64)
  cpus-Drains ts n b empty none_flies none_held on zd ze landed enough =
      let a = cpus-Balance h rb m byte ts b empty none_flies none_held on zd ze in
      let (a', none_left) =
        drain n (starts ts) (steps h rb m byte ts b) a landed (omega (arith, a.all)) in
      let b' = steps h rb m byte (reads n) (steps h rb m byte ts b) in
      (
        empty-at_end (reader h rb m b') a'.waiting none_left a'.tracks,
        omega (arith, a'.all, a'.n_drops, a'.n_elaborated),
      )
