-- ===== src/Reader/Fifo.antt =====
-- The whole capture loop of single_ringbuf_reserve/case1.c.
use bpf_ringbuf.Common.{
  ℕ, ◌+◌, ◌<◌, ◌^◌, ◌%◌, ◌≡◌, refl, Option, none, some, List, [], ◌∷◌, ◌++◌, arith, length,
}
use bpf_ringbuf.Queue.{Queue}
use bpf_ringbuf.Reader.{
  Reader, Round, process_one_from_ring, consume_one, capture, some_of, reads_of,
}
use bpf_ringbuf.Reader.Refine.{Tracks, process_one_from_ring-pop}
use bpf_ringbuf.Ring.Chain.{Kernel}
use bpf_ringbuf.Reader.Progress.{
  Progress, Progress-refl, Progress-trans, Progress-kernel, Progress-pop,
}

-- One call, with the kernel acting inside it.
pub process-Progress :
    (late : Kernel) (s : Reader) (q : Queue)
    → Tracks s q
    → let (sample, s') = process_one_from_ring late s in Progress s q (some_of sample []) s'
process-Progress late s q t =
    let (q', e, p) = process_one_from_ring-pop late s q t in
    Progress-pop s q q' (process_one_from_ring late s) e p

-- One call, with the kernel acting before it too.
Progress-round :
    (w : Round) (s : Reader) (q : Queue)
    → Tracks s q
    → let (sample, s') = process_one_from_ring w.late (record s { ring = w.before.act s.ring }) in
      Progress s q (some_of sample []) s'
Progress-round w s q t =
    let a = Progress-kernel w.before s q t in
    let s1 = record s { ring = w.before.act s.ring } in
    Progress-trans a (process-Progress w.late s1 a.pending a.ends)

length-some_of : (out : Option ℕ) (l : List ℕ) → length (some_of out l) ≡ reads_of out + length l
length-some_of none l = omega arith
length-some_of (some a) l = omega arith

some_of-append : (out : Option ℕ) (l : List ℕ) → some_of out [] ++ l ≡ some_of out l
some_of-append none l = refl
some_of-append (some a) l = refl

-- From a reader at the front of the queue `q`, with `n` records counted, the capture loop reads the
-- records of `q` and those that the kernel adds, each once and in order, while the kernel acts
-- between the calls and inside them: the samples are the payloads of the committed records that
-- are not discarded, and `n_elaborated` counts them, modulo 2 ^ 64.
pub capture-Progress :
    (ws : List Round) (s : Reader) (q : Queue) (n : ℕ)
    → n < 2 ^ 64
    → Tracks s q
    → let (samples, n', s') = capture ws s n in
      Progress s q samples s' × (n' ≡ (n + length samples) % 2 ^ 64)
unfolding capture consume_one
capture-Progress [] s q n small t = (Progress-refl s q t, omega arith)
capture-Progress (w ∷ ws) s q n small t =
    let a = Progress-round w s q t in
    let (sample, s1) = process_one_from_ring w.late (record s { ring = w.before.act s.ring }) in
    let n1 = (n + reads_of sample) % 2 ^ 64 in
    let (b, counted) = capture-Progress ws s1 a.pending n1 (omega arith) a.ends in
    let (samples, n', s') = capture ws s1 n1 in
    (
      rw (← some_of-append) (Progress-trans a b),
      omega (arith, counted, length-some_of sample samples),
    )
