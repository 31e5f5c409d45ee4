-- ===== src/Rings/Progress.antt =====
-- Any reader whose iteration handles the rings one at a time reads each of them as a queue.
use mathlib.Core.Option
use bpf_ringbuf.Common.{
  ℕ, ◌+◌, ◌%◌, ◌^◌, ◌≤◌, ◌<◌, ◌≡◌, refl, List, [], ◌∷◌, ◌++◌, Option, none, some, arith, ◌==◌,
  if◌then◌else◌, length,
}
use bpf_ringbuf.Queue.{Queue}
use bpf_ringbuf.Ring.Chain.{Kernel}
use bpf_ringbuf.Reader.{some_of}
use bpf_ringbuf.Reader.Refine.{Tracks}
use bpf_ringbuf.Reader.Progress.{Progress, Progress-refl, Progress-trans, Progress-kernel}
use bpf_ringbuf.Rings.{
  Rings, reader, Sample, Round, after_kernel, Outcome, fault, running, returned, Iteration,
  return_or, consume_one, then_capture, capture, then_capture,
}

-- The current index is in range of all three arrays.
pub record IsValid (m : Rings) : Type 0 where
  pub current : m.ringbuf_pos < m.ring_cnt
  pub allocated : m.ring_cnt ≤ m.n_cpus

-- The samples of ring `i`.
abbrev pub from : ℕ → List Sample → List ℕ
from i [] = []
from i ((j, d) ∷ l) = if j == i then d ∷ from i l else from i l

pub from-append : (i : ℕ) (a b : List Sample) → from i (a ++ b) ≡ from i a ++ from i b
from-append i [] b = refl
from-append i ((j, d) ∷ a) b = ground (arith, from-append i a b)

-- The rings go from `m` to `m'` and stay valid; ring `i`, which holds the queue `q`, is read as a
-- queue, and its samples are those of the list that name it.
pub record Reads (m : Rings) (i : ℕ) (q : Queue) (samples : List Sample) (m' : Rings) : Type 0 where
  pub progress : Progress (reader m i) q (from i samples) (reader m' i)
  pub valid : IsValid m'
  pub same_cnt : m'.ring_cnt ≡ m.ring_cnt

-- The law of an iteration: on valid rings it makes no access out of range, and reads.
abbrev pub IterationReads : Iteration → Type 0
IterationReads iterate =
    (late : Kernel) (m : Rings) (i : ℕ) (q : Queue)
    → IsValid m
    → Tracks (reader m i) q
    → (out : Option Sample) × (m' : Rings) × (iterate late m ≡ some (out, m'))
      × Reads m i q (some_of out []) m'

Reads-trans :
    {m m' m'' : Rings} {i : ℕ} {q : Queue} {a b : List Sample} (x : Reads m i q a m')
    → Reads m' i x.progress.pending b m''
    → Reads m i q (a ++ b) m''
Reads-trans {i} {a} {b} x y = record {
  progress = rw from-append (Progress-trans x.progress y.progress);
  valid = y.valid;
  same_cnt = omega (arith, x.same_cnt, y.same_cnt);
}

-- A call of `ring_buffer__consume_one` that has made no access out of range, and has read at most
-- one sample.
abbrev pub CallReads : Rings → ℕ → Queue → Outcome → Type 0
CallReads m i q fault = ⊥
CallReads m i q (running m') = Reads m i q [] m'
CallReads m i q (returned d m') = Reads m i q (d ∷ []) m'

CallReads-trans :
    {m m' : Rings} {i : ℕ} {q : Queue} (o : Outcome) (x : Reads m i q [] m')
    → CallReads m' i x.progress.pending o
    → CallReads m i q o
CallReads-trans fault x y = y
CallReads-trans (running m'') x y = Reads-trans {a = []} x y
CallReads-trans (returned d m'') x y = Reads-trans {a = []} x y

return_or-CallReads :
    (again : Rings → Outcome) (m : Rings) (i : ℕ) (q : Queue) (out : Option Sample) (m' : Rings)
    → Reads m i q (some_of out []) m'
    → ((q' : Queue) → IsValid m' → Tracks (reader m' i) q' → CallReads m' i q' (again m'))
    → CallReads m i q (return_or again (some (out, m')))
return_or-CallReads again m i q (some d) m' r ih = r
return_or-CallReads again m i q none m' r ih =
    CallReads-trans (again m') r (ih r.progress.pending r.valid r.progress.ends)

-- A capture that has made no access out of range: ring `i` is read as a queue, and `n_elaborated`
-- counts the samples of all rings.
abbrev pub CaptureReads : Rings → ℕ → Queue → ℕ → Option (List Sample × ℕ × Rings) → Type 0
CaptureReads m i q n none = ⊥
CaptureReads m i q n (some (samples, n', m')) =
    Reads m i q samples m' × (n' ≡ (n + length samples) % 2 ^ 64)

CaptureReads-cons :
    {m m' : Rings} {i : ℕ} {q : Queue} {d : Sample} (n : ℕ) (out : Option (List Sample × ℕ × Rings))
    (x : Reads m i q (d ∷ []) m')
    → CaptureReads m' i x.progress.pending ((n + 1) % 2 ^ 64) out
    → CaptureReads m i q n (Option.map (λ (samples, n', m''). (d ∷ samples, n', m'')) out)
CaptureReads-cons n none x y = y
CaptureReads-cons n (some (samples, n', m'')) x y = (Reads-trans x y.0, omega (arith, y.1))

then_capture-CaptureReads :
    (rest : Rings → Option (List Sample × ℕ × Rings)) (m : Rings) (i : ℕ) (q : Queue) (n : ℕ)
    (o : Outcome)
    → n < 2 ^ 64
    → CallReads m i q o
    → ((m' : Rings) (q' : Queue)
        → IsValid m'
        → Tracks (reader m' i) q'
        → CaptureReads m' i q' ((n + 1) % 2 ^ 64) (rest m'))
    → CaptureReads m i q n (then_capture rest n o)
then_capture-CaptureReads rest m i q n fault small c ih = c
then_capture-CaptureReads rest m i q n (running m') small c ih = (c, omega arith)
then_capture-CaptureReads rest m i q n (returned d m') small c ih =
    CaptureReads-cons n (rest m') c (ih m' c.progress.pending c.valid c.progress.ends)

module _ (iterate : Iteration) (law : IterationReads iterate) (i : ℕ) where
  -- The kernel's moves before an iteration.
  kernel-Reads :
      (w : Round) (m : Rings) (q : Queue)
      → IsValid m
      → Tracks (reader m i) q
      → Reads m i q [] (after_kernel w m)
  kernel-Reads w m q v t = record {
    progress = Progress-kernel (w.before i) (reader m i) q t;
    valid = record { current = v.current; allocated = v.allocated };
    same_cnt = refl;
  }

  pub consume_one-CallReads :
      (ws : List Round) (m : Rings) (q : Queue)
      → IsValid m
      → Tracks (reader m i) q
      → CallReads m i q (consume_one iterate ws m)
  unfolding consume_one
  consume_one-CallReads [] m q v t = record {
    progress = Progress-refl (reader m i) q t;
    valid = v;
    same_cnt = refl;
  }
  consume_one-CallReads (w ∷ ws) m q v t =
      let a = kernel-Reads w m q v t in
      let m1 = after_kernel w m in
      let (out, m', e, r) = law w.late m1 i a.progress.pending a.valid a.progress.ends in
      rw e (
        CallReads-trans (return_or (consume_one iterate ws) (some (out, m'))) a (
          return_or-CallReads (consume_one iterate ws) m1 i a.progress.pending out m' r
            (consume_one-CallReads ws m')))

  pub capture-CaptureReads :
      (calls : List (List Round)) (m : Rings) (q : Queue) (n : ℕ)
      → n < 2 ^ 64
      → IsValid m
      → Tracks (reader m i) q
      → CaptureReads m i q n (capture iterate calls m n)
  unfolding capture
  capture-CaptureReads [] m q n small v t = (
    record { progress = Progress-refl (reader m i) q t; valid = v; same_cnt = refl },
    omega arith,
  )
  capture-CaptureReads (ws ∷ calls) m q n small v t =
      then_capture-CaptureReads _ m i q n (consume_one iterate ws m) small
        (consume_one-CallReads ws m q v t)
        (λ m' q' v' t'. capture-CaptureReads calls m' q' ((n + 1) % 2 ^ 64) (omega arith) v' t')
