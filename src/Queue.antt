-- ===== src/Queue.antt =====
-- What a ring buffer promises its reader: a queue of header words, oldest first. The producer
-- commits busy records and appends new ones; the reader takes the oldest.
pub mod Committed
use bpf_ringbuf.Common.{
  ℕ, ◌+◌, ◌%◌, ◌^◌, ◌≡◌, refl, ◌⊎◌, inl, true, false, Option, none, some, List, [], ◌∷◌, ◌++◌,
  arith, if◌then◌else◌,
}
use bpf_ringbuf.Header.{is_busy, is_discarded, roundup_len}

abbrev pub Queue : Type 0
Queue = List ℕ

-- The space that the records take.
abbrev pub span : Queue → ℕ
span [] = 0
span (h ∷ q) = roundup_len h + span q

-- A busy record blocks the queue, a discarded one is skipped, any other is handed out.
unfoldable pub pop : Queue → Option ℕ × Queue
pop [] = (none, [])
pop (h ∷ q) = if is_busy h then (none, h ∷ q) else if is_discarded h then (none, q) else (some h, q)

-- The producer's part: a busy header may lose its busy flag, and the length stays.
abbrev pub Commit : ℕ → ℕ → Type 0
Commit h h' = (h ≡ h') ⊎ ((is_busy h ≡ true) × (is_busy h' ≡ false) × (h' % 2 ^ 30 ≡ h % 2 ^ 30))

-- The second queue is the first with records committed and others appended.
abbrev pub Extends : Queue → Queue → Type 0
Extends [] q' = Unit
Extends (h ∷ q) [] = ⊥
Extends (h ∷ q) (h' ∷ q') = Commit h h' × Extends q q'

pub Extends-refl : (q : Queue) → Extends q q
Extends-refl [] = tt
Extends-refl (h ∷ q) = (inl refl, Extends-refl q)

Commit-trans : (a b c : ℕ) → Commit a b → Commit b c → Commit a c
Commit-trans a b c p q = ground arith

pub Extends-trans : (a b c : Queue) → Extends a b → Extends b c → Extends a c
Extends-trans [] b c p q = tt
Extends-trans (x ∷ a) [] c p q = absurd p
Extends-trans (x ∷ a) (y ∷ b) [] p q = absurd q
Extends-trans (x ∷ a) (y ∷ b) (z ∷ c) p q =
    (Commit-trans x y z p.0 q.0, Extends-trans a b c p.1 q.1)

pub Extends-append : (gone a b : Queue) → Extends a b → Extends (gone ++ a) (gone ++ b)
Extends-append [] a b e = e
Extends-append (h ∷ gone) a b e = (inl refl, Extends-append gone a b e)
