-- ===== src/Queue/Committed.antt =====
-- Queues whose records are all committed and none discarded, as the programs of this repository
-- make them: there the reader has no choice.
use mathlib.Core.Path.{ap₂}
use bpf_ringbuf.Common.{
  true, List, if◌then◌else◌, inl, inr, ℕ, ◌+◌, ◌≡◌, refl, sym, ap, [], ◌∷◌, ◌++◌, false, arith,
  length,
}
use bpf_ringbuf.Header.{is_busy, is_discarded, roundup_len}
use bpf_ringbuf.Header.Bounds.{roundup_len_lem, roundup_len_bounds}
use bpf_ringbuf.Queue.{Queue, span, Commit, Extends}

abbrev pub Committed : Queue → Type 0
Committed [] = Unit
Committed (h ∷ q) = ((is_busy h ≡ false) × (is_discarded h ≡ false)) × Committed q

pub Committed-append :
    (q : Queue) (x : ℕ)
    → Committed q
    → is_busy x ≡ false
    → is_discarded x ≡ false
    → Committed (q ++ (x ∷ []))
Committed-append [] x c b d = ((b, d), tt)
Committed-append (y ∷ q) x c b d = (c.0, Committed-append q x c.1 b d)

pub length-append : {A : Type 0} (a b : List A) → length (a ++ b) ≡ length a + length b
length-append [] b = omega arith
length-append (h ∷ a) b = omega (arith, length-append a b)

pub span-append : (a b : Queue) → span (a ++ b) ≡ span a + span b
span-append [] b = omega arith
span-append (h ∷ a) b = omega (arith, span-append a b)

-- What the kernel adds does not change a committed record.
pub Commit-ready : (h h' : ℕ) → is_busy h ≡ false → Commit h h' → h ≡ h'
Commit-ready h h' idle c = ground arith

-- Nothing was added if the space has not grown.
pub Extends-same : (q q' : Queue) → Committed q → Extends q q' → span q' ≡ span q → q' ≡ q
Extends-same [] [] c e s = refl
Extends-same [] (h ∷ q') c e s = absurd (omega (arith, roundup_len_bounds h))
Extends-same (h ∷ q) [] c e s = absurd e
Extends-same (h ∷ q) (h' ∷ q') ((b, d), c) (e, es) s =
    let same = Commit-ready h h' b e in
    ap₂ ◌∷◌ (sym same) (Extends-same q q' c es (omega (arith, s, ap roundup_len same)))

-- No record is discarded; some may be busy.
abbrev pub Kept : Queue → Type 0
Kept [] = Unit
Kept (h ∷ q) = (is_discarded h ≡ false) × Kept q

pub Kept-append : (q : Queue) (x : ℕ) → Kept q → is_discarded x ≡ false → Kept (q ++ (x ∷ []))
Kept-append [] x k d = (d, tt)
Kept-append (h ∷ q) x k d = (k.0, Kept-append q x k.1 d)

Commit-roundup_len : (h h' : ℕ) → Commit h h' → roundup_len h' ≡ roundup_len h
Commit-roundup_len h h' (inl same) = ap roundup_len (sym same)
Commit-roundup_len h h' (inr (b, i, same)) = omega (arith, roundup_len_lem h, roundup_len_lem h')

-- No record was added if the space has not grown.
pub Extends-length : (q q' : Queue) → Extends q q' → span q' ≡ span q → length q' ≡ length q
Extends-length [] [] e s = refl
Extends-length [] (h ∷ q') e s = absurd (omega (arith, roundup_len_bounds h))
Extends-length (h ∷ q) [] e s = absurd e
Extends-length (h ∷ q) (h' ∷ q') (e, es) s =
    omega (arith, Extends-length q q' es (omega (arith, s, Commit-roundup_len h h' e)))

-- The busy records.
abbrev pub busies : Queue → ℕ
busies [] = 0
busies (h ∷ q) = (if is_busy h then 1 else 0) + busies q

pub busies-append : (q : Queue) (x : ℕ) → is_busy x ≡ true → busies (q ++ (x ∷ [])) ≡ busies q + 1
busies-append [] x b = rw b (omega arith)
busies-append (h ∷ q) x b = omega (arith, busies-append q x b)

pub Kept-Committed : (q : Queue) → Kept q → busies q ≡ 0 → Committed q
Kept-Committed [] k none_busy = tt
Kept-Committed (h ∷ q) (d, k) none_busy = ((ground arith, d), Kept-Committed q k (omega arith))

pub Committed-Kept : (q : Queue) → Committed q → Kept q
Committed-Kept [] c = tt
Committed-Kept (h ∷ q) ((b, d), c) = (d, Committed-Kept q c)

pub Committed-busies : (q : Queue) → Committed q → busies q ≡ 0
Committed-busies [] c = refl
Committed-busies (h ∷ q) ((b, d), c) = rw b (omega (arith, Committed-busies q c))
