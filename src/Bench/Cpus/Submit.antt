-- ===== src/Bench/Cpus/Submit.antt =====
-- A submit of one of the events that are reserved.
use mathlib.Core.Option.{some-injective, none-ne-some}
use bpf_ringbuf.Common.{
  ℕ, zero, suc, ◌+◌, ◌≡◌, refl, sym, ap, ◌∙◌, Option, none, some, List, [], ◌∷◌, ◌++◌, length,
  arith,
}
use bpf_ringbuf.Queue.{Queue}
use bpf_ringbuf.Queue.Committed.{Kept, Extends-length, busies}
use bpf_ringbuf.Ring.{Ring}
use bpf_ringbuf.Ring.Chain.{header_at, Chain-span}
use bpf_ringbuf.Reader.{Reader}
use bpf_ringbuf.Reader.Refine.{Tracks}
use bpf_ringbuf.Bench.Cpus.{Submits, behind, extract}

-- A submit keeps the number of records.
pub Submits-Tracks :
    (s : Reader) (r : Ring) (q : Queue)
    → {reserved : ℕ} → Submits reserved s.ring r
    → Tracks s q
    → Kept q
    → busies q ≡ reserved
    → (q' : Queue) × Tracks (record s { ring = r }) q'
      × (length q' ≡ length q)
      × Kept q'
      × (busies q' + 1 ≡ busies q)
Submits-Tracks s r q a t k busy =
    let (q', c, e, k', less) = a.commits s.cons_pos q t.released t.chain k busy in
    let before = Chain-span (header_at s.ring) s.cons_pos q t.chain in
    let after = Chain-span (header_at r) s.cons_pos q' c in
    (
      q',
      record {
        chain = c;
        cached = let known = t.cached in omega (arith, a.same_producer);
        released = let behind = t.released in omega (arith, a.same_consumer);
        fits = let fits = t.fits in omega (arith, a.same_producer);
      },
      Extends-length q q' e (omega (arith, a.same_producer)),
      k',
      less,
    )

module _ {A : Type 0} where
  -- The list has the element between the others.
  abbrev pub Splits : List A → A → List A → Type 0
  Splits xs x rest =
      (before : List A) × (after : List A) × (xs ≡ before ++ (x ∷ after)) × (rest ≡ before ++ after)

  behind-Splits :
      (y : A) (xs : List A) (o : Option (A × List A)) (x : A) (rest : List A)
      → behind y o ≡ some (x, rest)
      → ((z : A) (zs : List A) → o ≡ some (z, zs) → Splits xs z zs)
      → Splits (y ∷ xs) x rest
  behind-Splits y xs none x rest e ih = absurd (none-ne-some _ e)
  behind-Splits y xs (some (z, zs)) x rest e ih =
      let (before, after, split, others) = ih z zs refl in
      let same = some-injective _ _ e in
      (
        y ∷ before,
        after,
        ap (λ l. y ∷ l) split ∙ ap (λ p. y ∷ (before ++ (p.0 ∷ after))) same,
        sym (ap (λ p. p.1) same) ∙ ap (λ l. y ∷ l) others,
      )

  pub extract-Splits :
      (k : ℕ) (xs : List A) (x : A) (rest : List A)
      → extract k xs ≡ some (x, rest)
      → Splits xs x rest
  extract-Splits k [] x rest e = absurd (none-ne-some _ e)
  extract-Splits zero (y ∷ xs) x rest e =
      let same = some-injective _ _ e in ([], xs, ap (λ p. p.0 ∷ xs) same, sym (ap (λ p. p.1) same))
  extract-Splits (suc k) (y ∷ xs) x rest e =
      behind-Splits y xs (extract k xs) x rest e (λ z zs e'. extract-Splits k xs z zs e')
