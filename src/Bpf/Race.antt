-- ===== src/Bpf/Race.antt =====
-- `n_drops++` of multi_ringbuf_reserve.bpf.c when the program runs on several CPUs at once: the
-- counter is shared, and the increment is a load and a store.
use bpf_ringbuf.Common.{
  ℕ, zero, suc, ◌+◌, ◌≤◌, ◌<◌, ◌^◌, ◌≡◌, refl, ap, ◌∙◌, Option, none, some, List, [], ◌∷◌, length,
  arith, update, ◌==◌, Bool-cases, inl, inr, true,
}
use mathlib.Core.Path.{subst}
use bpf_ringbuf.Header.{u64}
use bpf_ringbuf.Bpf.{Globals, count_drop}

-- What a CPU does next to the counter.
pub data Access : Type 0 where
  load store : ℕ → Access

-- The globals, and what each CPU has loaded and not yet stored.
pub record Shared : Type 0 where
  pub globals : Globals
  pub held : ℕ → Option ℕ

abbrev pub start : Globals → Shared
start g = record { globals = g; held = λ _. none }

-- The store of what was loaded, plus one; without a load there is nothing to store.
abbrev pub store_held : ℕ → Option ℕ → Shared → Shared
store_held cpu none s = s
store_held cpu (some n) s = record {
  globals = record s.globals { n_drops = u64 (n + 1) };
  held = update s.held cpu none;
}

unfoldable pub access : Access → Shared → Shared
access (load cpu) s = record s { held = update s.held cpu (some s.globals.n_drops) }
access (store cpu) s = store_held cpu (s.held cpu) s

unfoldable pub accesses : List Access → Shared → Shared
accesses [] s = s
accesses (a ∷ trace) s = accesses trace (access a s)

-- The increments one after another, each on its CPU.
abbrev pub one_by_one : List ℕ → List Access
one_by_one [] = []
one_by_one (cpu ∷ cpus) = load cpu ∷ store cpu ∷ one_by_one cpus

-- The stores of a trace.
abbrev pub stores : List Access → ℕ
stores [] = 0
stores (load cpu ∷ trace) = stores trace
stores (store cpu ∷ trace) = stores trace + 1

abbrev pub drops : ℕ → Globals → Globals
drops zero g = g
drops (suc k) g = drops k (count_drop g)

-- The counter, and what was loaded of it, lies between `low` and `high`.
record Between (low high : ℕ) (s : Shared) : Type 0 where
  least : low ≤ s.globals.n_drops
  most : s.globals.n_drops ≤ high
  loaded : (cpu n : ℕ) → s.held cpu ≡ some n → (low ≤ n) × (n ≤ high)

some-inj : (a b : ℕ) → some a ≡ some b → a ≡ b
some-inj a b e = cc

none-ne-some : (a : ℕ) → (none ≡ some a) → ⊥
none-ne-some a e = cc

load-Between :
    (low high cpu : ℕ) (s : Shared) → Between low high s → Between low high (access (load cpu) s)
unfolding access
load-Between low high cpu s b = record { least = b.least; most = b.most; loaded = held }
  where
    held :
        (i n : ℕ) → update s.held cpu (some s.globals.n_drops) i ≡ some n → (low ≤ n) × (n ≤ high)
    held i n e = elim (Bool-cases (cpu == i)) [
      | inl same ↦
          let eq = some-inj s.globals.n_drops n (rw same at e) in
          let le = b.least in let le' = b.most in (omega arith, omega arith)
      | inr other ↦ b.loaded i n (rw other at e)
    ]

store-Between :
    (low high cpu : ℕ) (s : Shared)
    → high + 1 < 2 ^ 64
    → Between low high s
    → Between low (high + 1) (access (store cpu) s)
unfolding access
store-Between low high cpu s small b = stored (s.held cpu) refl
  where
    weaker : (i n : ℕ) → s.held i ≡ some n → (low ≤ n) × (n ≤ high + 1)
    weaker i n e = let (lo, hi) = b.loaded i n e in (lo, omega arith)

    others : (i n : ℕ) → update s.held cpu none i ≡ some n → (low ≤ n) × (n ≤ high + 1)
    others i n e = elim (Bool-cases (cpu == i)) [
      | inl same ↦ absurd (none-ne-some n (rw same at e))
      | inr other ↦ weaker i n (rw other at e)
    ]

    stored : (o : Option ℕ) → s.held cpu ≡ o → Between low (high + 1) (store_held cpu o s)
    stored none e =
        let le = b.most in record { least = b.least; most = omega arith; loaded = weaker }
    stored (some n) e =
        let (lo, hi) = b.loaded cpu n e in
        record { least = omega arith; most = omega arith; loaded = others }

accesses-Between :
    (low high : ℕ) (trace : List Access) (s : Shared)
    → high + length trace < 2 ^ 64
    → Between low high s
    → Between low (high + stores trace) (accesses trace s)
unfolding accesses
accesses-Between low high [] s small b = subst (λ k. Between low k s) (omega arith) b
accesses-Between low high (load cpu ∷ trace) s small b =
    accesses-Between low high trace (access (load cpu) s) (omega arith)
      (load-Between low high cpu s b)
accesses-Between low high (store cpu ∷ trace) s small b =
    subst (λ k. Between low k (accesses trace (access (store cpu) s))) (omega arith)
      (accesses-Between low (high + 1) trace (access (store cpu) s) (omega arith)
        (store-Between low high cpu s (omega arith) b))

==-refl : (a : ℕ) → (a == a) ≡ true
==-refl a = ground arith

load-store :
    (cpu : ℕ) (s : Shared)
    → access (store cpu) (access (load cpu) s)
      ≡ store_held cpu (some s.globals.n_drops) (access (load cpu) s)
unfolding access
load-store cpu s = ap (λ o. store_held cpu o (access (load cpu) s)) held
  where
    held : update s.held cpu (some s.globals.n_drops) cpu ≡ some s.globals.n_drops
    held = rw (==-refl cpu) refl

-- An increment that nothing comes between.
one_by_one-drops :
    (cpus : List ℕ) (s : Shared)
    → (accesses (one_by_one cpus) s).globals ≡ drops (length cpus) s.globals
unfolding accesses access
one_by_one-drops [] s = refl
one_by_one-drops (cpu ∷ cpus) s =
    let after = store_held cpu (some s.globals.n_drops) (access (load cpu) s) in
    ap (λ x. (accesses (one_by_one cpus) x).globals) (load-store cpu s)
    ∙ one_by_one-drops cpus after

-- On several CPUs at once, in any order of the loads and stores, n_drops grows by at most the number
-- of drops, if it does not reach 2 ^ 64; drops that come one after another are each counted, whatever
-- CPUs they come from.
pub increments-Counted :
    (trace : List Access) (cpus : List ℕ) (g : Globals)
    → g.n_drops + length trace < 2 ^ 64
    → ((g.n_drops ≤ (accesses trace (start g)).globals.n_drops)
        × ((accesses trace (start g)).globals.n_drops ≤ g.n_drops + stores trace))
      × ((accesses (one_by_one cpus) (start g)).globals ≡ drops (length cpus) g)
increments-Counted trace cpus g small =
    let first : Between g.n_drops g.n_drops (start g) = record {
      least = omega arith;
      most = omega arith;
      loaded = λ cpu n e. absurd (none-ne-some n e);
    } in
    let b = accesses-Between g.n_drops g.n_drops trace (start g) small first in
    ((b.least, b.most), one_by_one-drops cpus (start g))
