-- ===== src/Loader/Account/Ends.antt =====
-- Assertions on the two ends of a function that returns a bool.
use bpf_ringbuf.Common.{Bool, true, false, ◌≡◌, refl}
use bpf_ringbuf.Loader.{Loader}
use bpf_ringbuf.Loader.Steps.{and_then}

-- `good` holds if it returns true, `bad` if it returns false.
abbrev pub Ends : (Loader → Type 0) → (Loader → Type 0) → Bool × Loader → Type 0
Ends good bad (true, l) = good l
Ends good bad (false, l) = bad l

module _ (good bad : Loader → Type 0) where
  pub Ends-split :
      (b : Bool) (l : Loader) → (b ≡ true → good l) → (b ≡ false → bad l) → Ends good bad (b, l)
  Ends-split true l g f = g refl
  Ends-split false l g f = f refl

  pub and_then-Ends :
      (mid : Loader → Type 0) (r : Bool × Loader) (next : Loader → Bool × Loader)
      → Ends mid bad r
      → ((l : Loader) → mid l → Ends good bad (next l))
      → Ends good bad (and_then r next)
  and_then-Ends mid (true, l) next h k = k l h
  and_then-Ends mid (false, l) next h k = h

  -- The same where the first part is a test.
  pub and_then-Ends-split :
      (b : Bool) (l : Loader) (next : Loader → Bool × Loader)
      → (b ≡ true → Ends good bad (next l))
      → (b ≡ false → bad l)
      → Ends good bad (and_then (b, l) next)
  and_then-Ends-split true l next g f = g refl
  and_then-Ends-split false l next g f = f refl
