-- ===== src/Bpf/Best/Least.antt =====
-- What `get_best_buffer` chooses, in terms of the answers that it gets.
use mathlib.Core.Path.{subst}
use mathlib.Core.Option.{some-injective}
use bpf_ringbuf.Common.{
  ℕ, zero, suc, ◌+◌, ◌≤◌, ◌<◌, ◌≡◌, refl, ap, sym, ◌⊎◌, inl, inr, List, [], ◌∷◌, ◌++◌, Option, none,
  some, arith, leb, Bool-cases, All, if◌then◌else◌,
}
use bpf_ringbuf.Bpf.{Helpers, rb_avail_data}
use bpf_ringbuf.Bpf.Best.{first_min, weigh, choose_from, get_best_buffer}

module _ {A : Type 0} where
  -- `chosen` is the last of the entries with the least number, if that is at most `limit`; there is
  -- none if all are above `limit`.
  abbrev pub IsLast : ℕ → List (A × ℕ) → A → Type 0
  IsLast limit l a =
      (before : List (A × ℕ)) × (x : ℕ) × (after : List (A × ℕ)) × (l ≡ before ++ (a, x) ∷ after)
      × (x ≤ limit)
      × All (λ e. x ≤ e.1) before
      × All (λ e. x < e.1) after

  abbrev pub IsLeast : ℕ → List (A × ℕ) → Option A → Type 0
  IsLeast limit l none = All (λ e. limit < e.1) l
  IsLeast limit l (some a) = IsLast limit l a

  -- The loop's choice, over the answers as a list.
  pick : ℕ → Option A → List (A × ℕ) → Option A
  pick least chosen [] = chosen
  pick least chosen ((a, x) ∷ l) =
      let less = leb x least in pick (if less then x else least) (if less then some a else chosen) l

  -- Either no entry is at most `least`, and the result is the choice so far, or the result is the
  -- last least entry.
  abbrev Picks : ℕ → Option A → List (A × ℕ) → Option A → Type 0
  Picks least chosen l result =
      (All (λ e. least < e.1) l × (result ≡ chosen))
      ⊎ ((a : A) × (result ≡ some a) × IsLast least l a)

  All-le : (l : List (A × ℕ)) {x y : ℕ} → x ≤ y → All (λ e. y ≤ e.1) l → All (λ e. x ≤ e.1) l
  All-le [] h p = tt
  All-le (e ∷ l) h p = (omega arith, All-le l h p.1)

  pick-skip :
      (least : ℕ) (chosen : Option A) (a : A) (x : ℕ) (l : List (A × ℕ))
      → least < x
      → Picks least chosen l (pick least chosen l)
      → Picks least chosen ((a, x) ∷ l) (pick least chosen l)
  pick-skip least chosen a x l above (inl (none_less, e)) = inl ((above, none_less), e)
  pick-skip least chosen a x l above (inr (b, e, (before, y, after, split, le, ge, gt))) =
      inr (b, e, ((a, x) ∷ before, y, after, ap (λ r. (a, x) ∷ r) split, le, (omega arith, ge), gt))

  pick-take :
      (least : ℕ) (chosen : Option A) (a : A) (x : ℕ) (l : List (A × ℕ))
      → x ≤ least
      → Picks x (some a) l (pick x (some a) l)
      → Picks least chosen ((a, x) ∷ l) (pick x (some a) l)
  pick-take least chosen a x l below (inl (none_less, e)) =
      inr (a, e, ([], x, l, refl, below, tt, none_less))
  pick-take least chosen a x l below (inr (b, e, (before, y, after, split, le, ge, gt))) =
      inr (b, e, ((a, x) ∷ before, y, after, ap (λ r. (a, x) ∷ r) split, omega arith, (le, ge), gt))

  pick-Picks :
      (least : ℕ) (chosen : Option A) (l : List (A × ℕ))
      → Picks least chosen l (pick least chosen l)
  unfolding pick
  pick-Picks least chosen [] = inl (tt, refl)
  pick-Picks least chosen ((a, x) ∷ l) = elim (Bool-cases (leb x least)) [
    | inl less ↦ rw less (pick-take least chosen a x l (ground arith) (pick-Picks x (some a) l))
    | inr more ↦ rw more (pick-skip least chosen a x l (ground arith) (pick-Picks least chosen l))
  ]

  pick-IsLeast : (limit : ℕ) (l : List (A × ℕ)) → IsLeast limit l (pick limit none l)
  pick-IsLeast limit l = from_Picks (pick limit none l) (pick-Picks limit none l)
    where
      from_Picks : (r : Option A) → Picks limit none l r → IsLeast limit l r
      from_Picks none (inl p) = p.0
      from_Picks none (inr p) = cc
      from_Picks (some a) (inl p) = cc
      from_Picks (some a) (inr (b, e, p)) =
          subst (λ c. IsLast limit l c) (sym (some-injective a b e)) p

module _ (h : Helpers) where
  open h use {State, RingBuf, lookup_ringbuf, query}

  -- The answers that the loop gets: for each index from `j` on, in order, the ring buffer that is
  -- found there with the amount of its data; and the kernel's state afterwards.
  answer : Option RingBuf × State → List (RingBuf × ℕ) × State
  answer (none, st) = ([], st)
  answer (some rb, st) = let (n, st') = query rb rb_avail_data st in ((rb, n) ∷ [], st')

  pub survey : ℕ → ℕ → State → List (RingBuf × ℕ) × State
  survey zero j st = ([], st)
  survey (suc left) j st =
      let (found, st') = answer (lookup_ringbuf j st) in
      let (rest, st'') = survey left (j + 1) st' in (found ++ rest, st'')

  weigh-pick :
      (left j least : ℕ) (chosen : Option RingBuf) (o : Option RingBuf × State)
      → ((least' : ℕ) (chosen' : Option RingBuf) (st : State)
          → choose_from h left j least' chosen' st
            ≡ (pick least' chosen' (survey left j st).0, (survey left j st).1))
      → let (min', chosen', st') = weigh h o least chosen in
        let (found, st'') = answer o in
        choose_from h left j min' chosen' st'
        ≡ (pick least chosen (found ++ (survey left j st'').0), (survey left j st'').1)
  unfolding answer pick
  weigh-pick left j least chosen (none, st) ih = ih least chosen st
  weigh-pick left j least chosen (some rb, st) ih = ih _ _ _

  choose_from-pick :
      (left j least : ℕ) (chosen : Option RingBuf) (st : State)
      → choose_from h left j least chosen st
        ≡ (pick least chosen (survey left j st).0, (survey left j st).1)
  unfolding choose_from survey pick
  choose_from-pick zero j least chosen st = refl
  choose_from-pick (suc left) j least chosen st =
      weigh-pick left (j + 1) least chosen (lookup_ringbuf j st) (choose_from-pick left (j + 1))

  -- `get_best_buffer` asks for the ring buffers 0 to `n_cpus - 1` in order and chooses, of those
  -- that it finds, the last of the ones with the least data to read; it returns NULL exactly if it
  -- finds none with at most 16 MiB to read.
  pub get_best_buffer-IsLeast :
      (n_cpus : ℕ) (st : State)
      → let (answers, st') = survey n_cpus 0 st in
        let (chosen, st'') = get_best_buffer h n_cpus st in
        IsLeast first_min answers chosen × (st'' ≡ st')
  unfolding get_best_buffer
  get_best_buffer-IsLeast n_cpus st =
      let e = choose_from-pick n_cpus 0 first_min none st in
      (
        subst (λ c. IsLeast first_min (survey n_cpus 0 st).0 c) (sym (ap (λ c. c.0) e))
            (pick-IsLeast first_min (survey n_cpus 0 st).0),
        ap (λ c. c.1) e,
      )
