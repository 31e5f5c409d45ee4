-- ===== src/Loader/Account/Stage.antt =====
-- What holds of the globals and the log between two phases of `main`, and when a phase has failed.
use bpf_ringbuf.Common.{ℕ, ◌<◌, ◌≤◌, Bool, true, false, List, [], ◌∷◌, ◌++◌, ◌≡◌, length}
use bpf_ringbuf.Loader.Int.{ℤ, pos, is_zero, to_nat}
use bpf_ringbuf.Loader.{Loader, Answers, Log, map_update_elem}
use bpf_ringbuf.Loader.Account.{Account, account, present, number}

-- The account that fits the globals.
abbrev pub fitting : Bool → List ℤ → List ℤ → List (ℕ × ℤ) → Loader → Account
fitting ok fds managed entries l = record {
  ok = ok;
  skels = present l.skel;
  managers = present l.ringbuf;
  arrays = present l.prod_pos ++ present l.cons_pos;
  fds = fds;
  managed = managed;
  entries = entries;
  consumed = 0;
}

-- The capture is off, and nothing has been counted.
abbrev pub Idle : Loader → Type 0
Idle l = (l.capture_enabled ≡ 0) × (l.n_elaborated ≡ 0)

-- Every call has succeeded, the ring buffers of `fds` are open, and the manager reads `managed`.
abbrev pub At : List ℤ → List ℤ → Loader → Type 0
At fds managed l = (account l.log ≡ fitting true fds managed (number managed) l) × Idle l

-- A call has failed, and what `clean` has to release is what the globals say.
abbrev pub Failed : Loader → Type 0
Failed l =
    ((account l.log).ok ≡ false)
    × ((account l.log).skels ≡ present l.skel)
    × ((account l.log).managers ≡ present l.ringbuf)
    × Idle l

-- A call has failed, and there is nothing to release.
abbrev pub Empty : Loader → Type 0
Empty l =
    ((account l.log).ok ≡ false)
    × ((account l.log).skels ≡ [])
    × ((account l.log).managers ≡ [])
    × Idle l

-- The globals that are still NULL before their phase.
abbrev pub NoRings : Loader → Type 0
NoRings l = l.ringbuf ≡ pos 0

abbrev pub NoArrays : Loader → Type 0
NoArrays l = (l.cons_pos ≡ pos 0) × (l.prod_pos ≡ pos 0)

-- `set_cpus_number` has stored `n`.
abbrev pub Counted : ℤ → Loader → Type 0
Counted n l = (l.n_cpus ≡ n) × (l.rodata_n_cpus ≡ n) × (0 < to_nat n)

abbrev pub Opened : Loader → Type 0
Opened l = At [] [] l × NoRings l × NoArrays l

-- The inner map is open.
abbrev pub WithInner : Loader → Type 0
WithInner l = At (l.inner_map_fd ∷ []) [] l × NoRings l × NoArrays l

abbrev pub WithCpus : Loader → Type 0
WithCpus l = At (l.inner_map_fd ∷ []) [] l × NoRings l × Counted l.n_cpus l

abbrev pub Loaded : Loader → Type 0
Loaded l = At [] [] l × NoRings l × Counted l.n_cpus l

-- The kernel refuses to put a ring buffer under a key that an array of `limit` maps does not have.
abbrev pub Limited : ℕ → Answers → Type 0
Limited limit answers =
    (log : Log) (m : ℤ) (i : ℕ) (fd : ℤ)
    → limit ≤ i
    → is_zero (answers log (map_update_elem m i fd)) ≡ false

-- There is room for `k` rings.
abbrev pub Room : Answers → ℕ → Type 0
Room answers k = (limit : ℕ) → Limited limit answers → k ≤ limit

-- The manager has `k` rings, and the outer map has the same and has room for them.
abbrev pub WithRings : Answers → ℤ → ℕ → Loader → Type 0
WithRings answers n k l =
    (managed : List ℤ) × At [] managed l × (length managed ≡ k) × Counted n l × Room answers k

-- Everything is set up: a ring for each CPU.
abbrev pub SetUp : Answers → Loader → Type 0
SetUp answers l = WithRings answers l.n_cpus (to_nat l.n_cpus) l
