-- ===== src/Bpf/Tests.antt =====
-- The programs on a small kernel, and the theorems about them there.
use bpf_ringbuf.Common.{◌+◌, ◌%◌, ◌≤◌, ◌≡◌, refl, List, [], ◌∷◌, true, false, some, arith}
use bpf_ringbuf.Bpf.Example.{kernel, on}
use bpf_ringbuf.Bpf.Sizes.{reserve_size, single_size, ring_buf_dim}
use bpf_ringbuf.Bpf.Build.{
  reserve_byte, single_byte, output_byte, single_rb, heap, FitsRing, builds-FitsRing,
}
use bpf_ringbuf.Bpf.Race.{
  Access, load, store, start, access, accesses, one_by_one, stores, drops, increments-Counted,
}
use bpf_ringbuf.Bpf.Best.{first_min, choose_from, get_best_buffer}
use bpf_ringbuf.Bpf.Best.Least.{IsLeast, survey, get_best_buffer-IsLeast}
use bpf_ringbuf.Bpf.Programs.{select_ringbuf, catch_fentry, catch_fentry_output}
use bpf_ringbuf.Bpf.Programs.Switch.{runs, runs-n_drops}

-- Of the two least the last is chosen.
get_best_buffer_runs : (get_best_buffer kernel 4 (0, 0)).0 ≡ some 3
unfolding get_best_buffer choose_from
get_best_buffer_runs = refl

-- The random number 9 asks for four units of 512 bytes: the first event fits, the second does not.
runs-catch_fentry :
    runs kernel (catch_fentry kernel true 512 4) ((λ st. st) ∷ (λ st. st) ∷ []) on (0, 3000)
    ≡ (record on { n_drops = 1 }, (1, 0))
unfolding runs catch_fentry select_ringbuf get_best_buffer choose_from reserve_size
runs-catch_fentry = refl

output_runs :
    runs kernel (catch_fentry_output kernel 200) ((λ st. st) ∷ (λ st. st) ∷ []) on (0, 300)
    ≡ (record on { n_skipped = 1 }, (1, 0))
unfolding runs catch_fentry_output
output_runs = refl

get_best_buffer-IsLeast_example :
    let (answers, st') = survey kernel 4 0 (0, 0) in
    let (chosen, st'') = get_best_buffer kernel 4 (0, 0) in
    IsLeast first_min answers chosen × (st'' ≡ st')
get_best_buffer-IsLeast_example = get_best_buffer-IsLeast kernel 4 (0, 0)

runs-n_drops_example :
    (runs kernel
      (catch_fentry_output kernel 200)
      ((λ st. st) ∷ (λ st. st) ∷ [])
      on
      (0, 100)).0.n_drops
    ≡ 0
runs-n_drops_example = runs-n_drops kernel 200 ((λ st. st) ∷ (λ st. st) ∷ []) on (0, 100)

builds-FitsRing_example :
    FitsRing ring_buf_dim (reserve_size (reserve_byte false true) (40 % 7))
    × FitsRing single_rb.max_entries (single_size (single_byte false true) (40 % 19))
    × FitsRing ring_buf_dim (heap (output_byte false true)).value_size
builds-FitsRing_example = builds-FitsRing false true 40

-- Two CPUs drop an event at once, and one of the two is lost.
abbrev at_once : List Access
at_once = load 0 ∷ load 1 ∷ store 0 ∷ store 1 ∷ []

accesses-at_once : (accesses at_once (start on)).globals ≡ record on { n_drops = on.n_drops + 1 }
unfolding accesses access
accesses-at_once = refl

increments-Counted_example :
    ((on.n_drops ≤ (accesses at_once (start on)).globals.n_drops)
      × ((accesses at_once (start on)).globals.n_drops ≤ on.n_drops + stores at_once))
    × ((accesses (one_by_one (0 ∷ 1 ∷ 0 ∷ [])) (start on)).globals ≡ drops 3 on)
increments-Counted_example = increments-Counted at_once (0 ∷ 1 ∷ 0 ∷ []) on (omega arith)
