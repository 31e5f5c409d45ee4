-- ===== src/Loader/Example.antt =====
-- Answers written out, for two CPUs, and what the kernel shows, for the tests.
use bpf_ringbuf.Common.{◌≡◌, refl, ℕ, List, [], ◌∷◌, ◌==◌, if◌then◌else◌, length, leb}
use bpf_ringbuf.Ring.{Ring}
use bpf_ringbuf.Ring.Chain.{idle}
use bpf_ringbuf.Ring.Example.{fresh, full}
use bpf_ringbuf.Rings.{Round}
use bpf_ringbuf.Loader.Int.{pos, negsuc}
use bpf_ringbuf.Loader.{
  Answers, skel_open, map_create, map_fd, num_possible_cpus, calloc, ring_buffer_new,
  ring_buffer_consume, skel_attach, map_update_elem,
}
use bpf_ringbuf.Loader.{Loader, initial}
use bpf_ringbuf.Loader.Steps.{
  bump_memlock_rlimit, initialize_resources, open_skeleton, load_inner_map,
  allocate_consumer_producer, set_cpus_number, load_skeleton, instaciate_one, instaciate_from,
  instaciate_ring_buffers, attach_skeleton, start_capture,
}
use bpf_ringbuf.Loader.Main.{single_main, Outcome, exits, captures, set_up, main}

-- Nothing fails; a new descriptor is the number of calls made before.
abbrev pub all_well : Answers
all_well log skel_open = pos 11
all_well log map_create = pos (length log)
all_well log map_fd = pos 3
all_well log num_possible_cpus = pos 2
all_well log (calloc n) = pos 4096
all_well log (ring_buffer_new fd) = pos 12
all_well log (ring_buffer_consume rb) = pos 3
all_well log c = pos 0

-- The attach fails.
abbrev pub no_attach : Answers
no_attach log (skel_attach p) = negsuc 21
no_attach log c = all_well log c

-- The manager of the ring cannot be made.
abbrev pub no_manager : Answers
no_manager log (ring_buffer_new fd) = pos 0
no_manager log c = all_well log c

-- The outer map has `limit` keys: -7 for the others.
abbrev pub with_limit : ℕ → Answers
with_limit limit log (map_update_elem m i fd) = if leb limit i then negsuc 6 else pos 0
with_limit limit log c = all_well log c

-- The second of the two rings holds records.
abbrev pub two_rings : ℕ → Ring
two_rings i = if i == 1 then full else fresh

abbrev quiet : Round
quiet = record { before = λ _. idle; late = idle }

abbrev pub two_calls : List (List Round)
two_calls = (quiet ∷ quiet ∷ quiet ∷ []) ∷ (quiet ∷ []) ∷ []

abbrev pub loader_of : Outcome → Loader
loader_of (exits code l) = l
loader_of (captures l) = l

abbrev pub set_up_well : Loader
set_up_well = loader_of (main all_well initial)

pub main-all_well : main all_well initial ≡ captures set_up_well
unfolding main initialize_resources bump_memlock_rlimit open_skeleton set_up load_inner_map
    set_cpus_number allocate_consumer_producer load_skeleton instaciate_ring_buffers instaciate_one
    instaciate_from attach_skeleton start_capture
main-all_well = refl

abbrev pub one_ring : Loader
one_ring = loader_of (single_main all_well initial)

pub single_main-all_well : single_main all_well initial ≡ captures one_ring
unfolding single_main bump_memlock_rlimit open_skeleton
single_main-all_well = refl
