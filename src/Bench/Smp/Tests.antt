-- ===== src/Bench/Smp/Tests.antt =====
-- A whole test with two rings and a set-up in which nothing fails.
use bpf_ringbuf.Common.{
  ◌∙◌, ℕ, ◌<◌, ◌≡◌, refl, sym, ap, true, false, Option, none, some, [], ◌++◌, length, arith,
}
use mathlib.Core.Option
use mathlib.Core.Option.{some-ne-none}
use bpf_ringbuf.Header.{advance, roundup_len, is_busy, is_discarded}
use bpf_ringbuf.Reader.{take_record}
use bpf_ringbuf.Reader.Refine.{Tracks}
use bpf_ringbuf.Rings.Sticky
use bpf_ringbuf.Bpf.Sizes.{reserve_size}
use bpf_ringbuf.Bpf.Programs.{select_ringbuf}
use bpf_ringbuf.Bench.Cpus.{reads}
use bpf_ringbuf.Bench.Smp.{view, case_1, case_3, Bench, reserve_in, step, steps}
use bpf_ringbuf.Bench.Smp.Example.{kernel, mapped, silent, order}
use bpf_ringbuf.Bench.Smp.Whole.{begin, whole_test}
use bpf_ringbuf.Bench.Smp.Whole.Prints.{EndsWell, whole_test-Prints}
use bpf_ringbuf.Bench.Smp.Whole.Settles.{Settles, whole_test-Settles}
use bpf_ringbuf.Cases.Laws.{fresh_reader}
use bpf_ringbuf.Loader.{Loader, initial}
use bpf_ringbuf.Loader.Main.{Outcome, exits, captures, main, set_up}
use bpf_ringbuf.Loader.Steps.{
  initialize_resources, bump_memlock_rlimit, open_skeleton, load_inner_map, set_cpus_number,
  allocate_consumer_producer, load_skeleton, instaciate_ring_buffers, instaciate_one,
  instaciate_from, attach_skeleton, start_capture,
}
use bpf_ringbuf.Loader.Account.{account}
use bpf_ringbuf.Loader.Example.{all_well, set_up_well, main-all_well}

abbrev started_well : Bench kernel
started_well = begin kernel 2 mapped set_up_well silent

abbrev or_started : Option (Bench kernel) → Bench kernel
or_started none = started_well
or_started (some b) = b

abbrev afterwards : Bench kernel
afterwards = or_started (steps kernel 2 mapped case_3 false 8 order started_well)

steps-order :
    (steps kernel 2 mapped case_3 false 8 order started_well ≡ some afterwards)
    × (afterwards.globals.n_drops ≡ 1)
    × (afterwards.n_elaborated ≡ 1)
    × (afterwards.in_flight ≡ [])
unfolding steps step Option.bind reserve_in select_ringbuf reserve_size Sticky.process_one_from_ring
    Sticky.visit Sticky.read Sticky.reload take_record roundup_len is_busy is_discarded advance main
    initialize_resources bump_memlock_rlimit open_skeleton set_up load_inner_map set_cpus_number
    allocate_consumer_producer load_skeleton instaciate_ring_buffers instaciate_one instaciate_from
    attach_skeleton start_capture
steps-order = (refl, refl, refl, refl)

abbrev at_start : (i : ℕ) → i < 2 → Tracks (fresh_reader (view kernel 2 mapped silent i)) []
at_start i lt = record {
  chain = refl;
  cached = omega arith;
  released = omega arith;
  fits = omega arith;
}

two_managed : (l : Loader) → main all_well initial ≡ captures l → length (account l.log).managed ≡ 2
unfolding main initialize_resources bump_memlock_rlimit open_skeleton set_up load_inner_map
    set_cpus_number allocate_consumer_producer load_skeleton instaciate_ring_buffers instaciate_one
    instaciate_from attach_skeleton start_capture
two_managed l e = ap managed_of (sym e ∙ main-all_well)
  where
    managed_of : Outcome → ℕ
    managed_of (exits code l) = 0
    managed_of (captures l) = length (account l.log).managed

whole_test-Prints_example :
    EndsWell kernel 2 mapped 3 (whole_test kernel 2 mapped all_well case_1 true 8 order silent)
whole_test-Prints_example =
    whole_test-Prints kernel 2 mapped all_well case_1 true 8 order silent at_start refl two_managed

-- Three runs and two rings.
whole_test-Settles_example :
    Settles kernel 2 mapped 3
      (whole_test kernel 2 mapped all_well case_3 false 8 (order ++ reads 12) silent)
whole_test-Settles_example =
    whole_test-Settles kernel 2 mapped all_well case_3 false 8 order 12 silent set_up_well
      afterwards main-all_well (two_managed set_up_well main-all_well) at_start refl steps-order.0
      steps-order.3 (omega arith)
