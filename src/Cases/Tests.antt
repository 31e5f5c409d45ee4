-- ===== src/Cases/Tests.antt =====
-- Runs of whole programs.
use bpf_ringbuf.Common.{ℕ, List, [], ◌∷◌, ◌≡◌, refl, arith}
use bpf_ringbuf.Ring.Example.{full, headers, headers-Chain, filling}
use bpf_ringbuf.Ring.Chain.{idle}
use bpf_ringbuf.Reader
use bpf_ringbuf.Reader.Refine.{Tracks}
use bpf_ringbuf.Loader.{initial}
use bpf_ringbuf.Loader.Main.{signal_callback, main, single_main, single_signal_callback}
use bpf_ringbuf.Loader.Example.{
  set_up_well, main-all_well, all_well, no_attach, two_rings, two_calls,
}
use bpf_ringbuf.Header.{is_busy, is_discarded, roundup_len}
use bpf_ringbuf.Queue.Committed.{Committed}
use bpf_ringbuf.Ring.{Ring}
use bpf_ringbuf.Rings.ReadsAll.{calls_at_rest}
use bpf_ringbuf.Loader.Capture.{first_rings}
use bpf_ringbuf.Loader.Steps.{
  bump_memlock_rlimit, initialize_resources, open_skeleton, load_inner_map,
  allocate_consumer_producer, set_cpus_number, load_skeleton, instaciate_one, instaciate_from,
  instaciate_ring_buffers, attach_skeleton, start_capture,
}
use bpf_ringbuf.Loader.Main.{set_up}
use bpf_ringbuf.Cases.Deliver.{Delivers, cases-Deliver}
use bpf_ringbuf.Loader.Consume.{Consumes, handle_event}
use bpf_ringbuf.Loader.Output
use bpf_ringbuf.Loader.Output.Same.{output-same}
use bpf_ringbuf.Loader.SingleLibbpf
use bpf_ringbuf.Loader.SingleLibbpf.Same.{single-same}
use bpf_ringbuf.Cases.{
  case1_main, case2_main, case3_main, case4_main, output_main, single_case1_main, single_case2_main,
}
use bpf_ringbuf.Cases.Laws.{
  ReadsRing, ReadsQueue, fresh_reader, cases-ReadsRing, single_case1-ReadsQueue,
}
use bpf_ringbuf.Cases.Interrupt.{Counts, CountsSingle, libbpf-Counts}

full-Tracks : Tracks (fresh_reader full) headers
full-Tracks = record {
  chain = headers-Chain;
  cached = omega arith;
  released = omega arith;
  fits = omega arith;
}

cases-ReadsRing_example :
    ReadsRing two_rings 1 headers (case1_main all_well two_rings two_calls)
    × ReadsRing two_rings 1 headers (case3_main all_well two_rings two_calls)
    × ReadsRing two_rings 1 headers (case4_main all_well two_rings two_calls)
cases-ReadsRing_example = cases-ReadsRing all_well two_rings two_calls 1 headers full-Tracks

abbrev rounds : List Reader.Round
rounds = record { before = idle; late = filling } ∷ record { before = idle; late = idle } ∷ []

single_case1-ReadsQueue_example : ReadsQueue full headers (single_case1_main all_well full rounds)
single_case1-ReadsQueue_example = single_case1-ReadsQueue all_well full rounds headers full-Tracks

all_well-Consumes : Consumes handle_event all_well
all_well-Consumes = record { counted = λ ok log rb. refl }

libbpf-Counts_example :
    Counts (signal_callback all_well) 2 (case2_main all_well 4)
    × Counts (Output.signal_callback all_well) 2 (output_main all_well 4)
    × CountsSingle (SingleLibbpf.signal_callback all_well) 2 (single_case2_main all_well 4)
libbpf-Counts_example = libbpf-Counts all_well all_well-Consumes 4 2

output-same_example :
    (Output.main all_well initial ≡ main all_well initial)
    × (Output.signal_callback all_well initial ≡ signal_callback all_well initial)
output-same_example = output-same all_well initial

single-same_example :
    (SingleLibbpf.main no_attach initial ≡ single_main no_attach initial)
    × (SingleLibbpf.signal_callback no_attach initial ≡ single_signal_callback no_attach initial)
single-same_example = single-same no_attach initial

-- Each ring holds one record of 16 bytes.
abbrev one_each : ℕ → Ring
one_each i = record { data_word = λ _. 16; consumer_pos = 0; producer_pos = 24; mask = 127 }

one-Held : Committed (16 ∷ []) × Tracks (fresh_reader (one_each 0)) (16 ∷ [])
unfolding is_busy is_discarded roundup_len
one-Held = (
  ((refl, refl), tt),
  record { chain = (refl, refl); cached = omega arith; released = omega arith; fits = omega arith },
)

two_cpus : (first_rings set_up_well one_each).ring_cnt ≡ 2
unfolding main initialize_resources bump_memlock_rlimit open_skeleton set_up load_inner_map
    set_cpus_number allocate_consumer_producer load_skeleton instaciate_ring_buffers instaciate_one
    instaciate_from attach_skeleton start_capture
two_cpus = refl

cases-Deliver_example :
    let m = first_rings set_up_well one_each in
    Delivers m.ring_cnt m (λ i. 16 ∷ []) (case1_main all_well one_each (calls_at_rest 3 4))
    × Delivers m.ring_cnt m (λ i. 16 ∷ []) (case3_main all_well one_each (calls_at_rest 3 4))
    × Delivers m.ring_cnt m (λ i. 16 ∷ []) (case4_main all_well one_each (calls_at_rest 3 4))
cases-Deliver_example =
    cases-Deliver all_well set_up_well one_each (λ i. 16 ∷ []) 3 4 main-all_well (λ i lt. one-Held)
      (rw two_cpus (omega arith)) (rw two_cpus (omega arith))
