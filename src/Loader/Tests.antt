-- ===== src/Loader/Tests.antt =====
-- Runs of the loaders with answers written out, two CPUs.
use bpf_ringbuf.Common.{◌≤◌, arith, ℕ, [], ◌++◌, ◌≡◌, refl, length, ◌<◌, true, false}
use bpf_ringbuf.Loader.Limit.{main-Limited}
use bpf_ringbuf.Loader.Signal.{initialized, initialize, interrupt, through_null}
use bpf_ringbuf.Loader.Signal.Laws.{sigint-Handled}
use bpf_ringbuf.Loader.Signal.Again.{Interrupted, main-Interrupted}
use bpf_ringbuf.Loader.Output
use bpf_ringbuf.Loader.Account.Stage.{Limited}
use bpf_ringbuf.Loader.Example.{
  one_ring, loader_of, set_up_well, main-all_well, with_limit, all_well, no_attach, no_manager,
}
use bpf_ringbuf.Loader.Int.{pos, to_nat}
use bpf_ringbuf.Loader.{Loader, initial, set_print, setrlimit, set_signal, tell}
use bpf_ringbuf.Loader.Steps.{
  finished, allocate_consumer_producer, free_consumer_producer, set_cpus_number, clean,
  bump_memlock_rlimit, initialize_resources, open_skeleton, load_inner_map, load_skeleton,
  instaciate_one, instaciate_from, instaciate_ring_buffers, attach_skeleton, start_capture,
}
use bpf_ringbuf.Loader.Main.{
  exits, captures, set_up, main, signal_callback, single_main, single_signal_callback,
}
use bpf_ringbuf.Loader.Account.{account, present, number}
use bpf_ringbuf.Loader.Outcome.{main-rings, main-fds, main-exits, signal_callback-main, counting}
use bpf_ringbuf.Loader.Single.{single_main-exits, code_of}

abbrev not_attached : Loader
not_attached = loader_of (main no_attach initial)

main-no_attach : main no_attach initial ≡ exits (pos 1) not_attached
unfolding main initialize_resources bump_memlock_rlimit open_skeleton set_up load_inner_map
    set_cpus_number allocate_consumer_producer load_skeleton instaciate_ring_buffers instaciate_one
    instaciate_from attach_skeleton start_capture clean free_consumer_producer
main-no_attach = refl

abbrev no_ring : Loader
no_ring = loader_of (single_main no_manager initial)

-- The failure to make the manager is returned as success.
single_main-no_manager : single_main no_manager initial ≡ exits (pos 0) no_ring
unfolding single_main bump_memlock_rlimit open_skeleton
single_main-no_manager = refl

abbrev interrupted : Loader
interrupted = loader_of (signal_callback all_well (counting all_well set_up_well 5 2))

signal_callback-all_well :
    signal_callback all_well (counting all_well set_up_well 5 2) ≡ exits (pos 0) interrupted
unfolding signal_callback
signal_callback-all_well = refl

main-rings_example :
    ((account set_up_well.log).entries ≡ number (account set_up_well.log).managed)
    × (length (account set_up_well.log).managed ≡ to_nat set_up_well.n_cpus)
    × (0 < to_nat set_up_well.n_cpus)
    × (set_up_well.rodata_n_cpus ≡ set_up_well.n_cpus)
    × (set_up_well.capture_enabled ≡ 1)
main-rings_example = main-rings all_well set_up_well main-all_well

main-fds_example : ((account set_up_well.log).ok ≡ true) × ((account set_up_well.log).fds ≡ [])
main-fds_example = main-fds all_well set_up_well main-all_well

main-exits_example :
    (pos 1 ≡ pos 1)
    × ((account not_attached.log).ok ≡ false)
    × ((account not_attached.log).skels ≡ [])
    × ((account not_attached.log).managers ≡ [])
    × (not_attached.capture_enabled ≡ 0)
main-exits_example = main-exits no_attach not_attached (pos 1) main-no_attach

signal_callback-main_example :
    (pos 0 ≡ pos 0)
    × ((account interrupted.log).skels ≡ [])
    × ((account interrupted.log).managers ≡ [])
    × ((account interrupted.log).fds ≡ [])
    × (interrupted.capture_enabled ≡ 0)
    × ((account interrupted.log).arrays
        ≡ present set_up_well.prod_pos ++ present set_up_well.cons_pos)
signal_callback-main_example =
    signal_callback-main all_well set_up_well 5 2 (pos 0) interrupted main-all_well
      signal_callback-all_well

single_main-exits_example :
    (pos 0 ≡ code_of no_ring.log)
    × ((account no_ring.log).skels ≡ [])
    × ((account no_ring.log).managers ≡ present no_ring.ringbuf)
    × (no_ring.capture_enabled ≡ 0)
single_main-exits_example = single_main-exits no_manager (pos 0) no_ring single_main-no_manager

abbrev one_interrupted : Loader
one_interrupted =
    loader_of (single_signal_callback all_well (record one_ring { n_elaborated = 5; n_drops = 2 }))

single_signal_callback-all_well :
    single_signal_callback all_well (record one_ring { n_elaborated = 5; n_drops = 2 })
    ≡ exits (pos 0) one_interrupted
unfolding single_signal_callback
single_signal_callback-all_well = refl

with_limit-Limited : (limit : ℕ) → Limited limit (with_limit limit)
with_limit-Limited limit log m i fd lt = ground (arith, lt)

abbrev output_limited : Loader
output_limited = loader_of (Output.main (with_limit 32) initial)

output_main-with_limit : Output.main (with_limit 32) initial ≡ captures output_limited
unfolding Output.main Output.initialize_resources Output.bump_memlock_rlimit Output.open_skeleton
    Output.set_up Output.load_inner_map Output.set_cpus_number Output.allocate_consumer_producer
    Output.load_skeleton Output.instaciate_ring_buffers Output.instaciate_from
    Output.attach_skeleton Output.start_capture
output_main-with_limit = refl

main-Limited_example : to_nat output_limited.n_cpus ≤ 32
main-Limited_example =
    main-Limited true (with_limit 32) output_limited (with_limit-Limited 32) output_main-with_limit

-- The call of `signal` has just succeeded.
abbrev with_handler : Loader
with_handler = tell all_well set_signal (tell all_well setrlimit (tell all_well set_print initial))

initialize_resources-all_well :
    initialize_resources all_well initial ≡ finished (true, with_handler)
unfolding initialize_resources bump_memlock_rlimit
initialize_resources-all_well = refl

-- The handler goes through NULL.
sigint-Handled_example : interrupt all_well with_handler ≡ through_null
sigint-Handled_example =
    sigint-Handled all_well initialized with_handler (initialize initialize_resources-all_well)

-- The attach has failed.
main-Interrupted_example : Interrupted no_attach 3 (main no_attach initial)
main-Interrupted_example = main-Interrupted no_attach 3
