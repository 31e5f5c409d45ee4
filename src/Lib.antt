-- ===== src/Lib.antt =====
-- BPF ring buffers: a verification of the producers, readers and loaders of this repository.
--
-- The programs. Three BPF programs (single_ringbuf_reserve, multi_ringbuf_reserve,
-- multi_ringbuf_output) put records into kernel ring buffers at each getpgid call; a user-space
-- program beside each one reads them as fast as it can. A ring is memory that the kernel and the
-- reader share: records lie one behind another, each with a header word whose top two bits say that
-- it is busy (reserved, not yet committed) or discarded; the kernel moves `producer_pos`, the reader
-- moves `consumer_pos`.
--
-- The files.
-- - Header: the header word and `roundup_len` (multi_ringbuf_reserve/shared_code.h, also in
--   single_ringbuf_reserve/case1.c). A machine word is a number below 2 ^ 32 or 2 ^ 64, and each
--   operation that may wrap has its remainder written out.
-- - Queue: the abstract view of a ring, a queue of header words: `pop` takes the oldest committed
--   record, and `Extends` says what the producer may do.
-- - Ring, Ring.Chain: `struct ring`, the records between two positions, and what the readers rely on
--   from the kernel (`Grows`), which is not part of this repository: records that were not released
--   stay where they are, a busy one may be committed, new ones come behind. `Kernel` is a move of the
--   kernel with that law; positions do not reach 2 ^ 64. Ring.Example has a kernel of that kind.
-- - Reader: single_ringbuf_reserve/case1.c. `ringbuf_process_one_from_ring` becomes
--   `process_one_from_ring` on the two cached positions and the ring; the kernel may act before each
--   call and between the loads of `producer_pos` and of the header. The loop of `main` takes a list
--   of rounds that say what the kernel does.
-- - Rings: multi_ringbuf_reserve. The arrays `cons_pos`, `prod_pos` and `rings` with their sizes; an
--   access out of range is an outcome of its own. Rings.RoundRobin is case1.c, Rings.Sticky is case3.c
--   and case4.c. The endless loop of `ring_buffer__consume_one` runs for as many iterations as there
--   are rounds, and `running` says that it has not returned by then.
-- - Bpf: the three BPF programs over the kernel's helpers (`Helpers`, a parameter that each theorem
--   is about), `get_best_buffer`, and the sizes that the programs ask for. Bpf.Build has what a build
--   chooses: the macros BYTE and MAX_CPUS, and the maps. Bpf.Race has the increments of a counter by
--   several CPUs, as loads and stores in any order.
-- - Loader: shared_code.h and `main` up to its loop (`set_up` and `main` are those of case2.c, which
--   the other cases repeat), the handler of SIGINT, and `main` and the handler of
--   single_ringbuf_reserve/case1.c. What the calls of libbpf and libc answer is a parameter,
--   `Answers`, and may depend on all calls before; Loader.Account says by their documentation what a
--   log of calls amounts to. Loader.Capture joins the set-up to the readers of Rings.
-- - Loader.Output: multi_ringbuf_output/shared_code.h and case1.c, each function a do block.
--   Loader.SingleLibbpf: single_ringbuf_reserve/case2.c in the same manner. Loader.Output.Same and
--   Loader.SingleLibbpf.Same relate them to Loader.
-- - Loader.Consume: the loops over libbpf's `ring_buffer__consume`, run for a number of iterations;
--   `Consumes` is what libbpf documents of that call.
-- - Loader.Signal: the states between the phases of `main` as a relation, and SIGINT at each of them;
--   a handler that goes through NULL or through a pointer to what is released comes to no end, and
--   nothing more is said. Loader.Signal.Again: SIGINT after the clean-up of a `main` that has failed.
--   Loader.Limit: MAX_CPUS against the number of CPUs.
-- - Cases: each user-space program as a whole, its set-up followed by its loop. Cases.Deliver has the
--   runs that find records in their rings and a kernel at rest.
-- - Stress: test/stress_test.c, whose calls of getpgid run the attached program.
-- - Bench: a test over a single ring as a whole, the BPF program and the reader taking turns on the
--   ring; `Mapped` is what the kernel documents of a ring buffer that is mapped into the reader.
--   Bench.Many: the same over one ring for each CPU, with `catch_fentry` of multi_ringbuf_reserve and
--   the loops of its case1.c, case3.c and case4.c. A turn is a whole run of the BPF program or one
--   iteration of the loop of `ring_buffer__consume_one`.
--   Bench.Cpus: the single ring again, with each run of the BPF program in two parts, so that runs on
--   several CPUs overlap and the reader meets records that are reserved and not yet submitted. The
--   increment of a counter belongs to the first part: what increments lose that interleave is in
--   Bpf.Race, and is left out here and in Bench.Smp.
--   Bench.Smp: one ring for each CPU with the same two parts, for the programs with and without
--   CUSTOMIZED and the readers of cases 1, 3 and 4 (`Case`). Bench.Cpus.Whole and Bench.Smp.Whole put
--   the set-up of `main` before these tests and SIGINT behind them.
--   Bench.Libbpf: the tests whose reader calls libbpf's `ring_buffer__consume`, from the set-up to
--   SIGINT; `Consumer` is what libbpf documents of that call, which returns an `int`, and so fewer than
--   2 ^ 31 events come.
-- - Queue.Committed, Reader.Takes, Rings.Takes, Rings.Held, Rings.Soon, Rings.Deliver: what the readers
--   do with records that are busy or committed, none discarded, while the kernel rests. Rings.Agree
--   compares the cases in a quotient of the list of samples that forgets how the rings alternate.
--
-- Not modelled. The kernel's ring buffer, libbpf and the verifier are parameters or absent. The
-- payload of a record is never read by the programs. Of vmlinux/vmlinux.h, which is generated from
-- the kernel, only the constants, flags and map types that the programs use are taken. Messages to
-- stderr and the scripts under test/ are left out. Time, a signal in the middle of a phase, and weak
-- memory order are left out: loads and stores of the positions are single steps in program order.
-- In the tests of Bench an iteration of the reader is one step, between those of the BPF program; what
-- the kernel does in the middle of an iteration is in Reader and Rings.
pub mod Common
pub mod Header
pub mod Queue
pub mod Ring
pub mod Reader
pub mod Rings
pub mod Bpf
pub mod Loader
pub mod Cases
pub mod Stress
pub mod Bench
