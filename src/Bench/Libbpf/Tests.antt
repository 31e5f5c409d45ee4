-- ===== src/Bench/Libbpf/Tests.antt =====
-- A test with the small kernel of Bpf.Example and a set-up in which nothing fails.
use bpf_ringbuf.Common.{refl, List, [], ◌∷◌, true, arith}
use bpf_ringbuf.Loader.Int.{ℤ, pos}
use bpf_ringbuf.Loader.Consume.{handle_event}
use bpf_ringbuf.Loader.Example.{all_well}
use bpf_ringbuf.Bpf.Example.{State, kernel, counter}
use bpf_ringbuf.Bench.{Turn, event, read}
use bpf_ringbuf.Bench.Libbpf.{Consumer, case2_test, output_test, single_case2_test}
use bpf_ringbuf.Bench.Libbpf.Prints.{EndsWell, libbpf-Prints}

abbrev consume_all : ℤ → State → ℤ × State
consume_all rb (sent, room) = (pos sent, (0, room))

abbrev consumer : Consumer kernel counter handle_event
consumer = record { consume = consume_all; takes_all = λ ok rb st few. (refl, refl) }

-- Three events are read, and one of the others may wait.
abbrev order : List Turn
order = event ∷ event ∷ event ∷ read ∷ event ∷ []

libbpf-Prints_example :
    EndsWell kernel counter 4 1 (case2_test kernel consume_all all_well 64 order (0, 1000) true)
    × EndsWell kernel counter 4 1 (output_test kernel consume_all all_well 64 order (0, 1000))
    × EndsWell kernel counter 4 1
        (single_case2_test kernel consume_all all_well 64 order (0, 1000) 0)
libbpf-Prints_example =
    libbpf-Prints kernel counter consumer all_well 64 order (0, 1000) (omega arith) refl true 0
