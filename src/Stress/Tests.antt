-- ===== src/Stress/Tests.antt =====
-- The stress test on the small kernel.
use bpf_ringbuf.Common.{◌+◌, List, [], ◌∷◌, refl, arith, true}
use bpf_ringbuf.Loader.Int.{pos}
use bpf_ringbuf.Bpf.Example.{State, kernel, counter, on}
use bpf_ringbuf.Bpf.Programs.{catch_fentry, catch_fentry_one, catch_fentry_output}
use bpf_ringbuf.Stress.{main}
use bpf_ringbuf.Stress.Laws.{Conserved, stress-Conserved}

abbrev calls : List (State → State)
calls = (λ st. st) ∷ (λ st. (st.0, st.1 + 10)) ∷ (λ st. st) ∷ []

stress-Conserved_example :
    Conserved kernel counter 3 on
      (0, 3000)
      (main kernel (catch_fentry kernel true 512 4) (pos 0) calls on (0, 3000))
    × Conserved kernel counter 3 on
        (0, 3000)
        (main kernel (catch_fentry_one kernel 1 512) (pos 0) calls on (0, 3000))
    × Conserved kernel counter 3 on
        (0, 3000)
        (main kernel (catch_fentry_output kernel 512) (pos 0) calls on (0, 3000))
stress-Conserved_example =
    stress-Conserved kernel counter (pos 0) calls true 1 512 4 on (0, 3000)
      ((λ st. refl), ((λ st. refl), ((λ st. refl), tt))) refl (omega arith) (omega arith)
