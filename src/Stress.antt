-- ===== src/Stress.antt =====
-- test/stress_test.c, which calls getpgid for ever and so runs the attached program.
pub mod Laws
mod Tests
use bpf_ringbuf.Common.{Bool, List, if◌then◌else◌}
use bpf_ringbuf.Loader.Int.{ℤ, pos, negsuc, same}
use bpf_ringbuf.Bpf.{Helpers, Globals}
use bpf_ringbuf.Bpf.Programs.Switch.{runs}

-- The process has ended with a code, or it is calling.
pub data Outcome (S : Type 0) : Type 0 where
  ended : ℤ → Outcome S
  calling : S → Outcome S

-- `exit(EXIT_SUCCESS)`
unfoldable pub signal_callback : {S : Type 0} → Outcome S
signal_callback = ended (pos 0)

module _ (h : Helpers) where
  open h use {State}

  -- `old` is what `signal` returns, -1 for SIG_ERR. Each getpgid runs the program once; `others` is
  -- what happens to the kernel before each call.
  unfoldable pub main :
      (Globals → State → Globals × State)
      → ℤ
      → List (State → State)
      → Globals
      → State
      → Outcome (Globals × State)
  main program old others g st =
      if same old (negsuc 0) then ended (pos 1) else calling (runs h program others g st)
