-- ===== src/Loader/Limit.antt =====
-- `MAX_CPUS` of the BPF programs against the loaders: the outer map has that many keys.
use bpf_ringbuf.Common.{Bool, true, false, refl, if◌then◌else◌, ◌≤◌, ◌≡◌, sym, ◌∙◌}
use mathlib.Core.Path.{subst}
use bpf_ringbuf.Loader.Int.{to_nat}
use bpf_ringbuf.Loader.{Loader, Answers, initial}
use bpf_ringbuf.Loader.Main
use bpf_ringbuf.Loader.Main.{Outcome, captures}
use bpf_ringbuf.Loader.Output
use bpf_ringbuf.Loader.Output.Same.{output-same}
use bpf_ringbuf.Loader.Account.Stage.{Limited}
use bpf_ringbuf.Loader.Account.Laws.{OnOutcome, main-OnOutcome}
use bpf_ringbuf.Bpf.Build.{MapDef, reserve_ringbuf_arr, output_ringbuf_arr}

-- The outer map, and `main`, of multi_ringbuf_output, or else of multi_ringbuf_reserve.
abbrev pub outer_map : Bool → MapDef
outer_map output = if output then output_ringbuf_arr else reserve_ringbuf_arr

abbrev pub main_of : Bool → Answers → Loader → Outcome
main_of output answers l = if output then Output.main answers l else Main.main answers l

main_of-main :
    (output : Bool) (answers : Answers) (l : Loader)
    → main_of output answers l ≡ Main.main answers l
main_of-main true answers l = (output-same answers l).0
main_of-main false answers l = refl

-- If the kernel takes no key of the outer map from its `max_entries` on, a loader captures on at most
-- MAX_CPUS CPUs: 32 for multi_ringbuf_output and 64 for multi_ringbuf_reserve.
pub main-Limited :
    (output : Bool) (answers : Answers) (l : Loader)
    → Limited (outer_map output).max_entries answers
    → main_of output answers initial ≡ captures l
    → to_nat l.n_cpus ≤ (if output then 32 else 64)
main-Limited output answers l limited e =
    let (managed, h, k, c, on, unread, room) =
      subst (OnOutcome answers) (sym (main_of-main output answers initial) ∙ e)
        (main-OnOutcome answers) in
    entries output (room (outer_map output).max_entries limited)
  where
    entries :
        (output : Bool)
        → to_nat l.n_cpus ≤ (outer_map output).max_entries
        → to_nat l.n_cpus ≤ (if output then 32 else 64)
    entries true le = le
    entries false le = le
