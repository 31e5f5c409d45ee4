-- ===== src/Loader/Signal.antt =====
-- SIGINT between two phases of `main` of the programs over one ring for each CPU. The handler is in
-- place from the end of `initialize_resources` on, before there is a skeleton.
pub mod Keeps
pub mod Laws
pub mod Same
pub mod Again
use bpf_ringbuf.Common.{Bool, true, false, List, [], ◌∷◌, ◌≡◌, ◌||◌, ◌&&◌, if◌then◌else◌}
use bpf_ringbuf.Loader.Int.{ℤ, is_zero, same}
use bpf_ringbuf.Loader.Account.{account}
use bpf_ringbuf.Loader.{Answers, Loader, initial}
use bpf_ringbuf.Loader.Steps.{
  finished, initialize_resources, open_skeleton, load_inner_map, set_cpus_number, load_skeleton,
  instaciate_ring_buffers, attach_skeleton, start_capture,
}
use bpf_ringbuf.Loader.Main.{Outcome, signal_callback, close_inner_map}

-- What `main` has done last.
pub data Phase : Type 0 where
  initialized opened inner_map_loaded cpus_set loaded inner_map_closed instaciated attached
        capturing :
      Phase

-- `main` has done that, and these are the globals then: each phase returned true.
pub data Reaches (answers : Answers) : Phase → Loader → Type 0 where
  initialize :
      {l : Loader}
      → initialize_resources answers initial ≡ finished (true, l)
      → Reaches answers initialized l
  open_phase :
      {l l' : Loader}
      → Reaches answers initialized l
      → open_skeleton answers l ≡ (true, l')
      → Reaches answers opened l'
  load_map :
      {l l' : Loader}
      → Reaches answers opened l
      → load_inner_map answers l ≡ (true, l')
      → Reaches answers inner_map_loaded l'
  set_cpus :
      {l l' : Loader}
      → Reaches answers inner_map_loaded l
      → set_cpus_number answers l ≡ (true, l')
      → Reaches answers cpus_set l'
  load_phase :
      {l l' : Loader}
      → Reaches answers cpus_set l
      → load_skeleton answers l ≡ (true, l')
      → Reaches answers loaded l'
  close_map :
      {l l' : Loader}
      → Reaches answers loaded l
      → close_inner_map answers l ≡ (true, l')
      → Reaches answers inner_map_closed l'
  instaciate :
      {l l' : Loader}
      → Reaches answers inner_map_closed l
      → instaciate_ring_buffers answers l ≡ (true, l')
      → Reaches answers instaciated l'
  attach_phase :
      {l l' : Loader}
      → Reaches answers instaciated l
      → attach_skeleton answers l ≡ (true, l')
      → Reaches answers attached l'
  capture :
      {l : Loader}
      → Reaches answers attached l
      → Reaches answers capturing (start_capture answers l)

-- What becomes of SIGINT: the handler goes through a NULL pointer, or through a pointer to what has
-- been released before, after which nothing is said, or it comes to its end.
pub data Interrupt : Type 0 where
  through_null : Interrupt
  through_freed : Interrupt
  handled : Outcome → Interrupt

abbrev pub holds : ℤ → List ℤ → Bool
holds p [] = false
holds p (q ∷ qs) = same p q || holds p qs

-- What the handler goes through is held: the skeleton, from `skel->bss->capture_enabled = 0` on, and
-- the manager, if there is one, in `clean`.
abbrev pub intact : Loader → Bool
intact l =
    holds l.skel (account l.log).skels
    && (is_zero l.ringbuf || holds l.ringbuf (account l.log).managers)

unfoldable pub interrupt : Answers → Loader → Interrupt
interrupt answers l =
    if is_zero l.skel
    then through_null
    else (if intact l then handled (signal_callback answers l) else through_freed)
