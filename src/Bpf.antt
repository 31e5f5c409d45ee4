-- ===== src/Bpf.antt =====
-- What the BPF programs use of the kernel, and the globals that they share with user space.
pub mod Sizes
pub mod Best
pub mod Programs
pub mod Build
pub mod Race
pub mod Example
mod Tests
use bpf_ringbuf.Common.{ℕ, ◌+◌, ◌≡◌, Option, Bool}
use bpf_ringbuf.Header.{u64}

-- The flags of `bpf_ringbuf_query`, and those of `bpf_ringbuf_submit` and `bpf_ringbuf_output`.
pub data QueryFlag : Type 0 where
  rb_avail_data rb_ring_size rb_cons_pos rb_prod_pos : QueryFlag

pub data WakeupFlag : Type 0 where
  rb_no_wakeup rb_force_wakeup : WakeupFlag

-- The helpers are the kernel's. Each is given the kernel's state and returns the next one, which
-- may hold what other CPUs have done meanwhile.
pub record Helpers : Type 1 where
  pub State : Type 0
  -- A pointer to a ring buffer, to reserved space, and to an entry of the map `heap`.
  pub RingBuf : Type 0
  pub Event : Type 0
  pub Entry : Type 0
  pub get_smp_processor_id : State → ℕ × State
  pub get_prandom_u32 : State → ℕ × State
  -- `bpf_map_lookup_elem` on `ringbuf_arr` and on `heap`.
  pub lookup_ringbuf : ℕ → State → Option RingBuf × State
  pub lookup_heap : ℕ → State → Option Entry × State
  pub query : RingBuf → QueryFlag → State → ℕ × State
  pub reserve : RingBuf → ℕ → State → Option Event × State
  pub submit : Event → WakeupFlag → State → State
  -- Whether `bpf_ringbuf_output` returned an error.
  pub output : RingBuf → Entry → ℕ → WakeupFlag → State → Bool × State

-- `capture_enabled`, `n_drops` and `n_skipped`; the counters are 64 bits wide.
pub record Globals : Type 0 where
  pub capture_enabled : ℕ
  pub n_drops : ℕ
  pub n_skipped : ℕ

-- `n_drops++` and `n_skipped++`.
abbrev pub count_drop : Globals → Globals
count_drop g = record g { n_drops = u64 (g.n_drops + 1) }

abbrev pub count_skip : Globals → Globals
count_skip g = record g { n_skipped = u64 (g.n_skipped + 1) }
