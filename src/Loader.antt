-- ===== src/Loader.antt =====
-- The user-space programs up to the capture: the globals of shared_code.h, and the calls that they
-- make of libbpf and of the C library, which are no part of the repository. What a call answers is
-- a parameter, `Answers`, and may depend on all calls before.
pub mod Int
pub mod Steps
pub mod Main
pub mod Account
pub mod Outcome
pub mod Single
pub mod Capture
pub mod Consume
pub mod Output
pub mod SingleLibbpf
pub mod Limit
pub mod Signal
pub mod Example
mod Tests
use bpf_ringbuf.Common.{ℕ, List, [], ◌∷◌}
use bpf_ringbuf.Loader.Int.{ℤ, pos, negsuc}

-- The calls with the arguments that matter here. `map_create` is `bpf_map_create` for a ring buffer
-- of RING_BUF_DIM bytes, `map_fd` is `bpf_map__fd` of the outer map.
pub data Call : Type 0 where
  set_print : Call
  setrlimit : Call
  set_signal : Call
  skel_open : Call
  skel_load : ℤ → Call
  skel_attach : ℤ → Call
  skel_destroy : ℤ → Call
  map_create : Call
  set_inner_map_fd : ℤ → Call
  map_fd : Call
  map_update_elem : ℤ → ℕ → ℤ → Call
  close : ℤ → Call
  num_possible_cpus : Call
  calloc : ℤ → Call
  free : ℤ → Call
  ring_buffer_new : ℤ → Call
  ring_buffer_add : ℤ → ℤ → Call
  ring_buffer_free : ℤ → Call
  ring_buffer_consume : ℤ → Call
  print : ℕ → Call

-- The calls made and what they answered, the latest first.
abbrev pub Log : Type 0
Log = List (Call × ℤ)

abbrev pub Answers : Type 0
Answers = Log → Call → ℤ

-- The globals, `skel->bss` and `skel->rodata`, and the local `inner_map_fd` of `main`.
pub record Loader : Type 0 where
  pub cons_pos : ℤ
  pub prod_pos : ℤ
  pub ringbuf : ℤ
  pub skel : ℤ
  pub n_cpus : ℤ
  pub n_elaborated : ℕ
  pub capture_enabled : ℕ
  pub n_drops : ℕ
  pub rodata_n_cpus : ℤ
  pub inner_map_fd : ℤ
  pub log : Log

-- The program's start.
abbrev pub initial : Loader
initial = record {
  cons_pos = pos 0;
  prod_pos = pos 0;
  ringbuf = pos 0;
  skel = pos 0;
  n_cpus = pos 0;
  n_elaborated = 0;
  capture_enabled = 0;
  n_drops = 0;
  rodata_n_cpus = pos 0;
  inner_map_fd = negsuc 0;
  log = [];
}

-- A call, and its answer.
abbrev pub ask : Answers → Call → Loader → ℤ × Loader
ask answers c l = let a = answers l.log c in (a, record l { log = (c, a) ∷ l.log })

-- A call whose answer the program does not look at.
abbrev pub tell : Answers → Call → Loader → Loader
tell answers c l = record l { log = (c, answers l.log c) ∷ l.log }
