-- ===== src/Ring.antt =====
-- `struct ring` (multi_ringbuf_reserve/shared_code.h): the memory that a reader shares with the
-- kernel. `sample_cb`, `ctx` and `map_fd` serve libbpf's own reader and are left out.
pub mod Chain
pub mod Example
use Prim.Native.Nat.{ℕ}

-- `data d` is the 32-bit word at `data + d`; the positions are what the two pointers point to.
pub record Ring : Type 0 where
  pub data_word : ℕ → ℕ
  pub consumer_pos : ℕ
  pub producer_pos : ℕ
  pub mask : ℕ
