-- ===== src/Loader/Consume.antt =====
-- The capture loops of multi_ringbuf_reserve/case2.c, multi_ringbuf_output/case1.c and
-- single_ringbuf_reserve/case2.c, which read through libbpf's own `ring_buffer__consume`.
pub mod Laws
use bpf_ringbuf.Common.{ℕ, zero, suc, ◌+◌, ◌-◌, ◌%◌, ◌^◌, ◌≡◌, false}
use bpf_ringbuf.Header.{u64}
use bpf_ringbuf.Loader.Int.{ℤ, pos, negsuc, is_negative}
use bpf_ringbuf.Loader.{Answers, Loader, Log, ask, ring_buffer_consume}

-- An `int` that is added to a `uint64_t`: its value modulo 2 ^ 64.
abbrev pub as_u64 : ℤ → ℕ
as_u64 (pos n) = n % 2 ^ 64
as_u64 (negsuc n) = 2 ^ 64 - 1 - n % 2 ^ 64

-- The callback of `ring_buffer__new` and `ring_buffer__add`, which libbpf calls with each sample.
abbrev pub handle_event : ℤ → ℤ → ℕ → ℤ
handle_event ctx data_ptr data_sz = pos 0

-- What libbpf documents of `ring_buffer__consume`: it returns the number of records consumed, or
-- the negative number that a callback has returned.
pub record Consumes (callback : ℤ → ℤ → ℕ → ℤ) (answers : Answers) : Type 0 where
  pub counted :
      ((ctx data_ptr : ℤ) (data_sz : ℕ) → is_negative (callback ctx data_ptr data_sz) ≡ false)
      → (log : Log) (rb : ℤ) → is_negative (answers log (ring_buffer_consume rb)) ≡ false

module _ (answers : Answers) where
  -- `n_elaborated += ring_buffer__consume(ringbuf);`
  unfoldable pub consume_once : Loader → Loader
  consume_once l0 =
      let (reads, l) = ask answers (ring_buffer_consume l0.ringbuf) l0 in
      record l { n_elaborated = u64 (l.n_elaborated + as_u64 reads) }

  -- `while(1) { ... }`, for a number of iterations.
  unfoldable pub consume_loop : ℕ → Loader → Loader
  consume_loop zero l = l
  consume_loop (suc k) l = consume_loop k (consume_once l)
