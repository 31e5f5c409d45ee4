-- ===== src/Reader.antt =====
-- The reader of one ring, single_ringbuf_reserve/case1.c: `ringbuf_process_one_from_ring` and
-- `ring_buffer__consume_one`, and the loop of `main`.
pub mod Refine
pub mod Progress
pub mod Fifo
pub mod Takes
pub mod Release
pub mod Offsets
mod Tests
use bpf_ringbuf.Common.{
  ℕ, ◌+◌, List, [], ◌∷◌, Option, none, some, bit_and, Bool, true, ltb, leb, if◌then◌else◌,
}
use bpf_ringbuf.Header.{u64, hdr_sz, is_busy, is_discarded, advance}
use bpf_ringbuf.Ring.{Ring}
use bpf_ringbuf.Ring.Chain.{Kernel}

-- The globals `cons_pos` and `prod_pos`, and the ring that they are about.
pub record Reader : Type 0 where
  pub cons_pos : ℕ
  pub prod_pos : ℕ
  pub ring : Ring

-- `if(cons_pos >= prod_pos) prod_pos = smp_load_acquire(r->producer_pos);`
unfoldable pub reload : Reader → Reader
reload s = record s {
  prod_pos = if leb s.prod_pos s.cons_pos then s.ring.producer_pos else s.prod_pos;
}

-- The body of `if(cons_pos < prod_pos)`. The sample is given by its offset from `r->data`.
-- `release` tells whether the block ends in `smp_store_release(r->consumer_pos, cons_pos)`, as it
-- does here and in each case of multi_ringbuf_reserve but case3.c.
unfoldable pub take_record : Bool → Reader → Option ℕ × Reader
take_record release s =
    let r = s.ring in
    let len_ptr = bit_and s.cons_pos r.mask in
    let len = r.data_word len_ptr in
    if is_busy len
    then (none, s)
    else let pos = advance s.cons_pos len in
      (
        if is_discarded len then none else some (len_ptr + hdr_sz),
        record s {
          cons_pos = pos;
          ring = record r { consumer_pos = if release then pos else r.consumer_pos };
        },
      )

-- The kernel may act between the load of `producer_pos` and the load of the header.
unfoldable pub process_one_from_ring : Kernel → Reader → Option ℕ × Reader
process_one_from_ring late s0 =
    let s = reload s0 in
    if ltb s.cons_pos s.prod_pos
    then take_record true (record s { ring = late.act s.ring })
    else (none, s)

-- `if(*sample != NULL) return 1; return 0;`
abbrev pub reads_of {ℓ} : {A : Type ℓ} → Option A → ℕ
reads_of none = 0
reads_of (some _) = 1

-- The return value, `*sample`, and the reader afterwards. `rb->rings[0]` is the reader's ring.
pub consume_one : Kernel → Reader → ℕ × Option ℕ × Reader
consume_one late s =
    let (sample, s') = process_one_from_ring late s in (reads_of sample, sample, s')

-- What the kernel does to the ring in one iteration of the loop: before the call, and between its
-- two loads.
pub record Round : Type 0 where
  pub before : Kernel
  pub late : Kernel

abbrev pub some_of {ℓ} : {A : Type ℓ} → Option A → List A → List A
some_of none l = l
some_of (some a) l = a ∷ l

-- The loop of `main`, as often as there are rounds: the samples that `header` takes in order,
-- `n_elaborated`, and the reader.
pub capture : List Round → Reader → ℕ → List ℕ × ℕ × Reader
capture [] s n = ([], n, s)
capture (w ∷ ws) s n =
    let (reads, sample, s') = consume_one w.late (record s { ring = w.before.act s.ring }) in
    let (samples, n', s'') = capture ws s' (u64 (n + reads)) in (some_of sample samples, n', s'')
