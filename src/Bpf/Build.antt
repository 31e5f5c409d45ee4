-- ===== src/Bpf/Build.antt =====
-- What a build of the BPF programs chooses: the macro BYTE, and the maps with their sizes. The types
-- of maps are those of vmlinux.h.
use bpf_ringbuf.Common.{ℕ, ◌%◌, ◌^◌, ◌≤◌, ◌<◌, Bool, if◌then◌else◌, arith}
use bpf_ringbuf.Header.{roundup_len}
use bpf_ringbuf.Header.Bounds.{roundup_len_lem}
use bpf_ringbuf.Bpf.Sizes.{
  reserve_size, single_size, ring_buf_dim, max_buf_dim, reserve_size_bounds, single_size_bounds,
}

pub data MapType : Type 0 where
  unspec hash array prog_array perf_event_array percpu_hash percpu_array stack_trace : MapType
  cgroup_array lru_hash lru_percpu_hash lpm_trie array_of_maps hash_of_maps devmap : MapType
  sockmap cpumap xskmap sockhash cgroup_storage reuseport_sockarray : MapType
  percpu_cgroup_storage queue stack sk_storage devmap_hash struct_ops ringbuf : MapType

-- `type`, `max_entries` and the size of a value.
pub record MapDef : Type 0 where
  pub map_type : MapType
  pub max_entries : ℕ
  pub value_size : ℕ

-- BYTE, by which of `__BYTE_512` and `__BYTE_2048`, or of `__BYTE_10` and `__BYTE_100`, is defined.
unfoldable pub reserve_byte : Bool → Bool → ℕ
reserve_byte byte_512 byte_2048 = if byte_512 then 512 else if byte_2048 then 2048 else 1024

unfoldable pub output_byte : Bool → Bool → ℕ
output_byte byte_512 byte_2048 = if byte_512 then 512 else if byte_2048 then 2048 else 200

unfoldable pub single_byte : Bool → Bool → ℕ
single_byte byte_10 byte_100 = if byte_10 then 10 else if byte_100 then 100 else 1024

-- `MAX_CPUS` of the two programs over one ring for each CPU.
abbrev pub reserve_max_cpus : ℕ
reserve_max_cpus = 64

abbrev pub output_max_cpus : ℕ
output_max_cpus = 32

-- `ringbuf_arr` of multi_ringbuf_reserve.bpf.c and of multi_ringbuf_output.bpf.c; a value is a `u32`.
abbrev pub reserve_ringbuf_arr : MapDef
reserve_ringbuf_arr = record {
  map_type = array_of_maps;
  max_entries = reserve_max_cpus;
  value_size = 4;
}

abbrev pub output_ringbuf_arr : MapDef
output_ringbuf_arr = record {
  map_type = array_of_maps;
  max_entries = output_max_cpus;
  value_size = 4;
}

-- `heap`, whose values are a `struct event`, BYTE bytes.
abbrev pub heap : ℕ → MapDef
heap byte = record { map_type = percpu_array; max_entries = output_max_cpus; value_size = byte }

-- `rb` of single_ringbuf_reserve.bpf.c.
abbrev pub single_rb : MapDef
single_rb = record { map_type = ringbuf; max_entries = max_buf_dim; value_size = 0 }

-- A record of `size` bytes has a length that leaves the flags of its header free, and fits the ring.
abbrev pub FitsRing : ℕ → ℕ → Type 0
FitsRing ring size = (size < 2 ^ 30) × (roundup_len size ≤ ring)

-- In every build and for every random number, what the three programs ask for, or send from `heap`,
-- is a record that fits the ring buffer that it goes to.
pub builds-FitsRing :
    (a b : Bool) (r : ℕ)
    → FitsRing ring_buf_dim (reserve_size (reserve_byte a b) (r % 7))
      × FitsRing single_rb.max_entries (single_size (single_byte a b) (r % 19))
      × FitsRing ring_buf_dim (heap (output_byte a b)).value_size
unfolding reserve_byte single_byte output_byte
builds-FitsRing a b r =
    let small : reserve_byte a b ≤ 2048 = ground arith in
    let small' : single_byte a b ≤ 1024 = ground arith in
    let small'' : output_byte a b ≤ 2048 = ground arith in
    let (e, lo, hi, flags, fits) = reserve_size_bounds (reserve_byte a b) r small in
    let (e', lo', hi', flags', fits') = single_size_bounds (single_byte a b) r small' in
    (
      (flags, fits),
      (flags', fits'),
      (omega arith, omega (arith, roundup_len_lem (output_byte a b))),
    )
