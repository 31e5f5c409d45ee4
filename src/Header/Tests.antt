-- ===== src/Header/Tests.antt =====
-- `roundup_len` and the flags at concrete words.
use bpf_ringbuf.Common.{◌%◌, ◌≤◌, ◌<◌, ◌+◌, ◌*◌, ◌^◌, ◌≡◌, refl, true, false, arith}
use bpf_ringbuf.Header.{is_busy, is_discarded, roundup_len}
use bpf_ringbuf.Header.Bounds.{flag, roundup_len_bounds, header_fields}

roundup_len_runs :
    (roundup_len 0 ≡ 8) × (roundup_len 1 ≡ 16) × (roundup_len (2 ^ 31 + 2 ^ 30 + 16) ≡ 24)
unfolding roundup_len
roundup_len_runs = (refl, refl, refl)

roundup_len_bounds_example :
    (roundup_len 17 % 8 ≡ 0)
    × (17 + 8 ≤ roundup_len 17)
    × (roundup_len 17 < 17 + 16)
    × (roundup_len 17 ≤ 2 ^ 30 + 8)
roundup_len_bounds_example = roundup_len_bounds 17

header_fields_example :
    let word = flag true * 2 ^ 31 + flag false * 2 ^ 30 + 20 in
    (is_busy word ≡ true) × (is_discarded word ≡ false) × (roundup_len word ≡ roundup_len 20)
header_fields_example = header_fields true false 20 (omega arith)
