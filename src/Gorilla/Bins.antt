-- ===== src/Gorilla/Bins.antt =====
-- Bits in an array of 64-bit bins (src/gorilla.c): masks, the two's complement of `l` bits, and
-- reading and appending a field at any bit.
use redis_time_series.Common.{ℕ, zero, suc, ◌+◌, ◌-◌, ◌*◌, ◌/◌, ◌%◌, ◌^◌, List}
use redis_time_series.Common.{Bool, ◌&&◌, bit_and, bit_or, leb, ◌==◌, if◌then◌else◌, get_or, set}
use redis_time_series.Common.{u64, sub64, signed_leb, min}

abbrev pub binw : ℕ
binw = 64

-- The entries of the tables `bittt` and `bitmask`.
abbrev pub bit : ℕ → ℕ
bit i = 2 ^ i

abbrev pub bitmask : ℕ → ℕ
bitmask i = 2 ^ i - 1

abbrev pub lsb : ℕ → ℕ → ℕ
lsb x bits = bit_and x (bitmask bits)

unfoldable pub int2bin : ℕ → ℕ → ℕ
int2bin x l = lsb x l

unfoldable pub bin2int : ℕ → ℕ → ℕ
bin2int bin l = if bit_and bin (bit (l - 1)) == 0 then bin else sub64 bin (bit l)

abbrev pub bin_max_val : ℕ → ℕ
bin_max_val nbits = bit (nbits - 1) - 1

abbrev pub bin_min_val : ℕ → ℕ
bin_min_val nbits = sub64 0 (bit (nbits - 1))

abbrev pub localbit : ℕ → ℕ
localbit b = b % binw

unfoldable pub bin_in_range : ℕ → ℕ → Bool
bin_in_range x nbits = signed_leb (bin_min_val nbits) x && signed_leb x (bin_max_val nbits)

unfoldable pub bins_bitoff : List ℕ → ℕ → Bool
bins_bitoff bins b = bit_and (get_or bins (b / binw) 0) (bit (localbit b)) == 0

-- `bins[i] |= v`
abbrev pub or_bin : List ℕ → ℕ → ℕ → List ℕ
or_bin bins i v = set bins i (bit_or (get_or bins i 0) v)

-- The bins after `*bit += dataLen`, with the new `*bit`.
unfoldable pub append_bits : List ℕ → ℕ → ℕ → ℕ → List ℕ
append_bits bins b dat len =
    let lbit = localbit b in
    let available = binw - lbit in
    if leb len available
    then or_bin bins (b / 2 ^ 6) (u64 (lsb dat len * 2 ^ lbit))
    else or_bin (or_bin bins (b / 2 ^ 6) (u64 (dat * 2 ^ lbit))) (b / 2 ^ 6 + 1)
        (lsb (dat / 2 ^ available) lbit)

unfoldable pub read_bits : List ℕ → ℕ → ℕ → ℕ
read_bits bins start_pos len =
    let lbit = localbit start_pos in
    let available = binw - lbit in
    if leb len available
    then lsb (get_or bins (start_pos / binw) 0 / 2 ^ lbit) len
    else bit_or (lsb (get_or bins (start_pos / binw) 0 / 2 ^ lbit) available)
        (u64 (lsb (get_or bins (start_pos / binw + 1) 0) (len - available) * 2 ^ available))

-- `while (bin <= last_bin) { *bin = 0; bin++; }` with `left` bins to go.
unfoldable pub zero_bins : ℕ → ℕ → List ℕ → List ℕ
zero_bins zero i bins = bins
zero_bins (suc left) i bins = zero_bins left (i + 1) (set bins i 0)

unfoldable pub zero_bits : List ℕ → ℕ → ℕ → ℕ → List ℕ
zero_bits bins data_size start end =
    let first = start / 2 ^ 6 in
    let last = min (end / 2 ^ 3) (sub64 data_size 1) / 2 ^ 3 in
    if start == end
    then bins
    else zero_bins (last - first) (first + 1)
        (set bins first (bit_and (get_or bins first 0) (bitmask (localbit start))))
