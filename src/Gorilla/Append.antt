-- ===== src/Gorilla/Append.antt =====
-- The encoder (src/gorilla.c): one sample is appended to the chunk, or the chunk is left as it was.
use redis_time_series.Common.{ℕ, ◌+◌, ◌-◌, ◌/◌, ◌*◌, ◌^◌, Bool, ◌&&◌, bit_xor, leb, ltb, ◌==◌}
use redis_time_series.Common.{if◌then◌else◌, u64, u8, sub64, leading_zeros64, trailing_zeros64}
use redis_time_series.Generic.{ChunkResult, cr_ok, cr_err, cr_end}
use redis_time_series.Gorilla.{CompressedChunk}
use redis_time_series.Gorilla.Bins.{binw, append_bits, int2bin, bin_in_range, zero_bits}

abbrev pub cmpr_l1 : ℕ
cmpr_l1 = 5

abbrev pub cmpr_l2 : ℕ
cmpr_l2 = 8

abbrev pub cmpr_l3 : ℕ
cmpr_l3 = 11

abbrev pub cmpr_l4 : ℕ
cmpr_l4 = 15

abbrev pub cmpr_l5 : ℕ
cmpr_l5 = 32

abbrev pub double_leading : ℕ
double_leading = 5

abbrev pub double_block_size : ℕ
double_block_size = 6

abbrev pub double_block_adjust : ℕ
double_block_adjust = 1

-- What the C functions return, with the chunk that they leave behind.
abbrev pub Outcome : Type 0
Outcome = ChunkResult × CompressedChunk

unfoldable pub is_space_available : CompressedChunk → ℕ → Bool
is_space_available c size = leb size (sub64 (u64 (c.size * 8)) c.idx)

-- `CHECKSPACE(chunk, x)`, which returns from the caller.
abbrev pub checkspace : CompressedChunk → ℕ → Outcome → Outcome
checkspace c x rest = if is_space_available c x then rest else (cr_err, c)

-- `appendBits(chunk->data, &chunk->idx, data, len)`
unfoldable pub put : CompressedChunk → ℕ → ℕ → CompressedChunk
put c dat len = record c { bins = append_bits c.bins c.idx dat len; idx = u64 (c.idx + len) }

-- The last two assignments of `appendInteger`.
abbrev pub set_delta : ℕ → ℕ → CompressedChunk → CompressedChunk
set_delta cur_delta timestamp c = record c {
  prev_timestamp_delta = cur_delta;
  prev_timestamp = timestamp;
}

unfoldable pub append_integer : CompressedChunk → ℕ → Outcome
append_integer c timestamp =
    let cur_delta = sub64 timestamp c.prev_timestamp in
    let double_delta = sub64 cur_delta c.prev_timestamp_delta in
    let done = λ (c' : CompressedChunk). set_delta cur_delta timestamp c' in
    if double_delta == 0
    then checkspace c (1 + 1) (cr_ok, done (put c 0x00 1))
    else if bin_in_range double_delta cmpr_l1
    then checkspace c (2 + cmpr_l1 + 1)
        (cr_ok, done (put (put c 0x01 2) (int2bin double_delta cmpr_l1) cmpr_l1))
    else if bin_in_range double_delta cmpr_l2
    then checkspace c (3 + cmpr_l2 + 1)
        (cr_ok, done (put (put c 0x03 3) (int2bin double_delta cmpr_l2) cmpr_l2))
    else if bin_in_range double_delta cmpr_l3
    then checkspace c (4 + cmpr_l3 + 1)
        (cr_ok, done (put (put c 0x07 4) (int2bin double_delta cmpr_l3) cmpr_l3))
    else if bin_in_range double_delta cmpr_l4
    then checkspace c (5 + cmpr_l4 + 1)
        (cr_ok, done (put (put c 0x0f 5) (int2bin double_delta cmpr_l4) cmpr_l4))
    else if bin_in_range double_delta cmpr_l5
    then checkspace c (6 + cmpr_l5 + 1)
        (cr_ok, done (put (put c 0x1f 6) (int2bin double_delta cmpr_l5) cmpr_l5))
    else checkspace c (6 + 64 + 1) (cr_ok, done (put (put c 0x3f 6) double_delta 64))

-- `BINW - leading - trailing` in a `localbit_t`, a byte.
abbrev pub block_of : ℕ → ℕ → ℕ
block_of leading trailing = u8 (2 ^ 64 + binw - leading - trailing)

-- `leading` is held to the 5 bits that it is written in.
abbrev pub leading_of : ℕ → ℕ
leading_of x = if ltb 31 (leading_zeros64 x) then 31 else leading_zeros64 x

-- The block of significant digits of `x`, by the previous block's limits or with its own.
unfoldable pub append_block : CompressedChunk → ℕ → ℕ → Outcome
append_block c value x =
    let leading = leading_of x in
    let trailing = trailing_zeros64 x in
    let block_size = block_of leading trailing in
    let expected_size = double_leading + double_block_size + block_size in
    let prev_block_info_size = block_of c.prev_leading c.prev_trailing in
    if leb c.prev_leading leading
      && (leb c.prev_trailing trailing && ltb prev_block_info_size expected_size)
    then checkspace c (prev_block_info_size + 1) (
      cr_ok,
      record (put (put c 0 1) (x / 2 ^ c.prev_trailing) prev_block_info_size) {
        prev_value = value;
      },
    )
    else checkspace c (expected_size + 1) (
      cr_ok,
      record (put
          (put (put (put c 1 1) leading double_leading) (block_size - double_block_adjust)
            double_block_size)
          (x / 2 ^ trailing) block_size) {
            prev_leading = leading;
            prev_trailing = trailing;
            prev_value = value;
          },
    )

unfoldable pub append_float : CompressedChunk → ℕ → Outcome
append_float c value =
    let x = bit_xor value c.prev_value in
    if x == 0 then (cr_ok, put c 0 1) else append_block (put c 1 1) value x

-- The failure branch of `Compressed_Append`, which returns CR_END.
unfoldable pub rollback : CompressedChunk → CompressedChunk → Outcome
rollback c failed = (
  cr_end,
  record failed {
    bins = zero_bits failed.bins failed.size c.idx failed.idx;
    idx = c.idx;
    prev_timestamp = c.prev_timestamp;
    prev_timestamp_delta = c.prev_timestamp_delta;
  },
)

-- `chunk->count++` and CR_OK.
abbrev pub counted : CompressedChunk → Outcome
counted c = (cr_ok, record c { count = u64 (c.count + 1) })

-- `A() != CR_OK || B() != CR_OK` rolls back, with what the failing call left.
unfoldable pub after_float : CompressedChunk → Outcome → Outcome
after_float c (cr_ok, c') = counted c'
after_float c (cr_err, c') = rollback c c'
after_float c (cr_end, c') = rollback c c'

unfoldable pub after_integer : CompressedChunk → ℕ → Outcome → Outcome
after_integer c value (cr_ok, c') = after_float c (append_float c' value)
after_integer c value (cr_err, c') = rollback c c'
after_integer c value (cr_end, c') = rollback c c'

unfoldable pub append : CompressedChunk → ℕ → ℕ → Outcome
append c timestamp value =
    if c.count == 0
    then counted (record c {
      base_value = value;
      prev_value = value;
      base_timestamp = timestamp;
      prev_timestamp = timestamp;
      prev_timestamp_delta = 0;
    })
    else after_integer c value (append_integer c timestamp)
