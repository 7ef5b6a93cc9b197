-- ===== src/Gorilla/Read.antt =====
-- The decoder (src/gorilla.c): an iterator reads one sample after another.
use redis_time_series.Common.{ℕ, ◌+◌, ◌-◌, ◌*◌, ◌^◌, List, bit_xor, leb, ◌==◌}
use redis_time_series.Common.{if◌then◌else◌, u64, u8, add64}
use redis_time_series.Generic.{Sample, ChunkResult, cr_ok, cr_end}
use redis_time_series.Gorilla.{CompressedChunk, CompressedIterator}
use redis_time_series.Gorilla.Bins.{binw, bin2int, bins_bitoff, read_bits}
use redis_time_series.Gorilla.Append.{
  cmpr_l1, cmpr_l2, cmpr_l3, cmpr_l4, cmpr_l5, double_leading, double_block_size,
  double_block_adjust,
}

-- `iter->idx += k`
abbrev pub skip : CompressedIterator → ℕ → CompressedIterator
skip it k = record it { idx = u64 (it.idx + k) }

-- `iter->prevDelta += bin2int(readBits(bins, iter->idx, l), l); iter->idx += l`
unfoldable pub read_delta : List ℕ → CompressedIterator → ℕ → CompressedIterator
read_delta bins it l = record it {
  prev_delta = add64 it.prev_delta (bin2int (read_bits bins it.idx l) l);
  idx = u64 (it.idx + l);
}

-- The last branch, where the 64 bits are the delta itself.
unfoldable pub read_word : List ℕ → CompressedIterator → CompressedIterator
read_word bins it = record it {
  prev_delta = add64 it.prev_delta (read_bits bins it.idx 64);
  idx = u64 (it.idx + 64);
}

-- Each control bit is read by `Bins_bitoff(bins, iter->idx++)`; what the C function returns is the
-- `prev_delta` of the result.
unfoldable pub read_integer : List ℕ → CompressedIterator → CompressedIterator
read_integer bins it =
    let it1 = skip it 1 in
    let it2 = skip it1 1 in
    let it3 = skip it2 1 in
    let it4 = skip it3 1 in
    let it5 = skip it4 1 in
    if bins_bitoff bins it.idx
    then read_delta bins it1 cmpr_l1
    else if bins_bitoff bins it1.idx
    then read_delta bins it2 cmpr_l2
    else if bins_bitoff bins it2.idx
    then read_delta bins it3 cmpr_l3
    else if bins_bitoff bins it3.idx
    then read_delta bins it4 cmpr_l4
    else if bins_bitoff bins it4.idx
    then read_delta bins it5 cmpr_l5
    else read_word bins it5

-- `xorValue = readBits(data, iter->idx, iter->blocksize) << iter->trailing` and what follows it.
unfoldable pub read_block : List ℕ → CompressedIterator → CompressedIterator
read_block bins it =
    let x = u64 (read_bits bins it.idx it.block_size * 2 ^ it.trailing) in
    record it { idx = u64 (it.idx + it.block_size); prev_value = bit_xor x it.prev_value }

-- The 5 bits of `leading` and the 6 bits of `blocksize - 1`.
unfoldable pub read_block_info : List ℕ → CompressedIterator → CompressedIterator
read_block_info bins it =
    let leading = u8 (read_bits bins it.idx double_leading) in
    let it1 = skip it double_leading in
    let block_size = u8 (read_bits bins it1.idx double_block_size + double_block_adjust) in
    let it2 = skip it1 double_block_size in
    record it2 {
      leading = leading;
      block_size = block_size;
      trailing = u8 (2 ^ 64 + binw - leading - block_size);
    }

unfoldable pub read_float : List ℕ → CompressedIterator → CompressedIterator
read_float bins it =
    let it1 = skip it 1 in
    if bins_bitoff bins it.idx
    then read_block bins it1
    else read_block bins (read_block_info bins it1)

-- `Bins_bitoff(bins, iter->idx++) ? iter->prevDelta : readInteger(iter, bins)`
unfoldable pub next_delta : List ℕ → CompressedIterator → CompressedIterator
next_delta bins it =
    let it1 = skip it 1 in if bins_bitoff bins it.idx then it1 else read_integer bins it1

-- The timestamp of the next sample, `iter->prevTS += ...`.
unfoldable pub next_timestamp : List ℕ → CompressedIterator → CompressedIterator
next_timestamp bins it =
    let it1 = next_delta bins it in record it1 { prev_ts = add64 it1.prev_ts it1.prev_delta }

unfoldable pub next_value : List ℕ → CompressedIterator → CompressedIterator
next_value bins it =
    let it1 = skip it 1 in if bins_bitoff bins it.idx then it1 else read_float bins it1

-- `*sample` is written on CR_OK alone.
unfoldable pub get_next :
    CompressedChunk → CompressedIterator → Sample → ChunkResult × CompressedIterator × Sample
get_next c it sample =
    let it1 = next_value c.bins (next_timestamp c.bins it) in
    if leb c.count it.count
    then (cr_end, it, sample)
    else if it.count == 0
    then (
      cr_ok,
      record it { count = u64 (it.count + 1) },
      record { timestamp = c.base_timestamp; value = c.base_value },
    )
    else (
      cr_ok,
      record it1 { count = u64 (it1.count + 1) },
      record { timestamp = it1.prev_ts; value = it1.prev_value },
    )

-- `Compressed_ResetChunkIterator` (src/compressed_chunk.c): the iterator before the first sample.
unfoldable pub new_iterator : CompressedChunk → CompressedIterator
new_iterator c = record {
  idx = 0;
  count = 0;
  prev_ts = c.base_timestamp;
  prev_delta = 0;
  prev_value = c.base_value;
  leading = 32;
  trailing = 32;
  block_size = 0;
}
