-- ===== src/Compressed.antt =====
-- The compressed chunk's operations (src/compressed_chunk.c), over the codec of `Gorilla`. Memory is
-- taken to be there when it is asked for. `none` is the assertion of `ensureAddSample` failing. The
-- counts that the C code keeps in an `int` (`oldsize`, `numSamples`) are below 2 ^ 31.
pub mod Growth
pub mod Ensure
pub mod Loops
pub mod Split
pub mod RoundTrip
pub mod Upsert
pub mod Upserting
pub mod Scanning
pub mod Ends
pub mod Serial
pub mod Decompress
pub mod Collect
pub mod Filling
pub mod Querying
mod Tests
use redis_time_series.Common.{◌>>=◌}
use redis_time_series.Common.{
  ℕ, zero, suc, ◌+◌, ◌-◌, ◌*◌, ◌/◌, ◌%◌, ◌^◌, ◌≤◌, Bool, ◌&&◌, List, ◌++◌, Option, none, some,
}
use redis_time_series.Common.{leb, ltb, ◌==◌, if◌then◌else◌, take, replicate}
use redis_time_series.Generic.{
  Sample, ChunkResult, cr_ok, cr_err, cr_end, DuplicatePolicy, Doubles, handle_duplicate_sample,
}
use redis_time_series.Ranges.{in_range}
use redis_time_series.Gorilla.{CompressedChunk, CompressedIterator}
use redis_time_series.Gorilla.Append.{append}
use redis_time_series.Gorilla.Read.{get_next, new_iterator}

abbrev pub chunk_resize_step : ℕ
chunk_resize_step = 32

-- `Compressed_NewChunk`: `size` bytes of zeros, in bins of 8.
unfoldable pub new_chunk : ℕ → CompressedChunk
new_chunk size = record {
  size = size;
  count = 0;
  idx = 0;
  base_value = 0;
  base_timestamp = 0;
  bins = replicate (size / 8) 0;
  prev_timestamp = 0;
  prev_timestamp_delta = 0;
  prev_value = 0;
  prev_leading = 32;
  prev_trailing = 32;
}

unfoldable pub add_sample : CompressedChunk → Sample → ChunkResult × CompressedChunk
add_sample c sample = append c sample.timestamp sample.value

-- The `realloc` and `memset` of `ensureAddSample`.
unfoldable pub grow : CompressedChunk → CompressedChunk
grow c = record c {
  size = c.size + chunk_resize_step;
  bins = c.bins ++ replicate (chunk_resize_step / 8) 0;
}

-- `assert(res == CR_OK)`
unfoldable pub asserted : ChunkResult × CompressedChunk → Option CompressedChunk
asserted (cr_ok, c) = some c
asserted (cr_err, c) = none
asserted (cr_end, c) = none

-- The second attempt, in a longer chunk.
unfoldable pub retry : Sample → ChunkResult × CompressedChunk → Option CompressedChunk
retry sample (cr_ok, c) = some c
retry sample (cr_err, c) = asserted (add_sample (grow c) sample)
retry sample (cr_end, c) = asserted (add_sample (grow c) sample)

unfoldable pub ensure_add_sample : CompressedChunk → Sample → Option CompressedChunk
ensure_add_sample c sample = retry sample (add_sample c sample)

-- The bytes that `trimChunk` leaves, rounded up to whole bins.
unfoldable pub trimmed_size : ℕ → ℕ → ℕ
trimmed_size size excess = let new_size = size - excess + 1 in new_size + (8 - new_size % 8)

-- `excess` is an `int`: the quotient loses its high bits, and is negative from 2 ^ 31 on. It is not
-- looked at where the subtraction would wrap around.
unfoldable pub trim_chunk : CompressedChunk → CompressedChunk
trim_chunk c =
    let excess = (c.size * 8 - c.idx) / 8 % 2 ^ 32 in
    let new_size = trimmed_size c.size excess in
    if ltb (c.size * 8) c.idx
    then c
    else if ltb 1 excess && ltb excess (2 ^ 31)
    then record c { size = new_size; bins = take (new_size / 8) c.bins }
    else c

-- A chunk that is being read: the iterator and the variable that it writes.
abbrev pub Cursor : Type 0
Cursor = CompressedIterator × Sample

-- `n` rounds of `GetNext(iter, &sample); ensureAddSample(dst, &sample);`
unfoldable pub copy_samples :
    ℕ → CompressedChunk → Cursor → CompressedChunk → Option (Cursor × CompressedChunk)
copy_samples zero src cur dst = some (cur, dst)
copy_samples (suc n) src (it, old) dst =
    let (res, it', sample) = get_next src it old in
    ensure_add_sample dst sample >>= λ dst'. copy_samples n src (it', sample) dst'

-- `Compressed_SplitChunk`: what `chunk` becomes, and the new chunk. `junk` is the uninitialised
-- `sample`.
unfoldable pub split_chunk : CompressedChunk → Sample → Option (CompressedChunk × CompressedChunk)
split_chunk c junk =
    let split = c.count / 2 in
    let cur_num_samples = c.count - split in
    copy_samples cur_num_samples c (new_iterator c, junk) (new_chunk c.size) >>= λ (cur, chunk1).
    copy_samples (c.count - cur_num_samples) c cur (new_chunk c.size) >>= λ (cur', chunk2).
    some (trim_chunk chunk1, trim_chunk chunk2)

-- `n` rounds of the loop of `Compressed_DelRange`, with the count of deleted samples.
unfoldable pub del_samples :
    ℕ → ℕ → ℕ → CompressedChunk → Cursor → ℕ → CompressedChunk → Option (ℕ × CompressedChunk)
del_samples zero start_ts end_ts src cur deleted dst = some (deleted, dst)
del_samples (suc n) start_ts end_ts src (it, old) deleted dst =
    let (res, it', sample) = get_next src it old in
    let skipped = del_samples n start_ts end_ts src (it', sample) (deleted + 1) dst in
    let kept =
      ensure_add_sample dst sample >>= del_samples n start_ts end_ts src (it', sample) deleted in
    if in_range start_ts end_ts sample then skipped else kept

-- `Compressed_DelRange`: the deleted count and what `chunk` becomes.
unfoldable pub del_range : CompressedChunk → ℕ → ℕ → Sample → Option (ℕ × CompressedChunk)
del_range c start_ts end_ts junk =
    del_samples c.count start_ts end_ts c (new_iterator c, junk) 0 (new_chunk c.size)
