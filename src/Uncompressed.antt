-- ===== src/Uncompressed.antt =====
-- The uncompressed chunk (src/chunk.c): an array of samples, the first `num_samples` of its slots in
-- use. Memory is taken to be there when it is asked for.
pub mod Upsert
pub mod Stores
pub mod Split
pub mod Insert
pub mod Upserting
pub mod Overflow
pub mod Process
pub mod Columns
pub mod Querying
pub mod Serial
mod Tests
use redis_time_series.Common.{
  ℕ, zero, suc, ◌+◌, ◌-◌, ◌*◌, ◌/◌, ◌%◌, ◌^◌, ◌≡◌, Bool, List, [], ◌∷◌, ◌++◌, length, leb, ltb,
  ◌==◌, if◌then◌else◌, get_or, set, take, drop, u32,
}
use redis_time_series.Generic.{Sample, ChunkResult, cr_ok, cr_end}
use redis_time_series.Ranges.{in_range}

-- The allocator: what a new block of `n` bytes holds, before anything is written to it.
pub record Memory : Type 0 where
  pub malloc : ℕ → List Sample
  pub malloc_length : (n : ℕ) → length (malloc n) ≡ n / 16

abbrev pub sample_size : ℕ
sample_size = 16

-- `samples` has the slots of the allocated block, whatever they hold.
pub record Chunk : Type 0 where
  pub base_timestamp : ℕ
  pub samples : List Sample
  pub num_samples : ℕ
  pub size : ℕ

-- What stands for a slot that is not there.
abbrev pub no_sample : Sample
no_sample = record { timestamp = 0; value = 0 }

-- The index is an int: where it is negative, the slot is outside the block.
unfoldable pub chunk_get_sample : Chunk → ℕ → Sample
chunk_get_sample c index =
    let i = u32 index in if ltb i (2 ^ 31) then get_or c.samples i no_sample else no_sample

-- The index of the last sample. It is an unsigned int, which wraps around in an empty chunk.
abbrev pub last_index : Chunk → ℕ
last_index c = u32 (c.num_samples + 2 ^ 32 - 1)

unfoldable pub is_chunk_full : Chunk → Bool
is_chunk_full c = c.num_samples == c.size / sample_size

-- Without the struct itself.
unfoldable pub get_chunk_size : Chunk → ℕ
get_chunk_size c = c.size

unfoldable pub num_of_sample : Chunk → ℕ
num_of_sample c = c.num_samples

unfoldable pub get_first_timestamp : Chunk → ℕ
get_first_timestamp c = if c.num_samples == 0 then 0 else (chunk_get_sample c 0).timestamp

unfoldable pub get_last_timestamp : Chunk → ℕ
get_last_timestamp c = (chunk_get_sample c (last_index c)).timestamp

unfoldable pub get_last_value : Chunk → ℕ
get_last_value c = (chunk_get_sample c (last_index c)).value

unfoldable pub add_sample : Chunk → Sample → ChunkResult × Chunk
unfolding is_chunk_full
add_sample c sample = if is_chunk_full c then (cr_end, c) else (
  cr_ok,
  record c {
    base_timestamp = if c.num_samples == 0 then sample.timestamp else c.base_timestamp;
    samples = set c.samples c.num_samples sample;
    num_samples = u32 (c.num_samples + 1);
  },
)

-- `left` rounds of the copy of `Uncompressed_SplitChunk`, which ignores what the call returns.
unfoldable pub copy_samples : ℕ → ℕ → List Sample → Chunk → Chunk
copy_samples zero i src dst = dst
copy_samples (suc left) i src dst =
    copy_samples left (i + 1) src (add_sample dst (get_or src i no_sample)).1

-- The slots that stay in use, and those of the new block, in the loop of `Uncompressed_DelRange`.
unfoldable pub keep_samples : ℕ → ℕ → ℕ → List Sample → List Sample → ℕ → List Sample × ℕ
keep_samples zero start_ts end_ts src new new_count = (new, new_count)
keep_samples (suc left) start_ts end_ts [] new new_count = (new, new_count)
keep_samples (suc left) start_ts end_ts (x ∷ src) new new_count =
    let kept = in_range start_ts end_ts x in
    keep_samples left start_ts end_ts src (if kept then new else set new new_count x)
      (if kept then new_count else new_count + 1)

module _ (m : Memory) where
  unfoldable pub new_chunk : ℕ → Chunk
  new_chunk size = record {
    base_timestamp = 0;
    samples = m.malloc size;
    num_samples = 0;
    size = size;
  }

  -- What the chunk becomes, and the new chunk.
  unfoldable pub split_chunk : Chunk → Chunk × Chunk
  split_chunk c =
      let split = c.num_samples / 2 in
      let cur_num_samples = c.num_samples - split in
      (
        record c {
          num_samples = cur_num_samples;
          size = cur_num_samples * sample_size;
          samples = take cur_num_samples c.samples;
        },
        copy_samples split cur_num_samples c.samples (new_chunk (split * sample_size)),
      )

  -- The deleted count, and what the chunk becomes. If nothing is left, the base timestamp is what the
  -- new block happens to hold.
  unfoldable pub del_range : Chunk → ℕ → ℕ → ℕ × Chunk
  del_range c start_ts end_ts =
      let (new, new_count) =
        keep_samples c.num_samples start_ts end_ts c.samples (m.malloc c.size) 0 in
      (
        c.num_samples - new_count,
        record c {
          samples = new;
          num_samples = new_count;
          base_timestamp = (get_or new 0 no_sample).timestamp;
        },
      )
