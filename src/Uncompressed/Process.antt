-- ===== src/Uncompressed/Process.antt =====
-- `Uncompressed_ProcessChunk` (src/chunk.c): the samples in a range, in two columns.
use redis_time_series.Common.{
  ℕ, zero, suc, ◌+◌, ◌-◌, Bool, ◌||◌, true, false, Option, none, some, List, [], ◌∷◌, leb, ltb,
  ◌==◌, if◌then◌else◌, get_or, drop, sub64, add64, u32,
}
use redis_time_series.Generic.{Sample}
use redis_time_series.Enriched.{EnrichedChunk, reset_enriched_chunk, columns}
use redis_time_series.Uncompressed.{Chunk, no_sample}

-- The first loop: the index of the first sample that is not older than `start`, or `num_samples`.
unfoldable pub search_start : ℕ → ℕ → ℕ → List Sample → ℕ
search_start zero i start slots = i
search_start (suc left) i start [] = i
search_start (suc left) i start (x ∷ slots) =
    if leb start x.timestamp then i else search_start left (i + 1) start slots

-- The second loop, from the slots at `i` on: the index of the first sample that is newer than `end`,
-- or `num_samples`.
unfoldable pub search_end : ℕ → ℕ → ℕ → List Sample → ℕ
search_end zero i end slots = i
search_end (suc left) i end [] = i
search_end (suc left) i end (x ∷ slots) =
    if ltb end x.timestamp then i else search_end left (i + 1) end slots

-- `samples[i + si]` and `samples[ei - i]` for `i < n`.
unfoldable pub read_up : ℕ → ℕ → List Sample → List Sample
read_up zero si slots = []
read_up (suc n) si slots = get_or slots si no_sample ∷ read_up n (si + 1) slots

unfoldable pub read_down : ℕ → ℕ → List Sample → List Sample
read_down zero ei slots = []
read_down (suc n) ei slots = get_or slots ei no_sample ∷ read_down n (ei - 1) slots

-- Nothing of the chunk is in the range, seen from its ends.
abbrev pub is_outside : Chunk → ℕ → ℕ → Bool
is_outside c start end =
    c.num_samples == 0
    || (ltb end start
        || (ltb end c.base_timestamp
            || ltb (get_or c.samples (c.num_samples - 1) no_sample).timestamp start))

-- From the second loop on. `i` is where it ended.
unfoldable pub fill_columns : Chunk → Bool → ℕ → ℕ → EnrichedChunk
fill_columns c reverse si i =
    let ei = sub64 i 1 in
    let n = u32 (add64 (sub64 ei si) 1) in
    if n == 0
    then reset_enriched_chunk
    else if reverse
    then columns true (read_down n ei c.samples)
    else columns false (read_up n si c.samples)

-- `none` is the NULL chunk.
unfoldable pub process_chunk : Option Chunk → ℕ → ℕ → Bool → EnrichedChunk
process_chunk none start end reverse = reset_enriched_chunk
process_chunk (some c) start end reverse =
    let si = search_start c.num_samples 0 start c.samples in
    if is_outside c start end
    then reset_enriched_chunk
    else if si == c.num_samples
    then reset_enriched_chunk
    else fill_columns c reverse si (search_end (c.num_samples - si) si end (drop si c.samples))
