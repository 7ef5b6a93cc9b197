-- ===== src/Compressed/Tests.antt =====
-- Runs of the chunk on small inputs, and the theorems of `Compressed` at such inputs.
use redis_time_series.Common.{ℕ, ◌+◌, ◌≡◌, refl, some, List, [], ◌∷◌, take, drop, arith}
use redis_time_series.Generic.{Sample, Doubles, dp_min, handle_duplicate_sample}
use redis_time_series.Common.{◌%◌, ltb, u64}
use redis_time_series.Compressed.Upsert.{upsert_sample}
use redis_time_series.Compressed.Upserting.{Upserted}
use redis_time_series.Compressed.Scanning.{upsert_sample-Upserted}
use redis_time_series.Gorilla.{CompressedChunk}
use redis_time_series.Gorilla.Read.{new_iterator}
use redis_time_series.Gorilla.Samples.{Represents}
use redis_time_series.Gorilla.Iterating.{Reads}
use redis_time_series.Compressed.{new_chunk, ensure_add_sample, trim_chunk, split_chunk, del_range}
use redis_time_series.Compressed.Growth.{new_chunk-Represents, trim_chunk-Represents}
use redis_time_series.Compressed.Ensure.{Succeeds, ensure_add_sample-Succeeds}
use redis_time_series.Compressed.Loops.{AllSamples, Deleted}
use redis_time_series.Ranges.{outside}
use redis_time_series.Compressed.Split.{split_chunk-Represents, del_range-Represents}
use redis_time_series.Compressed.RoundTrip.{store_all, store_all-Succeeds, store_all-Reads}
use redis_time_series.Compressed.Ends.{
  chunk_num_of_sample, get_first_timestamp, get_last_timestamp, get_last_value,
  last_sample-Represents,
}
use redis_time_series.Common.{none, true, ◌++◌}
use redis_time_series.Enriched.{columns}
use redis_time_series.Compressed.Decompress.{process_chunk}
use redis_time_series.Compressed.Querying.{process_chunk-range_query}
use redis_time_series.Compressed.Serial.{
  serialize, deserialize, deserialize-serialize, deserialize_truncated,
}

abbrev sample : ℕ → ℕ → Sample
sample t v = record { timestamp = t; value = v }

-- The values are the bit patterns of 1.0, 1.0, 2.0 and 2.5.
abbrev samples : List Sample
samples =
    sample 1000 0x3ff0_0000_0000_0000
    ∷ sample 1010 0x3ff0_0000_0000_0000
    ∷ sample 1020 0x4000_0000_0000_0000
    ∷ sample 5000 0x4004_0000_0000_0000
    ∷ []

samples-AllSamples : AllSamples samples
samples-AllSamples = omega arith

-- The chunk of 64 bytes that holds them.
abbrev stored : Succeeds (store_all (new_chunk 64) samples) samples 192
unfolding new_chunk
stored =
    store_all-Succeeds (new_chunk 64) [] samples (new_chunk-Represents 64 refl (omega arith))
      samples-AllSamples (omega arith)

store_all-Reads_example :
    (c : CompressedChunk) × (store_all (new_chunk 64) samples ≡ some c)
    × Reads c (new_iterator c) samples
store_all-Reads_example = store_all-Reads 64 samples refl samples-AllSamples (omega arith)

ensure_add_sample-Succeeds_example :
    Succeeds (ensure_add_sample (new_chunk 0) (sample 7 8)) (sample 7 8 ∷ []) 32
unfolding new_chunk
ensure_add_sample-Succeeds_example =
    ensure_add_sample-Succeeds (new_chunk 0) [] (sample 7 8)
      (new_chunk-Represents 0 refl (omega arith)) (omega arith) (omega arith)

trim_chunk-Represents_example : Represents (trim_chunk stored.chunk) samples
trim_chunk-Represents_example = trim_chunk-Represents stored.chunk samples stored.represents

split_chunk-Represents_example :
    (c1 : CompressedChunk) × (c2 : CompressedChunk) × (split_chunk stored.chunk (sample 0 0)
      ≡ some (c1, c2))
    × Represents c1 (take 2 samples)
    × Represents c2 (drop 2 samples)
split_chunk-Represents_example =
    split_chunk-Represents stored.chunk samples stored.represents samples-AllSamples
      (omega (arith, stored.within)) (sample 0 0)

del_range-Represents_example :
    Deleted
      (del_range stored.chunk 1010 1020 (sample 0 0))
      (outside 1010 1020 samples)
      4
      (stored.chunk.size + 128)
del_range-Represents_example =
    del_range-Represents stored.chunk samples stored.represents samples-AllSamples
      (omega (arith, stored.within)) (sample 0 0) 1010 1020

-- The test for NaN, and the order of doubles that are not negative; sums are not used below.
abbrev doubles : Doubles
doubles = record {
  isnan = λ a. ltb 0x7ff0_0000_0000_0000 (a % 0x8000_0000_0000_0000);
  less = λ a b. ltb a b;
  plus = λ a b. u64 (a + b);
  plus_word = λ a b. omega arith;
}

-- The second sample is replaced, as 0.5 is less than 1.0.
upsert_sample-Upserted_example :
    Upserted
      (upsert_sample doubles dp_min stored.chunk (sample 1010 0x3fe0_0000_0000_0000) (sample 0 0))
      stored.chunk
      []
      (some (
        0,
        sample 1000 0x3ff0_0000_0000_0000
            ∷ sample 1010 0x3fe0_0000_0000_0000
            ∷ sample 1020 0x4000_0000_0000_0000
            ∷ sample 5000 0x4004_0000_0000_0000
            ∷ [],
      ))
unfolding handle_duplicate_sample
upsert_sample-Upserted_example =
    upsert_sample-Upserted doubles dp_min stored.chunk samples (sample 1010 0x3fe0_0000_0000_0000)
      (sample 0 0) stored.represents samples-AllSamples (omega arith) (λ e. absurd (omega arith))
      (omega (arith, stored.within))

last_sample-Represents_example :
    (chunk_num_of_sample stored.chunk ≡ 4)
    × (get_first_timestamp stored.chunk ≡ 1000)
    × (get_last_timestamp stored.chunk ≡ 5000)
    × (get_last_value stored.chunk ≡ 0x4004_0000_0000_0000)
last_sample-Represents_example =
    last_sample-Represents stored.chunk (sample 1000 0x3ff0_0000_0000_0000) (drop 1 samples)
      stored.represents

process_chunk-range_query_example :
    process_chunk stored.chunk 1005 4999 true (sample 0 0)
    ≡ some
        (columns true (sample 1020 0x4000_0000_0000_0000 ∷ sample 1010 0x3ff0_0000_0000_0000 ∷ []))
process_chunk-range_query_example =
    process_chunk-range_query stored.chunk samples 1005 4999 true (sample 0 0) stored.represents
      (omega arith) (omega arith)

deserialize-serialize_example :
    deserialize (serialize (new_chunk 64) ++ serialize (new_chunk 64))
    ≡ some (new_chunk 64, serialize (new_chunk 64))
unfolding new_chunk
deserialize-serialize_example =
    deserialize-serialize (new_chunk 64) (serialize (new_chunk 64)) (omega arith) (omega arith)

deserialize_truncated_example : deserialize (take 10 (serialize stored.chunk)) ≡ none
deserialize_truncated_example = deserialize_truncated stored.chunk 10 (omega arith)
