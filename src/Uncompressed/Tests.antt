-- ===== src/Uncompressed/Tests.antt =====
-- Runs of the uncompressed chunk on small inputs, and its theorems at such inputs.
use mathlib.Core.List.{append-nil}
use redis_time_series.Common.{
  ℕ, zero, suc, ◌+◌, ◌*◌, ◌/◌, ◌%◌, ◌<◌, ◌≡◌, refl, sym, ltb, u64, some, none, true, List, [], ◌∷◌,
  length, take, replicate, length-replicate, arith,
}
use redis_time_series.Generic.{Sample, Doubles, dp_last, cr_ok}
use redis_time_series.Ranges.{AtMost}
use redis_time_series.Enriched.{columns}
use redis_time_series.Uncompressed.{Memory, Chunk, no_sample, add_sample, split_chunk, del_range}
use redis_time_series.Uncompressed.Stores.{Stores, FirstIs, AddOutcome, add_sample-Stores}
use redis_time_series.Uncompressed.Split.{split_chunk-Stores, del_range-Stores}
use redis_time_series.Uncompressed.Upsert.{Upserted, upsert_sample}
use redis_time_series.Uncompressed.Upserting.{Outcome, upsert_sample-Outcome}
use redis_time_series.Uncompressed.Overflow.{upsert_sample-first, upsert_sample-beyond}
use redis_time_series.Common.{◌++◌}
use redis_time_series.Uncompressed.Serial.{serialize, deserialize, deserialize_whole_or_none}
use redis_time_series.Uncompressed.Process.{process_chunk}
use redis_time_series.Uncompressed.Querying.{process_chunk-inside}

zeros_length : (n : ℕ) → length (replicate (n / 16) no_sample) ≡ n / 16
zeros_length n = length-replicate (n / 16) no_sample

abbrev memory : Memory
memory = record { malloc = λ n. replicate (n / 16) no_sample; malloc_length = zeros_length }

abbrev doubles : Doubles
doubles = record {
  isnan = λ a. ltb 0x7ff0_0000_0000_0000 (a % 0x8000_0000_0000_0000);
  less = λ a b. ltb a b;
  plus = λ a b. u64 (a + b);
  plus_word = λ a b. omega arith;
}

abbrev sample : ℕ → ℕ → Sample
sample t v = record { timestamp = t; value = v }

abbrev three_samples : List Sample
three_samples = sample 10 1 ∷ sample 20 2 ∷ sample 30 3 ∷ []

-- Three samples in a block of four.
abbrev chunk : Chunk
chunk = record {
  base_timestamp = 10;
  samples = sample 10 1 ∷ sample 20 2 ∷ sample 30 3 ∷ sample 99 99 ∷ [];
  num_samples = 3;
  size = 64;
}

abbrev chunk-Stores : Stores chunk three_samples
chunk-Stores = record {
  free = sample 99 99 ∷ [];
  slots = refl;
  count = refl;
  room = omega arith;
  first = refl;
  small = omega arith;
}

add_sample-Stores_example :
    AddOutcome chunk three_samples (sample 40 4) (add_sample chunk (sample 40 4))
add_sample-Stores_example = add_sample-Stores chunk three_samples (sample 40 4) chunk-Stores

split_chunk-Stores_example :
    Stores (split_chunk memory chunk).0 (sample 10 1 ∷ sample 20 2 ∷ [])
    × Stores (split_chunk memory chunk).1 (sample 30 3 ∷ [])
    × ((split_chunk memory chunk).0.size ≡ 32)
split_chunk-Stores_example = split_chunk-Stores memory chunk three_samples chunk-Stores

del_range-Stores_example :
    ((del_range memory chunk 15 25).0 + 2 ≡ 3)
    × Stores (del_range memory chunk 15 25).1 (sample 10 1 ∷ sample 30 3 ∷ [])
del_range-Stores_example = del_range-Stores memory chunk three_samples 15 25 chunk-Stores

upsert_sample-Outcome_example :
    (r : Upserted) × (upsert_sample memory doubles dp_last chunk (sample 15 7) ≡ some r)
    × Outcome r chunk [] (some (1, sample 10 1 ∷ sample 15 7 ∷ sample 20 2 ∷ sample 30 3 ∷ []))
upsert_sample-Outcome_example =
    upsert_sample-Outcome memory doubles dp_last chunk (sample 15 7) (omega arith) three_samples
      chunk-Stores (omega arith)

process_chunk-inside_example :
    process_chunk (some chunk) 15 35 true ≡ columns true (sample 30 3 ∷ sample 20 2 ∷ [])
process_chunk-inside_example =
    process_chunk-inside chunk three_samples 15 35 true chunk-Stores (omega arith)

-- The same sample many times, kept shut.
equal_samples : ℕ → List Sample
equal_samples n = replicate n (sample 5 1)

length-equal_samples : (n : ℕ) → length (equal_samples n) ≡ n
unfolding equal_samples
length-equal_samples n = length-replicate n (sample 5 1)

AtMost-equal_samples : (n : ℕ) → AtMost 8 (equal_samples n)
unfolding equal_samples
AtMost-equal_samples zero = tt
AtMost-equal_samples (suc n) = (omega arith, AtMost-equal_samples n)

FirstIs-equal_samples : (n : ℕ) → FirstIs 5 (equal_samples n)
unfolding equal_samples
FirstIs-equal_samples zero = tt
FirstIs-equal_samples (suc n) = refl

abbrev full_chunk : ℕ → Chunk
full_chunk n = record {
  base_timestamp = 5;
  samples = equal_samples n;
  num_samples = n;
  size = 16 * n;
}

abbrev full_chunk-Stores : (n : ℕ) → n < 100_000 → Stores (full_chunk n) (equal_samples n)
full_chunk-Stores n h = record {
  free = [];
  slots = sym (append-nil (equal_samples n));
  count = sym (length-equal_samples n);
  room = omega (arith, length-equal_samples n);
  first = FirstIs-equal_samples n;
  small = omega arith;
}

-- The sample at 9 goes before those at 5.
upsert_sample-first_example :
    (r : Upserted) × (upsert_sample memory doubles dp_last (full_chunk 65536) (sample 9 1) ≡ some r)
    × (r.result ≡ cr_ok)
    × Stores r.chunk (sample 9 1 ∷ equal_samples 65536)
upsert_sample-first_example =
    upsert_sample-first memory doubles dp_last (full_chunk 65536) (equal_samples 65536)
      (full_chunk-Stores 65536 (omega arith)) (sample 9 1)
      (omega (arith, length-equal_samples 65536)) (omega arith)

upsert_sample-beyond_example :
    upsert_sample memory doubles dp_last (full_chunk 32768) (sample 9 1) ≡ none
upsert_sample-beyond_example =
    upsert_sample-beyond memory doubles dp_last (full_chunk 32768) (equal_samples 32768)
      (full_chunk-Stores 32768 (omega arith)) (sample 9 1)
      (omega (arith, length-equal_samples 32768)) (omega (arith, length-equal_samples 32768))
      (omega (arith, length-equal_samples 32768)) (AtMost-equal_samples 32768) (omega arith)

deserialize_whole_or_none_example :
    (deserialize (serialize chunk ++ serialize chunk) ≡ some (chunk, serialize chunk))
    × (deserialize (take 3 (serialize chunk)) ≡ none)
deserialize_whole_or_none_example =
    deserialize_whole_or_none chunk three_samples (serialize chunk) 3 chunk-Stores (omega arith)
