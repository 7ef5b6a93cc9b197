-- ===== src/Series/Tests.antt =====
-- The theorems on series, and on the chunk types that a series has, at concrete inputs.
use redis_time_series.Common.{
  ℕ, ◌+◌, ◌*◌, ◌/◌, ◌%◌, ◌^◌, ◌<◌, ◌≡◌, refl, u64, ltb, inl, inr, List, [], ◌∷◌, length, replicate,
  length-replicate, arith,
}
use redis_time_series.Generic.{Sample, IsSample, Doubles, dp_last}
use redis_time_series.Gorilla.{CompressedChunk}
use redis_time_series.Uncompressed.{Memory, Chunk, no_sample}
use redis_time_series.Chunks.{ChunkFuncs, ChunkLaws}
use redis_time_series.Chunks.Regular.{HasSlots, reg_chunk, reg_chunk_laws, reg_chunk-ChunkLaws}
use redis_time_series.Chunks.Compressed.{Encodes, compr_chunk, compr_chunk-ChunkLaws}
use redis_time_series.Dictionary.{Dictionary, DictionaryLaws}
use redis_time_series.Dictionary.Entries.{at_most_in, next_in, last_in, put, remove, has}
use redis_time_series.Series.{Series, update, new_series, series_add_sample, series_del_range}
use redis_time_series.Series.Stored.{Stored}
use redis_time_series.Series.Purging.{Ready}
use redis_time_series.Series.Deletion.{DeletedRange, series_del_range-DeletedRange}
use redis_time_series.Series.Addition.{AddedSample, series_add_sample-AddedSample}
use redis_time_series.Series.Rows.{Row}
use redis_time_series.Series.Upsert.{find_target}
use redis_time_series.Series.Finding.{FoundTarget, find_target-FoundTarget}
use redis_time_series.Series.Beginning.{add_all, Filled, add_all-Filled}

zeros_length : (n : ℕ) → length (replicate (n / 16) no_sample) ≡ n / 16
zeros_length n = length-replicate (n / 16) no_sample

abbrev memory : Memory
memory = record { malloc = λ n. replicate (n / 16) no_sample; malloc_length = zeros_length }

abbrev doubles : Doubles
doubles = record {
  isnan = λ a. ltb 0x7ff0_0000_0000_0000 (a % 0x8000_0000_0000_0000);
  less = λ a b. ltb a b;
  plus = λ a b. u64 (a + b);
  plus_word = λ a b. omega arith;
}

-- The dictionary as the list of its entries.
abbrev dictionary : Dictionary
dictionary = record {
  Dict = List (ℕ × ℕ);
  next = λ t at. next_in at t;
  last = λ t. last_in t;
  at_most = λ t k. at_most_in k t;
  dict_size = λ t. length t;
  set = λ t k p. put k p t;
  del = λ t k. (has k t, remove k t);
  create = [];
  unwritten = 99;
}

abbrev dictionary-DictionaryLaws : DictionaryLaws dictionary
dictionary-DictionaryLaws = record {
  entries = λ t. t;
  next_lem = λ t at. refl;
  last_lem = λ t. refl;
  at_most_lem = λ t k. refl;
  dict_size_lem = λ t. refl;
  set_lem = λ t k p. refl;
  del_lem = λ t k. refl;
  del_found = λ t k. refl;
  create_lem = refl;
}

abbrev chunk_funcs : ChunkFuncs
chunk_funcs = reg_chunk memory doubles

-- Chunks of two samples.
abbrev chunk_laws : ChunkLaws chunk_funcs 32
chunk_laws = reg_chunk_laws memory doubles 32 (omega arith) (omega arith)

abbrev sample : ℕ → ℕ → Sample
sample t v = record { timestamp = t; value = v }

abbrev samples : List Sample
samples = sample 10 1 ∷ sample 20 2 ∷ sample 30 3 ∷ sample 40 4 ∷ sample 50 5 ∷ []

abbrev empty_memory : ℕ → chunk_funcs.Chunk
empty_memory q = chunk_funcs.new_chunk 0

add_all-Filled_example :
    Filled chunk_funcs dictionary 32 chunk_laws dictionary-DictionaryLaws 0 samples (
      add_all chunk_funcs dictionary 10
        (new_series chunk_funcs dictionary empty_memory 0 32 dp_last)
        samples)
unfolding reg_chunk_laws
add_all-Filled_example =
    add_all-Filled chunk_funcs dictionary 32 chunk_laws dictionary-DictionaryLaws 10 empty_memory 0
      dp_last samples (omega arith) (tt, (tt, (tt, (tt, (tt, tt))))) (omega arith) (omega arith)

-- Two chunks, both of them full, and a retention time that is less than what they span.
abbrev old_chunk : Chunk
old_chunk = record {
  base_timestamp = 10;
  samples = sample 10 1 ∷ sample 20 2 ∷ [];
  num_samples = 2;
  size = 32;
}

abbrev new_chunk : Chunk
new_chunk = record {
  base_timestamp = 30;
  samples = sample 30 3 ∷ sample 40 4 ∷ [];
  num_samples = 2;
  size = 32;
}

abbrev old_chunk-HasSlots : HasSlots old_chunk (sample 10 1 ∷ sample 20 2 ∷ [])
old_chunk-HasSlots = (
  record {
    free = [];
    slots = refl;
    count = refl;
    room = omega arith;
    first = refl;
    small = omega arith;
  },
  omega arith,
  omega arith,
)

abbrev new_chunk-HasSlots : HasSlots new_chunk (sample 30 3 ∷ sample 40 4 ∷ [])
new_chunk-HasSlots = (
  record {
    free = [];
    slots = refl;
    count = refl;
    room = omega arith;
    first = refl;
    small = omega arith;
  },
  omega arith,
  omega arith,
)

abbrev series : Series Chunk (List (ℕ × ℕ))
series = record {
  chunks = (0, 0) ∷ (30, 1) ∷ [];
  last_chunk = 1;
  memory = update (update empty_memory 0 old_chunk) 1 new_chunk;
  fresh = 2;
  retention_time = 15;
  chunk_size_bytes = 32;
  last_timestamp = 40;
  last_value = 4;
  total_samples = 4;
  duplicate_policy = dp_last;
}

abbrev four_samples : List Sample
four_samples = sample 10 1 ∷ sample 20 2 ∷ sample 30 3 ∷ sample 40 4 ∷ []

abbrev entries : List (ℕ × ℕ)
entries = (0, 0) ∷ (30, 1) ∷ []

abbrev segments : List (List Sample)
segments = (sample 10 1 ∷ sample 20 2 ∷ []) ∷ (sample 30 3 ∷ sample 40 4 ∷ []) ∷ []

abbrev series-Row :
    (P : Chunk → List Sample → Type 0)
    → P old_chunk (sample 10 1 ∷ sample 20 2 ∷ [])
    → P new_chunk (sample 30 3 ∷ sample 40 4 ∷ [])
    → Row P series.memory 0 entries segments
series-Row P h g = (
  omega arith,
  inr refl,
  ((omega arith, tt), (tt, tt)),
  h,
  (λ e. absurd (omega (arith, e)), tt),
  (omega arith, inl refl, ((omega arith, tt), (tt, tt)), g, tt, tt),
)

abbrev series-Stored :
    (P : Chunk → List Sample → Type 0)
    → P old_chunk (sample 10 1 ∷ sample 20 2 ∷ [])
    → P new_chunk (sample 30 3 ∷ sample 40 4 ∷ [])
    → Stored chunk_funcs dictionary 32 dictionary-DictionaryLaws P series four_samples
series-Stored P h g = record {
  es = entries;
  segs = segments;
  entries_are = refl;
  rowed = inr (series-Row P h g, omega arith);
  samples = refl;
  last_is = (30, refl);
  unused = λ q le. (λ e. absurd (omega (arith, le, e)), (λ e. absurd (omega (arith, le, e)), tt));
  sized = refl;
  total = refl;
  newest = (refl, refl);
}

series_add_sample-AddedSample_example :
    AddedSample chunk_funcs dictionary 32 chunk_laws dictionary-DictionaryLaws series four_samples
      (sample 50 5)
      (series_add_sample chunk_funcs dictionary 3 series 50 5)
unfolding reg_chunk_laws
series_add_sample-AddedSample_example =
    series_add_sample-AddedSample chunk_funcs dictionary 32 chunk_laws dictionary-DictionaryLaws
      series four_samples (sample 50 5) 3
      (series-Stored chunk_laws.Holds old_chunk-HasSlots new_chunk-HasSlots) (omega arith) tt
      (omega arith) (omega arith)

series_del_range-DeletedRange_example :
    DeletedRange chunk_funcs dictionary 32 chunk_laws dictionary-DictionaryLaws four_samples 15 35
      (series_del_range chunk_funcs dictionary 3 series 15 35)
unfolding reg_chunk_laws
series_del_range-DeletedRange_example =
    series_del_range-DeletedRange chunk_funcs dictionary 32 chunk_laws dictionary-DictionaryLaws
      series four_samples 15 35 3
      (series-Stored (Ready chunk_funcs dictionary 32 chunk_laws dictionary-DictionaryLaws 15 35)
        (old_chunk-HasSlots, tt) (new_chunk-HasSlots, tt))
      (omega arith) (omega arith)

reg_chunk-ChunkLaws_example :
    (L : ChunkLaws chunk_funcs 32) × (L.Holds ≡ HasSlots)
    × ((c : Chunk) → L.Spare c)
    × ((s : Sample) → L.IsFit s)
reg_chunk-ChunkLaws_example = reg_chunk-ChunkLaws memory doubles 32 (omega arith) (omega arith)

compr_chunk-ChunkLaws_example :
    (L : ChunkLaws (compr_chunk doubles (sample 7 8)) 4096) × (L.Holds ≡ Encodes)
    × ((c : CompressedChunk) → c.size + 32 * c.count < 2 ^ 31 → L.Spare c)
    × ((s : Sample) → IsSample s → L.IsFit s)
compr_chunk-ChunkLaws_example = compr_chunk-ChunkLaws doubles (sample 7 8) 4096 refl (omega arith)

-- The timestamp is that of a sample of the older chunk.
find_target-FoundTarget_example :
    FoundTarget chunk_funcs dictionary 32 chunk_laws dictionary-DictionaryLaws series entries 20
      (find_target chunk_funcs dictionary series 20)
unfolding reg_chunk_laws
find_target-FoundTarget_example =
    find_target-FoundTarget chunk_funcs dictionary 32 chunk_laws dictionary-DictionaryLaws series
      entries segments 20 refl (series-Row chunk_laws.Holds old_chunk-HasSlots new_chunk-HasSlots)
      (30, refl)
