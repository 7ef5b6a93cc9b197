-- ===== src/Chunks.antt =====
-- The interface that a series uses its chunks by (`ChunkFuncs`, src/generic_chunk.h), and what it
-- relies on.
pub mod Regular
pub mod Compressed
use redis_time_series.Common.{ℕ, ◌+◌, ◌≡◌, Option, some, List, [], ◌∷◌, ◌++◌, length}
use redis_time_series.Generic.{Sample, ChunkResult, cr_ok, cr_err, cr_end, DuplicatePolicy}
use redis_time_series.Ranges.{outside, last_sample}

-- `none` is a failed assertion. Loading, saving and the memory calls are not here.
pub record ChunkFuncs : Type 1 where
  pub Chunk : Type 0
  pub new_chunk : ℕ → Chunk
  pub add_sample : Chunk → Sample → ChunkResult × Chunk
  pub split_chunk : Chunk → Option (Chunk × Chunk)
  -- The result, the chunk, `*size` and the sample of the context, which may be merged.
  pub upsert_sample : DuplicatePolicy → Chunk → Sample → Option (ChunkResult × Chunk × ℕ × Sample)
  pub del_range : Chunk → ℕ → ℕ → Option (ℕ × Chunk)
  -- `GetChunkSize(chunk, false)`
  pub get_chunk_size : Chunk → ℕ
  pub get_num_of_sample : Chunk → ℕ
  pub get_first_timestamp : Chunk → ℕ
  pub get_last_timestamp : Chunk → ℕ
  pub get_last_value : Chunk → ℕ

-- The sample is the last one now; or the chunk is as it was, and CR_END is returned.
abbrev pub Added :
    {C : Type 0} → (C → List Sample → Type 0) → C → List Sample → Sample → ChunkResult × C → Type 0
Added Holds c xs s (cr_ok, c') = Holds c' (xs ++ s ∷ [])
Added Holds c xs s (cr_end, c') = c' ≡ c
Added Holds c xs s (cr_err, c') = ⊥

-- The samples outside the range are left, and the others are counted.
pub record Deleted {C : Type 0} (Holds : C → List Sample → Type 0) (xs : List Sample) (a b : ℕ)
    (result : Option (ℕ × C)) : Type 0 where
  pub count : ℕ
  pub chunk : C
  pub returned : result ≡ some (count, chunk)
  pub all : count + length (outside a b xs) ≡ length xs
  pub left : Holds chunk (outside a b xs)

-- What a chunk type promises, for chunks that are made with `size` bytes: `Holds` says which samples
-- a chunk has, `Spare` that it has the memory that a deletion may need.
pub record ChunkLaws (f : ChunkFuncs) (size : ℕ) : Type 1 where
  pub Holds : f.Chunk → List Sample → Type 0
  pub Spare : f.Chunk → Type 0
  pub IsFit : Sample → Type 0
  pub new_chunk-Holds : Holds (f.new_chunk size) []
  pub add_sample-Added :
      (c : f.Chunk) (xs : List Sample) (s : Sample)
      → Holds c xs
      → IsFit s
      → Added Holds c xs s (f.add_sample c s)
  pub add_sample-first :
      (c : f.Chunk) (s : Sample) → Holds c [] → IsFit s → (f.add_sample c s).0 ≡ cr_ok
  pub del_range-Deleted :
      (c : f.Chunk) (xs : List Sample) (a b : ℕ)
      → Holds c xs
      → Spare c
      → Deleted Holds xs a b (f.del_range c a b)
  pub num_of_sample :
      (c : f.Chunk) (xs : List Sample) → Holds c xs → f.get_num_of_sample c ≡ length xs
  pub first_timestamp_empty : (c : f.Chunk) → Holds c [] → f.get_first_timestamp c ≡ 0
  pub first_timestamp :
      (c : f.Chunk) (x : Sample) (xs : List Sample)
      → Holds c (x ∷ xs)
      → f.get_first_timestamp c ≡ x.timestamp
  pub last_timestamp :
      (c : f.Chunk) (x : Sample) (xs : List Sample)
      → Holds c (x ∷ xs)
      → f.get_last_timestamp c ≡ (last_sample x xs).timestamp
  pub last_value :
      (c : f.Chunk) (x : Sample) (xs : List Sample)
      → Holds c (x ∷ xs)
      → f.get_last_value c ≡ (last_sample x xs).value
