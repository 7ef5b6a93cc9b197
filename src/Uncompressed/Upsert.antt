-- ===== src/Uncompressed/Upsert.antt =====
-- `Uncompressed_UpsertSample` and `upsertChunk` (src/chunk.c).
use mathlib.Core.Option
use redis_time_series.Common.{
  ℕ, zero, suc, ◌+◌, ◌-◌, ◌%◌, ◌^◌, Option, none, some, List, [], ◌∷◌, ◌++◌, leb, ltb, ◌==◌,
  if◌then◌else◌, set, take, drop, u32,
}
use redis_time_series.Generic.{
  Sample, ChunkResult, cr_ok, cr_err, cr_end, DuplicatePolicy, Doubles, handle_duplicate_sample,
}
use redis_time_series.Uncompressed.{Memory, Chunk, sample_size, chunk_get_sample, is_chunk_full}

-- `memmove(&samples[idx + 1], &samples[idx], (num_samples - idx) * sizeof(Sample))`
unfoldable pub move_up : List Sample → ℕ → ℕ → List Sample
move_up slots idx num_samples =
    take (idx + 1) slots
    ++ take (num_samples - idx) (drop idx slots)
    ++ drop (num_samples + 1) slots

-- `numSamples` is a `short`; in `i < numSamples` it becomes a `size_t`.
unfoldable pub short_bound : ℕ → ℕ
short_bound n = let s = n % 2 ^ 16 in if ltb s (2 ^ 15) then s else 2 ^ 64 - 2 ^ 16 + s

-- The search, over the slots from `i` on: `i` and `sample`, which is NULL if there was no round.
-- `none` is a read outside the allocated block: beyond it, or before it where `i` is negative as the
-- int that `ChunkGetSample` takes.
unfoldable pub find_place : ℕ → ℕ → ℕ → List Sample → Option Sample → Option (ℕ × Option Sample)
find_place zero ts i slots sample = some (i, sample)
find_place (suc left) ts i [] sample = none
find_place (suc left) ts i (x ∷ slots) sample =
    let rest = find_place left ts (i + 1) slots (some x) in
    if ltb (u32 i) (2 ^ 31) then if leb ts x.timestamp then some (i, some x) else rest else none

-- The return value, the chunk, `*size` and `uCtx->sample`.
pub record Upserted : Type 0 where
  pub result : ChunkResult
  pub chunk : Chunk
  pub size : ℕ
  pub sample : Sample

-- The branch of an equal timestamp.
unfoldable pub update_value : Chunk → ℕ → ChunkResult × Sample → Upserted
update_value c i (cr_ok, new) = record {
  result = cr_ok;
  chunk = record c {
    samples = set c.samples i (record (chunk_get_sample c i) { value = new.value });
  };
  size = 0;
  sample = new;
}
update_value c i (cr_err, new) = record { result = cr_err; chunk = c; size = 0; sample = new }
update_value c i (cr_end, new) = record { result = cr_err; chunk = c; size = 0; sample = new }

module _ (m : Memory) where
  unfoldable pub upsert_chunk : Chunk → ℕ → Sample → Chunk
  upsert_chunk c idx sample =
      let grown =
        if is_chunk_full c
        then record c { size = c.size + sample_size; samples = c.samples ++ m.malloc sample_size }
        else c in
      let moved =
        if ltb idx c.num_samples then move_up grown.samples idx c.num_samples else grown.samples in
      record grown { samples = set moved idx sample; num_samples = u32 (c.num_samples + 1) }

  -- What follows where no sample has the timestamp.
  unfoldable pub insert_at : Chunk → ℕ → Sample → Upserted
  insert_at c i s = record {
    result = cr_ok;
    chunk =
        upsert_chunk
          (record c { base_timestamp = if i == 0 then s.timestamp else c.base_timestamp }) i s;
    size = 1;
    sample = s;
  }

  -- `sample != NULL && ts == sample->timestamp`, and both branches.
  unfoldable pub after_search :
      Doubles → DuplicatePolicy → Chunk → Sample → ℕ × Option Sample → Upserted
  after_search d policy c s (i, none) = insert_at c i s
  after_search d policy c s (i, some x) =
      if s.timestamp == x.timestamp
      then update_value c i (handle_duplicate_sample d policy x s)
      else insert_at c i s

  unfoldable pub upsert_sample : Doubles → DuplicatePolicy → Chunk → Sample → Option Upserted
  upsert_sample d policy c s =
      Option.map (after_search d policy c s)
        (find_place (short_bound c.num_samples) s.timestamp 0 c.samples none)
