-- ===== src/Series/Upsert.antt =====
-- `SeriesUpsertSample` (src/tsdb.c), for a series that has no compaction rules.
use redis_time_series.Common.{
  ℕ, ◌+◌, Bool, true, false, ◌&&◌, Option, none, some, leb, ltb, ◌==◌, if◌then◌else◌, ◌>>=◌, add64,
}
use redis_time_series.Generic.{Sample, ChunkResult, cr_ok, cr_err, cr_end, DuplicatePolicy, dp_none}
use redis_time_series.Chunks.{ChunkFuncs}
use redis_time_series.Dictionary.{Dictionary}
use redis_time_series.Series.{Series, update, update_chunk_in_dict}

-- What is returned: REDISMODULE_ERR, or the result of the chunk.
pub data UpsertResult : Type 0 where
  redismodule_err : UpsertResult
  chunk_result : ChunkResult → UpsertResult

-- The chunk that the sample goes to: whether it is the latest one, its address and first timestamp.
pub record Target : Type 0 where
  pub latest_chunk : Bool
  pub chunk : ℕ
  pub chunk_first_ts : ℕ

-- The policy, unless it is DP_NONE.
abbrev pub or_policy : DuplicatePolicy → DuplicatePolicy → DuplicatePolicy
or_policy dp_none other = other
or_policy policy other = policy

abbrev pub or_entry : Option (ℕ × ℕ) → Option (ℕ × ℕ) → Option (ℕ × ℕ)
or_entry none other = other
or_entry (some e) other = some e

abbrev pub is_ok : ChunkResult → Bool
is_ok cr_ok = true
is_ok cr_err = false
is_ok cr_end = false

module _ (f : ChunkFuncs) (d : Dictionary) where
  unfoldable pub find_target : Series f.Chunk d.Dict → ℕ → Option Target
  find_target s timestamp =
      let first = f.get_first_timestamp (s.memory s.last_chunk) in
      let found = or_entry (d.at_most s.chunks timestamp) (d.next s.chunks none) in
      if ltb timestamp first && ltb 1 (d.dict_size s.chunks)
      then found >>= (λ (key, p). some (record {
        latest_chunk = false;
        chunk = p;
        chunk_first_ts = f.get_first_timestamp (s.memory p);
      }))
      else some (record { latest_chunk = true; chunk = s.last_chunk; chunk_first_ts = first })

-- `over_split_factor size bytes` is `size > bytes * SPLIT_FACTOR`, which is calculated with doubles.
-- `global_policy` is `TSGlobalConfig.duplicatePolicy`.
module _ (f : ChunkFuncs) (d : Dictionary) (over_split_factor : ℕ → ℕ → Bool)
    (global_policy : DuplicatePolicy) where
  -- `none` is a failed assertion.
  unfoldable pub split_target :
      Series f.Chunk d.Dict → Target → ℕ → Option (Series f.Chunk d.Dict × Target)
  split_target s t timestamp =
      let c = s.memory t.chunk in
      if over_split_factor (f.get_chunk_size c) s.chunk_size_bytes
      then f.split_chunk c >>= (λ (old, new).
        let new_first_ts = f.get_first_timestamp new in
        some (
          record s {
            chunks = d.set s.chunks new_first_ts s.fresh;
            last_chunk = if t.latest_chunk then s.fresh else s.last_chunk;
            memory = update (update s.memory t.chunk old) s.fresh new;
            fresh = s.fresh + 1;
          },
          if leb new_first_ts timestamp
              then record t { chunk = s.fresh; chunk_first_ts = new_first_ts }
              else t,
        ))
      else some (s, t)

  -- What follows an upsert that succeeded; `sample` is that of the context.
  unfoldable pub upserted : Series f.Chunk d.Dict → Target → ℕ → Sample → ℕ → Series f.Chunk d.Dict
  unfolding update_chunk_in_dict
  upserted s t size sample timestamp =
      let first_after = f.get_first_timestamp (s.memory t.chunk) in
      record s {
        total_samples = add64 s.total_samples size;
        last_value = if timestamp == s.last_timestamp then sample.value else s.last_value;
        chunks =
            if first_after == t.chunk_first_ts
            then s.chunks
            else update_chunk_in_dict f d s.chunks t.chunk t.chunk_first_ts first_after;
      }

  unfoldable pub upsert_target :
      Series f.Chunk d.Dict
      → Target
      → Sample
      → DuplicatePolicy
      → Option (UpsertResult × Series f.Chunk d.Dict)
  upsert_target s t sample policy =
      f.upsert_sample policy (s.memory t.chunk) sample >>= λ (rv, chunk, size, merged).
      let s1 = record s { memory = update s.memory t.chunk chunk } in
      some (chunk_result rv, if is_ok rv then upserted s1 t size merged sample.timestamp else s1)

  -- `none` is a failed assertion.
  unfoldable pub series_upsert_sample :
      Series f.Chunk d.Dict
      → ℕ
      → ℕ
      → DuplicatePolicy
      → Option (UpsertResult × Series f.Chunk d.Dict)
  series_upsert_sample s timestamp value dp_override =
      let policy = or_policy dp_override (or_policy s.duplicate_policy global_policy) in
      elim (find_target f d s timestamp) [
        | none ↦ some (redismodule_err, s)
        | some t ↦ split_target s t timestamp >>= λ (s1, t1).
            upsert_target s1 t1 (record { timestamp = timestamp; value = value }) policy
      ]
