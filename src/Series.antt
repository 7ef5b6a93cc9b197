-- ===== src/Series.antt =====
-- A series (src/tsdb.c, src/tsdb.h): its chunks by address, an ordered dictionary from timestamps to
-- addresses, and the address of the last chunk. The series is one that has no compaction rules: the
-- calls that keep the rules up to date (`upsertCompaction`, `CompactionDelRange`) return at once.
pub mod Rows
pub mod Outside
pub mod Rounds
pub mod Purging
pub mod Passing
pub mod Loop
pub mod Partly
pub mod Deleting
pub mod Stored
pub mod Rereading
pub mod Deletion
pub mod Trimming
pub mod Extending
pub mod Adding
pub mod Addition
pub mod Beginning
pub mod Upsert
pub mod Finding
mod Tests
use redis_time_series.Common.{
  ℕ, zero, suc, ◌+◌, ◌-◌, ◌*◌, Bool, true, false, not, ◌&&◌, ◌||◌, Option, none, some, leb, ltb,
  ◌==◌, if◌then◌else◌, ◌>>=◌, add64, sub64,
}
use redis_time_series.Generic.{Sample, ChunkResult, cr_ok, cr_err, cr_end, DuplicatePolicy, dp_none}
use redis_time_series.Chunks.{ChunkFuncs}
use redis_time_series.Dictionary.{Dictionary}

-- `memory` has the chunk at each address, `fresh` is the next address that is handed out.
pub record Series (C D : Type 0) : Type 0 where
  pub chunks : D
  pub last_chunk : ℕ
  pub memory : ℕ → C
  pub fresh : ℕ
  pub retention_time : ℕ
  pub chunk_size_bytes : ℕ
  pub last_timestamp : ℕ
  pub last_value : ℕ
  pub total_samples : ℕ
  pub duplicate_policy : DuplicatePolicy

-- A write to memory.
abbrev pub update : {C : Type 0} → (ℕ → C) → ℕ → C → ℕ → C
update memory p c q = if q == p then c else memory q

-- The address of the entry; if there is none, the variable that it is written to keeps what it has.
abbrev pub last_or : ℕ → Option (ℕ × ℕ) → ℕ
last_or p none = p
last_or p (some (key, q)) = q

-- What one round of a loop over the dictionary leaves: the loop stops, or goes on with the entries
-- above a key, and with the count of deleted samples.
pub data Step (S : Type 0) : Type 0 where
  halted : S → ℕ → Step S
  going : S → ℕ → ℕ → Step S

module _ (f : ChunkFuncs) (d : Dictionary) where
  -- `NewSeries` for a series that gets its first chunk (`skipChunkCreation` is not set).
  unfoldable pub new_series : (ℕ → f.Chunk) → ℕ → ℕ → DuplicatePolicy → Series f.Chunk d.Dict
  new_series memory retention_time chunk_size_bytes policy = record {
    chunks = d.set d.create 0 0;
    last_chunk = 0;
    memory = update memory 0 (f.new_chunk chunk_size_bytes);
    fresh = 1;
    retention_time = retention_time;
    chunk_size_bytes = chunk_size_bytes;
    last_timestamp = 0;
    last_value = 0;
    total_samples = 0;
    duplicate_policy = policy;
  }

  unfoldable pub update_chunk_in_dict : d.Dict → ℕ → ℕ → ℕ → d.Dict
  update_chunk_in_dict chunks chunk orig_first_ts first_ts_after_op =
      let (found, deleted) = d.del chunks orig_first_ts in
      d.set (if found then deleted else (d.del deleted 0).1) first_ts_after_op chunk

  -- A round of the loop of `SeriesTrim` for the entry that the iterator returned.
  unfoldable pub trim_entry :
      ℕ → Series f.Chunk d.Dict → Option (ℕ × ℕ) → Step (Series f.Chunk d.Dict)
  trim_entry min_timestamp s none = halted s 0
  trim_entry min_timestamp s (some (key, p)) =
      let c = s.memory p in
      if leb min_timestamp (f.get_last_timestamp c)
      then halted s 0
      else going
          (record s {
            chunks = (d.del s.chunks key).1;
            total_samples = sub64 s.total_samples (f.get_num_of_sample c);
          })
          key 0

  unfoldable pub trim_loop :
      ℕ → ℕ → Series f.Chunk d.Dict → Option ℕ → Option (Series f.Chunk d.Dict)
  trim_loop zero min_timestamp s at = none
  trim_loop (suc fuel) min_timestamp s at = elim (trim_entry min_timestamp s (d.next s.chunks at)) [
    | halted s' n ↦ some s'
    | going s' key n ↦ trim_loop fuel min_timestamp s' (some key)
  ]

  unfoldable pub min_timestamp : Series f.Chunk d.Dict → ℕ
  min_timestamp s =
      if ltb s.retention_time s.last_timestamp then s.last_timestamp - s.retention_time else 0

  -- `SeriesTrim`; `none` is running out of rounds.
  unfoldable pub series_trim : ℕ → Series f.Chunk d.Dict → Option (Series f.Chunk d.Dict)
  series_trim fuel s =
      if s.retention_time == 0 then some s else trim_loop fuel (min_timestamp s) s none

  -- What `SeriesAddSample` does where the last chunk is full.
  unfoldable pub add_new_chunk : Sample → Series f.Chunk d.Dict → Series f.Chunk d.Dict
  add_new_chunk sample s = record s {
    chunks = d.set s.chunks sample.timestamp s.fresh;
    last_chunk = s.fresh;
    memory = update s.memory s.fresh (f.add_sample (f.new_chunk s.chunk_size_bytes) sample).1;
    fresh = s.fresh + 1;
  }

  unfoldable pub added_last : Sample → Series f.Chunk d.Dict → Series f.Chunk d.Dict
  added_last sample s = record s {
    last_timestamp = sample.timestamp;
    last_value = sample.value;
    total_samples = add64 s.total_samples 1;
  }

  abbrev pub is_end : ChunkResult → Bool
  is_end cr_end = true
  is_end cr_ok = false
  is_end cr_err = false

  unfoldable pub series_add_sample :
      ℕ → Series f.Chunk d.Dict → ℕ → ℕ → Option (Series f.Chunk d.Dict)
  series_add_sample fuel s timestamp value =
      let sample : Sample = record { timestamp = timestamp; value = value } in
      let (ret, chunk) = f.add_sample (s.memory s.last_chunk) sample in
      let s1 = record s { memory = update s.memory s.last_chunk chunk } in
      if is_end ret
      then series_trim fuel s1 >>= (λ s2. some (added_last sample (add_new_chunk sample s2)))
      else some (added_last sample s1)

  -- The whole chunk is deleted.
  unfoldable pub drop_chunk : Series f.Chunk d.Dict → ℕ → ℕ → Series f.Chunk d.Dict
  drop_chunk s key p =
      let chunks = (d.del s.chunks key).1 in
      record s {
        chunks = chunks;
        last_chunk =
            if p == s.last_chunk then last_or d.unwritten (d.last chunks) else s.last_chunk;
      }

  -- Some of the chunk's samples are deleted.
  unfoldable pub purge_chunk :
      ℕ → ℕ → Series f.Chunk d.Dict → ℕ → ℕ → ℕ → Option (Step (Series f.Chunk d.Dict))
  unfolding update_chunk_in_dict
  purge_chunk start_ts end_ts s key p deleted =
      let first = f.get_first_timestamp (s.memory p) in
      f.del_range (s.memory p) start_ts end_ts >>= λ (n, chunk).
      let first_after = f.get_first_timestamp chunk in
      let s1 = record s { memory = update s.memory p chunk } in
      some (
        if first_after == first
        then going s1 key (add64 deleted n)
        else going (record s1 { chunks = update_chunk_in_dict s1.chunks p first first_after })
            first_after (add64 deleted n))

  -- A round of the loop of `SeriesDelRange` for the entry that the iterator returned.
  unfoldable pub del_entry :
      ℕ → ℕ → Series f.Chunk d.Dict → ℕ → Option (ℕ × ℕ) → Option (Step (Series f.Chunk d.Dict))
  del_entry start_ts end_ts s deleted none = some (halted s deleted)
  del_entry start_ts end_ts s deleted (some (key, p)) =
      let c = s.memory p in
      let is_only_chunk = add64 (f.get_num_of_sample c) deleted == s.total_samples in
      let whole =
        leb start_ts (f.get_first_timestamp c)
        && leb (f.get_last_timestamp c) end_ts
        && not is_only_chunk in
      if f.get_num_of_sample c == 0 || ltb end_ts (f.get_first_timestamp c)
      then some (halted s deleted)
      else if ltb (f.get_last_timestamp c) start_ts
      then some (going s key deleted)
      else if whole
      then some (going (drop_chunk s key p) key (add64 deleted (f.get_num_of_sample c)))
      else purge_chunk start_ts end_ts s key p deleted

  -- `none` is running out of rounds, or a failed assertion.
  unfoldable pub del_loop :
      ℕ → ℕ → ℕ → Series f.Chunk d.Dict → Option ℕ → ℕ → Option (Series f.Chunk d.Dict × ℕ)
  del_loop zero start_ts end_ts s at deleted = none
  del_loop (suc fuel) start_ts end_ts s at deleted =
      del_entry start_ts end_ts s deleted (d.next s.chunks at) >>= λ step. elim step [
        | halted s' n ↦ some (s', n)
        | going s' key n ↦ del_loop fuel start_ts end_ts s' (some key) n
      ]

  -- The last timestamp and value, read from the dictionary's last chunk.
  unfoldable pub reread_last : Series f.Chunk d.Dict → Option (ℕ × ℕ) → Series f.Chunk d.Dict
  reread_last s none = record s { last_timestamp = 0; last_value = 0 }
  reread_last s (some (key, p)) =
      let c = s.memory p in
      if f.get_num_of_sample c == 0
      then record s { last_timestamp = 0; last_value = 0 }
      else record s { last_timestamp = f.get_last_timestamp c; last_value = f.get_last_value c }

  unfoldable pub series_del_range :
      ℕ → Series f.Chunk d.Dict → ℕ → ℕ → Option (Series f.Chunk d.Dict × ℕ)
  series_del_range fuel s start_ts end_ts =
      del_loop fuel start_ts end_ts s none 0 >>= λ (s1, deleted).
      let s2 = record s1 { total_samples = sub64 s1.total_samples deleted } in
      some (
        if leb s2.last_timestamp end_ts && leb start_ts s2.last_timestamp
            then reread_last s2 (d.last s2.chunks)
            else s2,
        deleted,
      )
