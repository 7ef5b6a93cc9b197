-- ===== src/Chunks/Regular.antt =====
-- The uncompressed chunk as a chunk of a series (`regChunk`, src/generic_chunk.c).
use mathlib.Core.Option
use redis_time_series.Common.{
  u32, lt→ltb, ℕ, suc, ◌^◌, ◌≤◌, ◌<◌, ◌≡◌, refl, ap, some, List, [], ◌∷◌, ◌++◌, length, ne→==,
  get_or, arith,
}
use redis_time_series.Generic.{Sample, ChunkResult, cr_ok, cr_err, cr_end, Doubles}
use redis_time_series.Ranges.{last_sample}
use redis_time_series.Chunks.{ChunkFuncs, ChunkLaws, Added, Deleted}
use redis_time_series.Uncompressed.{
  Memory, Chunk, no_sample, new_chunk, add_sample, split_chunk, del_range, get_chunk_size,
  num_of_sample, chunk_get_sample, last_index, get_first_timestamp, get_last_timestamp,
  get_last_value,
}
use redis_time_series.Uncompressed.Upsert.{Upserted, upsert_sample}
use redis_time_series.Uncompressed.Stores.{Stores, AddOutcome, add_sample-Stores}
use redis_time_series.Uncompressed.Split.{new_chunk-Stores, del_range-Stores}

-- What the call leaves, with the sample of the context.
abbrev upsert_result : Upserted → ChunkResult × Chunk × ℕ × Sample
upsert_result u = (u.result, u.chunk, u.size, u.sample)

get_or-last :
    (x : Sample) (xs free : List Sample)
    → get_or ((x ∷ xs) ++ free) (length xs) no_sample ≡ last_sample x xs
get_or-last x [] free = refl
get_or-last x (y ∷ ys) free = get_or-last y ys free

-- The samples, in slots of which there is at least one, and which an int can count.
abbrev pub HasSlots : Chunk → List Sample → Type 0
HasSlots c xs = Stores c xs × (16 ≤ c.size) × (c.size < 2 ^ 35)

module _ (m : Memory) (d : Doubles) where
  abbrev pub reg_chunk : ChunkFuncs
  reg_chunk = record {
    Chunk = Chunk;
    new_chunk = new_chunk m;
    add_sample = add_sample;
    split_chunk = λ c. some (split_chunk m c);
    upsert_sample = λ policy c s. Option.map upsert_result (upsert_sample m d policy c s);
    del_range = λ c a b. some (del_range m c a b);
    get_chunk_size = get_chunk_size;
    get_num_of_sample = num_of_sample;
    get_first_timestamp = get_first_timestamp;
    get_last_timestamp = get_last_timestamp;
    get_last_value = get_last_value;
  }

  pub added :
      (c : Chunk) (xs : List Sample) (s : Sample) (r : ChunkResult × Chunk)
      → 16 ≤ c.size
      → c.size < 2 ^ 35
      → AddOutcome c xs s r
      → Added HasSlots c xs s r
  added c xs s (cr_ok, c') room small h = (h.0, omega (arith, h.1, room), omega (arith, h.1, small))
  added c xs s (cr_end, c') room small h = h.0
  added c xs s (cr_err, c') room small h = h

  pub first_ok :
      (c : Chunk) (s : Sample) (r : ChunkResult × Chunk)
      → 16 ≤ c.size
      → AddOutcome c [] s r
      → r.0 ≡ cr_ok
  first_ok c s (cr_ok, c') room h = refl
  first_ok c s (cr_end, c') room h = absurd (omega (arith, h.1, room))
  first_ok c s (cr_err, c') room h = absurd h

  pub deleted :
      (c : Chunk) (xs : List Sample) (a b : ℕ)
      → HasSlots c xs
      → Deleted HasSlots xs a b (some (del_range m c a b))
  unfolding del_range
  deleted c xs a b h =
      let after = del_range-Stores m c xs a b h.0 in
      record {
        count = (del_range m c a b).0;
        chunk = (del_range m c a b).1;
        returned = refl;
        all = after.0;
        left = (after.1, h.1, h.2);
      }

  -- The slot of the last sample.
  pub last_slot :
      (c : Chunk) (x : Sample) (xs : List Sample)
      → HasSlots c (x ∷ xs)
      → chunk_get_sample c (last_index c) ≡ last_sample x xs
  unfolding chunk_get_sample
  last_slot c x xs h =
      let n : u32 (last_index c) ≡ length xs = omega (arith, h.0.count, h.0.room, h.2) in
      rw (n, lt→ltb (length xs) (2 ^ 31) (omega (arith, h.0.room, h.2)), h.0.slots)
        (get_or-last x xs h.0.free)

  unfoldable pub reg_chunk_laws : (size : ℕ) → 16 ≤ size → size < 2 ^ 35 → ChunkLaws reg_chunk size
  unfolding num_of_sample get_first_timestamp get_last_timestamp get_last_value new_chunk
      chunk_get_sample
  reg_chunk_laws size room small = record {
    Holds = HasSlots;
    Spare = λ c. Unit {0};
    IsFit = λ s. Unit {0};
    new_chunk-Holds = (new_chunk-Stores m size (omega (arith, small)), room, small);
    add_sample-Added =
        λ c xs s h fit. added c xs s (add_sample c s) h.1 h.2 (add_sample-Stores c xs s h.0);
    add_sample-first =
        λ c s h fit. first_ok c s (add_sample c s) h.1 (add_sample-Stores c [] s h.0);
    del_range-Deleted = λ c xs a b h spare. deleted c xs a b h;
    num_of_sample = λ c xs h. h.0.count;
    first_timestamp_empty = λ c h. rw h.0.count refl;
    first_timestamp =
        λ c x xs h. rw (h.0.count, ne→== (suc (length xs)) 0 (omega arith), h.0.slots) refl;
    last_timestamp = λ c x xs h. ap (λ (s : Sample). s.timestamp) (last_slot c x xs h);
    last_value = λ c x xs h. ap (λ (s : Sample). s.value) (last_slot c x xs h);
  }

  -- An uncompressed chunk keeps the promises of a chunk, where its size is that of a sample at least
  -- and below 2 ^ 35: what it holds is what it stores, any sample fits, and a deletion needs no more memory.
  pub reg_chunk-ChunkLaws :
      (size : ℕ)
      → 16 ≤ size
      → size < 2 ^ 35
      → (L : ChunkLaws reg_chunk size) × (L.Holds ≡ HasSlots)
        × ((c : Chunk) → L.Spare c)
        × ((s : Sample) → L.IsFit s)
  unfolding reg_chunk_laws
  reg_chunk-ChunkLaws size room small = (reg_chunk_laws size room small, refl, λ c. tt, λ s. tt)
