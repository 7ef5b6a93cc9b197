-- ===== src/Chunks/Compressed.antt =====
-- The compressed chunk as a chunk of a series (`comprChunk`, src/generic_chunk.c).
use mathlib.Core.Option
use redis_time_series.Common.{
  if_both, ℕ, ◌+◌, ◌*◌, ◌%◌, ◌^◌, ◌<◌, ◌≡◌, refl, List, [], ◌∷◌, ◌++◌, arith,
}
use redis_time_series.Generic.{Sample, IsSample, ChunkResult, cr_ok, cr_err, cr_end, Doubles}
use redis_time_series.Ranges.{outside, in_range}
use redis_time_series.Chunks.{ChunkFuncs, ChunkLaws, Added, Deleted}
use redis_time_series.Gorilla.{CompressedChunk}
use redis_time_series.Gorilla.Append.{append}
use redis_time_series.Gorilla.Samples.{Represents}
use redis_time_series.Gorilla.Appending.{AppendOutcome, append-Represents}
use redis_time_series.Compressed.{new_chunk, add_sample, split_chunk, del_range}
use redis_time_series.Compressed.Upsert.{Upsert, upsert_sample}
use redis_time_series.Compressed.Ends.{
  get_chunk_size, chunk_num_of_sample, get_first_timestamp, get_last_timestamp, get_last_value,
  last_sample-Represents,
}
use redis_time_series.Compressed.Growth.{new_chunk-Represents}
use redis_time_series.Compressed.Loops.{AllSamples}
use redis_time_series.Compressed.Split.{del_range-Represents, count-Represents}

abbrev upsert_result : Upsert → ChunkResult × CompressedChunk × ℕ × Sample
upsert_result u = (u.result, u.chunk, u.size, u.sample)

AllSamples-outside : (a b : ℕ) (xs : List Sample) → AllSamples xs → AllSamples (outside a b xs)
AllSamples-outside a b [] h = tt
AllSamples-outside a b (x ∷ xs) h =
    if_both AllSamples (in_range a b x) (λ _. AllSamples-outside a b xs h.1)
      (λ _. (h.0, AllSamples-outside a b xs h.1))

pub AllSamples-snoc :
    (xs : List Sample) (s : Sample) → AllSamples xs → IsSample s → AllSamples (xs ++ (s ∷ []))
AllSamples-snoc [] s h w = (w, tt)
AllSamples-snoc (x ∷ xs) s h w = (h.0, AllSamples-snoc xs s h.1 w)

-- The samples, all of words.
abbrev pub Encodes : CompressedChunk → List Sample → Type 0
Encodes c xs = Represents c xs × AllSamples xs

-- `junk` is what the uninitialised samples of the source happen to be.
module _ (d : Doubles) (junk : Sample) where
  abbrev pub compr_chunk : ChunkFuncs
  compr_chunk = record {
    Chunk = CompressedChunk;
    new_chunk = new_chunk;
    add_sample = add_sample;
    split_chunk = λ c. split_chunk c junk;
    upsert_sample = λ policy c s. Option.map upsert_result (upsert_sample d policy c s junk);
    del_range = λ c a b. del_range c a b junk;
    get_chunk_size = get_chunk_size;
    get_num_of_sample = chunk_num_of_sample;
    get_first_timestamp = get_first_timestamp;
    get_last_timestamp = get_last_timestamp;
    get_last_value = get_last_value;
  }

  pub added :
      (c : CompressedChunk) (xs : List Sample) (s : Sample) (r : ChunkResult × CompressedChunk)
      → AllSamples (xs ++ (s ∷ []))
      → AppendOutcome c (xs ++ (s ∷ [])) r
      → Added Encodes c xs s r
  added c xs s (cr_ok, c') words h = (h.0, words)
  added c xs s (cr_end, c') words h = h.0
  added c xs s (cr_err, c') words h = h

  pub first_ok :
      (c : CompressedChunk) (s : Sample)
      → Represents c []
      → (append c s.timestamp s.value).0 ≡ cr_ok
  unfolding append
  first_ok c s h = rw h.count refl

  pub deleted :
      (c : CompressedChunk) (xs : List Sample) (a b : ℕ)
      → Encodes c xs
      → c.size + 32 * c.count < 2 ^ 31
      → Deleted Encodes xs a b (del_range c a b junk)
  deleted c xs a b h small =
      let after =
        del_range-Represents c xs h.0 h.1 (omega (arith, count-Represents c xs h.0, small)) junk a
          b in
      record {
        count = after.deleted;
        chunk = after.chunk;
        returned = after.returned;
        all = after.all_counted;
        left = (after.represents, AllSamples-outside a b xs h.1);
      }

  unfoldable pub compr_chunk_laws :
      (size : ℕ) → size % 8 ≡ 0 → 8 * size < 2 ^ 64 → ChunkLaws compr_chunk size
  unfolding add_sample chunk_num_of_sample get_first_timestamp
  compr_chunk_laws size whole small = record {
    Holds = Encodes;
    Spare = λ c. c.size + 32 * c.count < 2 ^ 31;
    IsFit = IsSample;
    new_chunk-Holds = (new_chunk-Represents size whole small, tt);
    add_sample-Added = λ c xs s h fit.
        added c xs s (add_sample c s) (AllSamples-snoc xs s h.1 fit)
          (append-Represents c xs s h.0 fit);
    add_sample-first = λ c s h fit. first_ok c s h.0;
    del_range-Deleted = λ c xs a b h spare. deleted c xs a b h spare;
    num_of_sample = λ c xs h. count-Represents c xs h.0;
    first_timestamp_empty = λ c h. rw h.0.count refl;
    first_timestamp = λ c x xs h. (last_sample-Represents c x xs h.0).1;
    last_timestamp = λ c x xs h. (last_sample-Represents c x xs h.0).2;
    last_value = λ c x xs h. (last_sample-Represents c x xs h.0).3;
  }

  -- A compressed chunk keeps the promises of a chunk, where its size is a number of whole bins: what it
  -- holds is what it represents, any sample of two words fits, and a deletion needs that the chunk's
  -- bytes, and 32 more for each sample, are below 2 ^ 31.
  pub compr_chunk-ChunkLaws :
      (size : ℕ)
      → size % 8 ≡ 0
      → 8 * size < 2 ^ 64
      → (L : ChunkLaws compr_chunk size) × (L.Holds ≡ Encodes)
        × ((c : CompressedChunk) → c.size + 32 * c.count < 2 ^ 31 → L.Spare c)
        × ((s : Sample) → IsSample s → L.IsFit s)
  unfolding compr_chunk_laws
  compr_chunk-ChunkLaws size whole small =
      (compr_chunk_laws size whole small, refl, λ c h. h, λ s h. h)
