-- ===== src/Compressed/Decompress.antt =====
-- `Compressed_ProcessChunk` (src/compressed_chunk.c): `decompressChunk` and
-- `decompressChunkReverse`. The samples that were written are a stack, the last one on top: in the
-- buffer it reads downwards where the pointers go up, and upwards where they go down.
use mathlib.Core.List.{reverse}
use redis_time_series.Common.{
  ℕ, zero, suc, ◌-◌, Bool, ◌||◌, ◌&&◌, true, false, Option, none, some, List, [], ◌∷◌, leb, ltb,
  ◌==◌, if◌then◌else◌, take, length, u32,
}
use redis_time_series.Generic.{Sample, ChunkResult, cr_ok, cr_err, cr_end}
use redis_time_series.Enriched.{EnrichedChunk, reset_enriched_chunk, columns}
use redis_time_series.Gorilla.{CompressedChunk}
use redis_time_series.Gorilla.Read.{get_next, new_iterator}
use redis_time_series.Common.{◌>>=◌}
use redis_time_series.Compressed.{Cursor}

abbrev pub is_ok : ChunkResult → Bool
is_ok cr_ok = true
is_ok cr_err = false
is_ok cr_end = false

-- The loops are on fuel, and `none` is that it runs out.
-- `while (sample.timestamp < start && res == CR_OK)`
unfoldable pub skip_older : ℕ → CompressedChunk → ℕ → ChunkResult → Cursor → Option Cursor
skip_older zero c start res cur = none
skip_older (suc f) c start res (it, sample) =
    let (res', it', sample') = get_next c it sample in
    let more = skip_older f c start res' (it', sample') in
    if ltb sample.timestamp start && is_ok res then more else some (it, sample)

-- `while (sample.timestamp < start && iter->count < numSamples)`
unfoldable pub skip_older_reverse : ℕ → CompressedChunk → ℕ → Cursor → Option Cursor
skip_older_reverse zero c start cur = none
skip_older_reverse (suc f) c start (it, sample) =
    let (res', it', sample') = get_next c it sample in
    let more = skip_older_reverse f c start (it', sample') in
    if ltb sample.timestamp start && ltb it.count c.count then more else some (it, sample)

-- The last loop, for a range that goes to the end of the chunk.
unfoldable pub fill_all : ℕ → CompressedChunk → Cursor → List Sample → Option (List Sample)
fill_all zero c cur out = none
fill_all (suc f) c (it, old) out =
    let (res, it', sample) = get_next c it old in
    let more = fill_all f c (it', sample) (sample ∷ out) in
    if ltb it.count c.count then more else some out

-- The left-overs, until a sample is newer than `end`.
unfoldable pub left_overs : ℕ → CompressedChunk → ℕ → Cursor → List Sample → Option (List Sample)
left_overs zero c end cur out = none
left_overs (suc f) c end (it, old) out =
    let (res, it', sample) = get_next c it old in
    let more = left_overs f c end (it', sample) (sample ∷ out) in
    if ltb it.count c.count then if ltb end sample.timestamp then some out else more else some out

-- What was written and is newer than `end` is taken back.
unfoldable pub take_back : ℕ → List Sample → List Sample
take_back end [] = []
take_back end (x ∷ out) = if ltb end x.timestamp then take_back end out else x ∷ out

-- Four samples per round, while `iter->count < n`: whether the end of the range was seen, the cursor
-- and what was written.
unfoldable pub fours :
    ℕ → CompressedChunk → ℕ → ℕ → Cursor → List Sample → Option (Bool × Cursor × List Sample)
fours zero c n end cur out = none
fours (suc f) c n end (it, old) out =
    let (res1, it1, s1) = get_next c it old in
    let (res2, it2, s2) = get_next c it1 s1 in
    let (res3, it3, s3) = get_next c it2 s2 in
    let (res4, it4, s4) = get_next c it3 s3 in
    let out' = s4 ∷ s3 ∷ s2 ∷ s1 ∷ out in
    let more = fours f c n end (it4, s4) out' in
    if ltb it.count n
    then if ltb end s4.timestamp then some (true, (it4, s4), take_back end out') else more
    else some (false, (it, old), out)

unfoldable pub after_fours :
    CompressedChunk → ℕ → Bool × Cursor × List Sample → Option (List Sample)
after_fours c end (true, cur, out) = some out
after_fours c end (false, cur, out) = left_overs (suc c.count) c end cur out

-- From `if (lastTS > end)` on, up to `_done`.
unfoldable pub fill : CompressedChunk → ℕ → Cursor → List Sample → Option (List Sample)
fill c end cur out =
    let n = if leb 4 c.count then c.count - 4 else 0 in
    let part = fours (suc c.count) c n end cur out >>= after_fours c end in
    let rest = fill_all (suc c.count) c cur out in if ltb end c.prev_timestamp then part else rest

-- Nothing of the chunk is in the range, seen from its ends.
abbrev pub is_outside : CompressedChunk → ℕ → ℕ → Bool
is_outside c start end =
    c.count == 0 || (ltb end start || (ltb end c.base_timestamp || ltb c.prev_timestamp start))

-- From the first sample that is not older than `start` on. Nothing is written if it is past the range.
unfoldable pub from_first : CompressedChunk → ℕ → Cursor → Option (List Sample)
from_first c end (it, sample) =
    let out = fill c end (it, sample) (sample ∷ []) in
    if ltb end sample.timestamp then some [] else out

-- The buffer at `_done`, or as it was reset where nothing was written. The number of samples is an
-- unsigned int: the columns are so many of the samples that were written.
unfoldable pub done : List Sample → EnrichedChunk
done [] = reset_enriched_chunk
done (x ∷ out) = columns false (take (u32 (length (x ∷ out))) (reverse (x ∷ out)))

unfoldable pub done_reverse : List Sample → EnrichedChunk
done_reverse [] = reset_enriched_chunk
done_reverse (x ∷ out) = columns true (take (u32 (length (x ∷ out))) (x ∷ out))

-- `junk` is the uninitialised `sample`.
unfoldable pub decompress_chunk : CompressedChunk → ℕ → ℕ → Sample → Option EnrichedChunk
decompress_chunk c start end junk =
    let (res, it, sample) = get_next c (new_iterator c) junk in
    let read = skip_older (suc c.count) c start res (it, sample) >>= λ cur.
    from_first c end cur >>= λ out. some (done out) in
    if is_outside c start end then some reset_enriched_chunk else read

unfoldable pub decompress_chunk_reverse : CompressedChunk → ℕ → ℕ → Sample → Option EnrichedChunk
decompress_chunk_reverse c start end junk =
    let (res, it, sample) = get_next c (new_iterator c) junk in
    let read = skip_older_reverse (suc c.count) c start (it, sample) >>= λ cur.
    from_first c end cur >>= λ out. some (done_reverse out) in
    if is_outside c start end then some reset_enriched_chunk else read

-- For a chunk that is there: `decompressChunk` and `decompressChunkReverse` reset the buffer first.
unfoldable pub process_chunk : CompressedChunk → ℕ → ℕ → Bool → Sample → Option EnrichedChunk
process_chunk c start end reverse junk =
    if reverse then decompress_chunk_reverse c start end junk else decompress_chunk c start end junk
