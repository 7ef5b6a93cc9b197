-- ===== src/Compressed/Upsert.antt =====
-- `Compressed_UpsertSample` (src/compressed_chunk.c): a sample is put in its place in a new chunk,
-- which then takes the old one's place.
use redis_time_series.Common.{ℕ, zero, suc, Option, none, some, leb, ◌==◌, if◌then◌else◌}
use redis_time_series.Generic.{
  Sample, ChunkResult, cr_ok, cr_err, cr_end, DuplicatePolicy, Doubles, handle_duplicate_sample,
}
use redis_time_series.Gorilla.{CompressedChunk}
use redis_time_series.Gorilla.Read.{get_next, new_iterator}
use redis_time_series.Common.{◌>>=◌}
use redis_time_series.Compressed.{Cursor, new_chunk, ensure_add_sample}

-- The return value, what `inChunk` becomes, `*size` and `uCtx->sample`.
pub record Upsert : Type 0 where
  pub result : ChunkResult
  pub chunk : CompressedChunk
  pub size : ℕ
  pub sample : Sample

-- Where the first loop ended: the rounds left (none if it ran to its end), `nextRes`, the
-- iterator with `iterSample`, and the new chunk.
pub record Scan : Type 0 where
  pub left : ℕ
  pub next_res : ChunkResult
  pub cursor : Cursor
  pub new_chunk : CompressedChunk

unfoldable pub scan : ℕ → ℕ → CompressedChunk → Cursor → ChunkResult → CompressedChunk → Option Scan
scan zero ts src cur res dst =
    some (record { left = 0; next_res = res; cursor = cur; new_chunk = dst })
scan (suc n) ts src (it, old) _ dst =
    let (res, it', sample) = get_next src it old in
    let stop =
      some (record { left = suc n; next_res = res; cursor = (it', sample); new_chunk = dst }) in
    let go = ensure_add_sample dst sample >>= λ dst'. scan n ts src (it', sample) res dst' in
    if leb ts sample.timestamp then stop else go

-- `while (nextRes == CR_OK)`, on fuel; `none` also if it runs out.
unfoldable pub copy_rest :
    ℕ → CompressedChunk → Cursor → ChunkResult → CompressedChunk → Option CompressedChunk
copy_rest zero src cur res dst = none
copy_rest (suc f) src (it, sample) cr_ok dst =
    let (res, it', sample') = get_next src it sample in
    ensure_add_sample dst sample >>= λ dst'. copy_rest f src (it', sample') res dst'
copy_rest (suc f) src cur cr_err dst = some dst
copy_rest (suc f) src cur cr_end dst = some dst

-- From the upserted sample on. `size` is what `*size += 1` makes of 0, or of -1 where a sample was
-- skipped.
unfoldable pub finish :
    CompressedChunk → ℕ → ChunkResult → Cursor → CompressedChunk → Sample → ℕ → Option Upsert
finish src left res cur dst sample size =
    let rest = λ (dst' : CompressedChunk).
      if left == 0 then some dst' else copy_rest (suc src.count) src cur res dst' in
    ensure_add_sample dst sample >>= λ dst'. rest dst' >>= λ dst''.
    some (record { result = cr_ok; chunk = dst''; size = size; sample = sample })

-- The branch of an equal timestamp, by what `handleDuplicateSample` made of the sample.
unfoldable pub after_duplicate : CompressedChunk → Scan → ChunkResult × Sample → Option Upsert
after_duplicate src s (cr_ok, sample) =
    let (res, it', next) = get_next src s.cursor.0 s.cursor.1 in
    finish src s.left res (it', next) s.new_chunk sample 0
after_duplicate src s (cr_err, sample) =
    some (record { result = cr_err; chunk = src; size = 0; sample = sample })
after_duplicate src s (cr_end, sample) =
    some (record { result = cr_err; chunk = src; size = 0; sample = sample })

unfoldable pub after_scan :
    Doubles → DuplicatePolicy → CompressedChunk → Sample → Scan → Option Upsert
after_scan d policy src sample s =
    if sample.timestamp == s.cursor.1.timestamp
    then after_duplicate src s (handle_duplicate_sample d policy s.cursor.1 sample)
    else finish src s.left s.next_res s.cursor s.new_chunk sample 1

-- `junk` is the uninitialised `iterSample`.
unfoldable pub upsert_sample :
    Doubles → DuplicatePolicy → CompressedChunk → Sample → Sample → Option Upsert
upsert_sample d policy c sample junk =
    scan c.count sample.timestamp c (new_iterator c, junk) cr_ok (new_chunk c.size)
    >>= after_scan d policy c sample
