-- ===== src/Compressed/RoundTrip.antt =====
-- Samples that go into a new chunk come out of its iterator (src/compressed_chunk.c, src/gorilla.c).
use mathlib.Core.Path.{subst}
use mathlib.Core.List.{append_assoc, append-nil}
use redis_time_series.Common.{ℕ, ◌+◌, ◌*◌, ◌%◌, ◌^◌, ◌<◌, ◌≡◌, refl}
use redis_time_series.Common.{Option, some, List, [], ◌∷◌, ◌++◌, length, arith}
use redis_time_series.Generic.{Sample}
use redis_time_series.Gorilla.{CompressedChunk}
use redis_time_series.Gorilla.Read.{new_iterator}
use redis_time_series.Gorilla.Samples.{Represents}
use redis_time_series.Gorilla.Iterating.{Reads, Reads-new_iterator}
use redis_time_series.Common.{◌>>=◌}
use redis_time_series.Compressed.{new_chunk, ensure_add_sample}
use redis_time_series.Compressed.Growth.{new_chunk-Represents}
use redis_time_series.Compressed.Ensure.{Succeeds, ensure_add_sample-Succeeds}
use redis_time_series.Compressed.Loops.{AllSamples}

-- A client that adds samples one after another.
unfoldable pub store_all : CompressedChunk → List Sample → Option CompressedChunk
store_all c [] = some c
store_all c (s ∷ ss) = ensure_add_sample c s >>= λ c'. store_all c' ss

pub store_all-Succeeds :
    (c : CompressedChunk) (xs ss : List Sample)
    → Represents c xs
    → AllSamples ss
    → c.size + 32 * length ss < 2 ^ 31
    → Succeeds (store_all c ss) (xs ++ ss) (c.size + 32 * length ss)
unfolding store_all
store_all-Succeeds c xs [] h words small = record {
  chunk = c;
  returned = refl;
  represents = rw append-nil h;
  within = omega arith;
}
store_all-Succeeds c xs (s ∷ ss) h (word, words) small =
    let step = ensure_add_sample-Succeeds c xs s h word (omega arith) in
    let more =
      store_all-Succeeds step.chunk (xs ++ s ∷ []) ss step.represents words
        (omega (arith, step.within)) in
    rw step.returned (record {
      chunk = more.chunk;
      returned = more.returned;
      represents =
          subst (λ t. Represents more.chunk t) (append_assoc xs (s ∷ []) ss) more.represents;
      within = omega (arith, more.within, step.within);
    })

-- Storing any list of samples in a new chunk of whole bins succeeds, as long as the sizes stay below
-- 2 ^ 31 bytes, and a new iterator over the result gives exactly these samples, bit for bit and in
-- order, and then CR_END.
pub store_all-Reads :
    (size : ℕ) (ss : List Sample)
    → size % 8 ≡ 0
    → AllSamples ss
    → size + 32 * length ss < 2 ^ 31
    → (c : CompressedChunk) × (store_all (new_chunk size) ss ≡ some c) × Reads c (new_iterator c) ss
unfolding new_chunk
store_all-Reads size ss whole words small =
    let s =
      store_all-Succeeds (new_chunk size) [] ss (new_chunk-Represents size whole (omega arith))
        words small in
    (s.chunk, s.returned, Reads-new_iterator s.chunk ss s.represents)
