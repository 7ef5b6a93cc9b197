-- ===== src/Enriched.antt =====
-- The buffer that a chunk's samples in a range are read into (src/enriched_chunk.h,
-- src/enriched_chunk.c). Its columns are the first `num_samples` entries of the arrays, which the
-- caller has made long enough for every sample of the chunk (`ReallocSamplesArray`).
use redis_time_series.Common.{ℕ, Bool, false, List, [], ◌∷◌, map, if◌then◌else◌}
use mathlib.Core.List.{reverse}
use redis_time_series.Generic.{Sample}

pub record EnrichedChunk : Type 0 where
  pub timestamps : List ℕ
  pub values : List ℕ
  pub rev : Bool

unfoldable pub reset_enriched_chunk : EnrichedChunk
reset_enriched_chunk = record { timestamps = []; values = []; rev = false }

-- The samples in two columns.
abbrev pub columns : Bool → List Sample → EnrichedChunk
columns rev xs = record {
  timestamps = map (λ (x : Sample). x.timestamp) xs;
  values = map (λ (x : Sample). x.value) xs;
  rev = rev;
}

-- What a query of a range returns: the samples, from the last one on if it is in reverse. With no
-- sample the buffer is as it was reset.
abbrev pub range_query : Bool → List Sample → EnrichedChunk
range_query rev [] = columns false []
range_query rev (x ∷ xs) = columns rev (if rev then reverse (x ∷ xs) else x ∷ xs)
