-- ===== src/ValueFilter/Tests.antt =====
-- The filter at a concrete iterator.
use redis_time_series.Common.{
  ℕ, ◌≡◌, refl, Bool, true, false, leb, Option, none, some, List, [], ◌∷◌, arith,
}
use redis_time_series.Generic.{Sample}
use redis_time_series.Enriched.{EnrichedChunk, columns}
use redis_time_series.ValueFilter.{FilterByValueArgs, series_filter_val_get_next}
use redis_time_series.ValueFilter.Keeping.{within}
use redis_time_series.ValueFilter.Answering.{
  Answers, samples_of, kept_chunks, series_filter_val_get_next-Answers,
}

abbrev sample : ℕ → ℕ → Sample
sample t v = record { timestamp = t; value = v }

abbrev args : FilterByValueArgs
args = record { has_value = true; min = 3; max = 7 }

-- The first chunk has a sample on a bound and one beyond, the second has none within.
abbrev chunks : List (Bool × List Sample)
chunks =
    (false, sample 10 1 ∷ sample 20 3 ∷ sample 30 9 ∷ sample 40 7 ∷ [])
    ∷ (false, sample 50 8 ∷ [])
    ∷ (true, sample 60 5 ∷ [])
    ∷ []

-- An iterator whose state is the chunks that are left.
abbrev next_of : List (Bool × List Sample) → Option (EnrichedChunk × List (Bool × List Sample))
next_of [] = none
next_of (c ∷ cs) = some (columns c.0 c.1, cs)

series_filter_val_get_next-Answers_example :
    Answers
      (series_filter_val_get_next leb args next_of 4)
      (series_filter_val_get_next leb args next_of 4)
      chunks
      (kept_chunks leb args chunks)
    × (samples_of (kept_chunks leb args chunks) ≡ within leb args (samples_of chunks))
series_filter_val_get_next-Answers_example =
    series_filter_val_get_next-Answers leb args next_of chunks 4 chunks refl
      ((chunks_1, refl, (chunks_2, refl, ([], refl, refl)))) (omega arith)
  where
    chunks_1 : List (Bool × List Sample)
    chunks_1 = (false, sample 50 8 ∷ []) ∷ (true, sample 60 5 ∷ []) ∷ []

    chunks_2 : List (Bool × List Sample)
    chunks_2 = (true, sample 60 5 ∷ []) ∷ []
