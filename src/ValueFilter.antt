-- ===== src/ValueFilter.antt =====
-- The filter of a query by value (`check_sample_value`, `SeriesFilterValIterator_GetNextChunk`,
-- src/filter_iterator.c, with `FilterByValueArgs` of src/query_language.h). The iterator that it reads
-- is a parameter: from a state it gives a chunk and the next state, or NULL.
pub mod Keeping
pub mod Answering
mod Tests
use mathlib.Core.List.{append_assoc, append-nil}
use redis_time_series.Common.{
  ℕ, zero, suc, ◌+◌, ◌-◌, ◌≤◌, ◌<◌, ◌≡◌, ◌⊎◌, inl, inr, refl, sym, ap, ◌∙◌, Bool, true, false, ◌&&◌,
  ltb, if◌then◌else◌, Bool-cases, Option, none, some, List, [], ◌∷◌, ◌++◌, map, length,
  length-append, take, get_or, set, arith,
}
use redis_time_series.Generic.{Sample}
use redis_time_series.Enriched.{EnrichedChunk, columns}

pub record FilterByValueArgs : Type 0 where
  pub has_value : Bool
  pub min : ℕ
  pub max : ℕ

-- A chunk while its samples are moved: how many are kept, and the two arrays.
pub record Kept : Type 0 where
  pub count : ℕ
  pub timestamps : List ℕ
  pub values : List ℕ

-- `at_most` is the C operator `<=` on doubles, which is false where one is a NaN.
module _ (at_most : ℕ → ℕ → Bool) (args : FilterByValueArgs) where
  unfoldable pub check_sample_value : ℕ → Bool
  check_sample_value value = at_most args.min value && at_most value args.max

  -- The body of the loop over the samples, at the index `i`.
  unfoldable pub keep_sample : ℕ → Kept → Kept
  keep_sample i k =
      if check_sample_value (get_or k.values i 0)
      then record {
        count = k.count + 1;
        timestamps = set k.timestamps k.count (get_or k.timestamps i 0);
        values = set k.values k.count (get_or k.values i 0);
      }
      else k

  -- The loop, for so many samples more.
  unfoldable pub keep_samples : ℕ → ℕ → Kept → Kept
  keep_samples zero i k = k
  keep_samples (suc n) i k = keep_samples n (i + 1) (keep_sample i k)

  -- The chunk with what was kept.
  unfoldable pub kept_chunk : EnrichedChunk → EnrichedChunk × ℕ
  kept_chunk c =
      let k =
        keep_samples (length c.values) 0
          (record { count = 0; timestamps = c.timestamps; values = c.values }) in
      (
        record {
          timestamps = take k.count k.timestamps;
          values = take k.count k.values;
          rev = c.rev;
        },
        k.count,
      )

  module _ {S : Type 0} (get_next : S → Option (EnrichedChunk × S)) where
    -- The loop over the chunks that are read: one that keeps no sample is passed over.
    unfoldable pub next_kept : ℕ → S → Option (Option (EnrichedChunk × S))
    next_kept zero s = none
    next_kept (suc fuel) s = elim (get_next s) [
      | none ↦ some none
      | some (c, s') ↦
          let (chunk, count) = kept_chunk c in
          let rest = next_kept fuel s' in if ltb 0 count then some (some (chunk, s')) else rest
    ]

    -- `SeriesFilterValIterator_GetNextChunk`: the first `none` is running out of rounds or a failed
    -- assertion, the second NULL.
    unfoldable pub series_filter_val_get_next : ℕ → S → Option (Option (EnrichedChunk × S))
    series_filter_val_get_next fuel s = if args.has_value then next_kept fuel s else none
