-- ===== src/Aggregation/Saving.antt =====
-- Saving and loading a context, at the version of the database that this program writes or a later
-- one.
use redis_time_series.Common.{
  ℕ, zero, suc, Bool, true, false, ◌≡◌, ◌≤◌, ◌<◌, refl, Option, some, none, List, ◌++◌, take,
  length, if◌then◌else◌, not, ◌==◌, leb, ltb, arith, u8,
}
use mathlib.Core.Path.{subst}
use redis_time_series.Names.{
  AggType, agg_invalid, agg_none, agg_min, agg_max, agg_sum, agg_avg, agg_count, agg_first,
  agg_last, agg_range, agg_std_p, agg_std_s, agg_var_p, agg_var_s, agg_twa, agg_types_max,
}
use redis_time_series.Floats.{Floats, Saved, load_whole, load_double}
use redis_time_series.Aggregation.{AggregationClass}
use redis_time_series.Aggregation.Weighted.{twa_read_context, twa_write_context}
use redis_time_series.Aggregation.Single.{
  single_value_read_context, single_value_write_context, first_value_read_context,
  first_value_write_context, ts_last_aggregation_empty,
}
use redis_time_series.Aggregation.Average.{avg_read_context, avg_write_context}
use redis_time_series.Aggregation.Deviation.{std_read_context, std_write_context}
use redis_time_series.Aggregation.Extremes.{max_min_read_context, max_min_write_context}
use redis_time_series.Aggregation.Class.{get_agg_class}

later : (n encver : ℕ) → n ≤ 7 → 7 ≤ encver → leb n encver ≡ true
later n encver a b = ground arith

not_old : (encver : ℕ) → 7 ≤ encver → ltb encver 7 ≡ false
not_old encver b = ground arith

flag_byte : (b : Bool) → (if u8 (if b then 1 else 0) == 0 then false else true) ≡ b
flag_byte true = refl
flag_byte false = refl

flag : (b : Bool) → not ((if b then 1 else 0) == 0) ≡ b
flag true = refl
flag false = refl

module _ (fl : Floats) where
  -- A saved context is loaded as it was, whatever stood in the one that is loaded to, and the
  -- stream is read up to its end; a stream that ends before is refused.
  SavedWell :
      {C : Type 0}
      → (C → List (Saved fl.Value))
      → (C → List (Saved fl.Value) → ℕ → Option (C × List (Saved fl.Value)))
      → Type 0
  SavedWell {C} write read =
      (c0 c : C) (rest : List (Saved fl.Value)) (encver n : ℕ)
      → 7 ≤ encver
      → n < length (write c)
      → (read c0 (write c ++ rest) encver ≡ some (c, rest))
        × (read c0 (take n (write c)) encver ≡ none)

  single_value_SavedWell : SavedWell (single_value_write_context fl) (single_value_read_context fl)
  unfolding SavedWell single_value_write_context single_value_read_context load_double load_whole
  single_value_SavedWell c0 c rest encver zero new short =
      (rw (later 3 encver (omega arith) new, not_old encver new) refl, refl)
  single_value_SavedWell c0 c rest encver (suc n) new short = absurd (omega arith)

  first_value_SavedWell : SavedWell (first_value_write_context fl) (first_value_read_context fl)
  unfolding SavedWell first_value_write_context first_value_read_context load_double load_whole
  first_value_SavedWell c0 c rest encver n new short =
      (rw (later 3 encver (omega arith) new, flag_byte c.is_resetted) refl, part n short)
    where
      part :
          (n : ℕ)
          → n < 2
          → first_value_read_context fl c0 (take n (first_value_write_context fl c)) encver ≡ none
      part zero h = refl
      part (suc zero) h = rw (later 3 encver (omega arith) new) refl
      part (suc (suc n)) h = absurd (omega arith)

  avg_SavedWell : SavedWell (avg_write_context fl) (avg_read_context fl)
  unfolding SavedWell avg_write_context avg_read_context load_double load_whole
  avg_SavedWell c0 c rest encver n new short =
      (rw (later 4 encver (omega arith) new, flag c.is_overflow) refl, part n short)
    where
      part :
          (n : ℕ) → n < 3 → avg_read_context fl c0 (take n (avg_write_context fl c)) encver ≡ none
      part zero h = refl
      part (suc zero) h = refl
      part (suc (suc zero)) h = rw (later 4 encver (omega arith) new) refl
      part (suc (suc (suc n))) h = absurd (omega arith)

  std_SavedWell : SavedWell (std_write_context fl) (std_read_context fl)
  unfolding SavedWell std_write_context std_read_context load_double load_whole
  std_SavedWell c0 c rest encver n new short = (refl, part n short)
    where
      part :
          (n : ℕ) → n < 3 → std_read_context fl c0 (take n (std_write_context fl c)) encver ≡ none
      part zero h = refl
      part (suc zero) h = refl
      part (suc (suc zero)) h = refl
      part (suc (suc (suc n))) h = absurd (omega arith)

  max_min_SavedWell : SavedWell (max_min_write_context fl) (max_min_read_context fl)
  unfolding SavedWell max_min_write_context max_min_read_context load_double
  max_min_SavedWell c0 c rest encver n new short = (refl, part n short)
    where
      part :
          (n : ℕ)
          → n < 2
          → max_min_read_context fl c0 (take n (max_min_write_context fl c)) encver ≡ none
      part zero h = refl
      part (suc zero) h = refl
      part (suc (suc n)) h = absurd (omega arith)

  twa_SavedWell : SavedWell (twa_write_context fl) (twa_read_context fl)
  unfolding SavedWell twa_write_context twa_read_context load_double load_whole
  twa_SavedWell c0 c rest encver n new short =
      (rw (flag c.is_first_bucket, flag c.reverse) refl, part n short)
    where
      part :
          (n : ℕ) → n < 10 → twa_read_context fl c0 (take n (twa_write_context fl c)) encver ≡ none
      part zero h = refl
      part (suc zero) h = refl
      part (suc (suc zero)) h = refl
      part (suc (suc (suc zero))) h = refl
      part (suc (suc (suc (suc zero)))) h = refl
      part (suc (suc (suc (suc (suc zero))))) h = refl
      part (suc (suc (suc (suc (suc (suc zero)))))) h = refl
      part (suc (suc (suc (suc (suc (suc (suc zero))))))) h = refl
      part (suc (suc (suc (suc (suc (suc (suc (suc zero)))))))) h = refl
      part (suc (suc (suc (suc (suc (suc (suc (suc (suc zero))))))))) h = refl
      part (suc (suc (suc (suc (suc (suc (suc (suc (suc (suc n)))))))))) h = absurd (omega arith)

  abbrev SavedIfThere : Option (AggregationClass fl.Value) → Type 0
  SavedIfThere none = Unit
  SavedIfThere (some cls) = SavedWell cls.write_context cls.read_context

  saved_class : (t : AggType) → SavedIfThere (get_agg_class fl t)
  unfolding get_agg_class
  saved_class agg_min = max_min_SavedWell
  saved_class agg_max = max_min_SavedWell
  saved_class agg_range = max_min_SavedWell
  saved_class agg_sum = single_value_SavedWell
  saved_class agg_count = single_value_SavedWell
  saved_class agg_last = single_value_SavedWell
  saved_class agg_first = first_value_SavedWell
  saved_class agg_avg = avg_SavedWell
  saved_class agg_std_p = std_SavedWell
  saved_class agg_std_s = std_SavedWell
  saved_class agg_var_p = std_SavedWell
  saved_class agg_var_s = std_SavedWell
  saved_class agg_twa = twa_SavedWell
  saved_class agg_none = tt
  saved_class agg_invalid = tt
  saved_class agg_types_max = tt

  -- For every aggregation: from version 7 of the database on, a context that is saved is loaded as it
  -- was, whatever stood in the context that is loaded to, and the loader stops where it ends. A
  -- stream that breaks off within the context is refused.
  pub read_context-write_context :
      (t : AggType) (cls : AggregationClass fl.Value)
      → get_agg_class fl t ≡ some cls
      → (c0 c : cls.Context) (rest : List (Saved fl.Value)) (encver n : ℕ)
      → ts_last_aggregation_empty ≤ encver
      → n < length (cls.write_context c)
      → (cls.read_context c0 (cls.write_context c ++ rest) encver ≡ some (c, rest))
        × (cls.read_context c0 (take n (cls.write_context c)) encver ≡ none)
  unfolding SavedWell
  read_context-write_context t cls e = subst SavedIfThere e (saved_class t)
