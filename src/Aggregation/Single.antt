-- ===== src/Aggregation/Single.antt =====
-- The aggregations that keep one value: sum, count, first and last (src/compaction.c).
use redis_time_series.Common.{
  ℕ, Bool, true, false, ◌&&◌, Option, some, List, [], ◌∷◌, if◌then◌else◌, leb, ltb, ◌==◌, u8,
}
use redis_time_series.Floats.{Floats, Saved, saved_unsigned, saved_double, load_whole, load_double}

-- The versions of a saved database (src/rdb.h).
abbrev pub ts_is_ressetted_dup_policy_rdb_ver : ℕ
ts_is_ressetted_dup_policy_rdb_ver = 3

abbrev pub ts_last_aggregation_empty : ℕ
ts_last_aggregation_empty = 7

pub record SingleValueContext (V : Type 0) : Type 0 where
  pub value : V

-- The flag is the C byte's test: zero or not.
pub record FirstValueContext (V : Type 0) : Type 0 where
  pub value : V
  pub is_resetted : Bool

module _ (fl : Floats) where
  unfoldable pub finalize_empty_with_nan : {C : Type 0} → C → fl.Value
  finalize_empty_with_nan c = fl.nan

  unfoldable pub finalize_empty_with_zero : {C : Type 0} → C → fl.Value
  finalize_empty_with_zero c = fl.num 0

  unfoldable pub finalize_empty_last_value : SingleValueContext fl.Value → fl.Value
  finalize_empty_last_value c = c.value

  unfoldable pub single_value_create_context : Bool → SingleValueContext fl.Value
  single_value_create_context reverse = record { value = fl.num 0 }

  unfoldable pub single_value_reset : SingleValueContext fl.Value → SingleValueContext fl.Value
  single_value_reset c = record c { value = fl.num 0 }

  unfoldable pub last_value_reset : SingleValueContext fl.Value → SingleValueContext fl.Value
  last_value_reset c = c

  unfoldable pub single_value_finalize : SingleValueContext fl.Value → Option fl.Value
  single_value_finalize c = some c.value

  unfoldable pub single_value_write_context : SingleValueContext fl.Value → List (Saved fl.Value)
  single_value_write_context c = saved_double c.value ∷ []

  -- `none` is TSDB_ERROR, else the context and the rest of the stream.
  unfoldable pub single_value_read_context :
      SingleValueContext fl.Value
      → List (Saved fl.Value)
      → ℕ
      → Option (SingleValueContext fl.Value × List (Saved fl.Value))
  single_value_read_context c io encver = load_double io λ value io1.
      if leb ts_is_ressetted_dup_policy_rdb_ver encver && ltb encver ts_last_aggregation_empty
      then load_whole io1 (λ flag io2. some (record c { value = value }, io2))
      else some (record c { value = value }, io1)

  unfoldable pub first_value_create_context : Bool → FirstValueContext fl.Value
  first_value_create_context reverse = record { value = fl.num 0; is_resetted = true }

  unfoldable pub first_value_reset : FirstValueContext fl.Value → FirstValueContext fl.Value
  first_value_reset c = record c { value = fl.num 0; is_resetted = true }

  unfoldable pub first_value_finalize : FirstValueContext fl.Value → Option fl.Value
  first_value_finalize c = some c.value

  unfoldable pub first_value_write_context : FirstValueContext fl.Value → List (Saved fl.Value)
  first_value_write_context c =
      saved_double c.value ∷ saved_unsigned (if c.is_resetted then 1 else 0) ∷ []

  unfoldable pub first_value_read_context :
      FirstValueContext fl.Value
      → List (Saved fl.Value)
      → ℕ
      → Option (FirstValueContext fl.Value × List (Saved fl.Value))
  first_value_read_context c io encver = load_double io λ value io1.
      if leb ts_is_ressetted_dup_policy_rdb_ver encver
      then load_whole io1 (λ flag io2.
        some (record { value = value; is_resetted = if u8 flag == 0 then false else true }, io2))
      else some (record c { value = value }, io1)

  unfoldable pub sum_append_value :
      SingleValueContext fl.Value → fl.Value → ℕ → SingleValueContext fl.Value
  sum_append_value c value ts = record c { value = fl.add c.value value }

  unfoldable pub count_append_value :
      SingleValueContext fl.Value → fl.Value → ℕ → SingleValueContext fl.Value
  count_append_value c value ts = record c { value = fl.add c.value (fl.num 1) }

  unfoldable pub count_finalize : SingleValueContext fl.Value → Option fl.Value
  count_finalize c = some c.value

  unfoldable pub first_append_value :
      FirstValueContext fl.Value → fl.Value → ℕ → FirstValueContext fl.Value
  first_append_value c value ts =
      if c.is_resetted then record { value = value; is_resetted = false } else c

  unfoldable pub last_append_value :
      SingleValueContext fl.Value → fl.Value → ℕ → SingleValueContext fl.Value
  last_append_value c value ts = record c { value = value }
