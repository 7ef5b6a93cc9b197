-- ===== src/Aggregation/Extremes.antt =====
-- Maximum, minimum and range (src/compaction.c, src/compactions/compaction_common.h).
use redis_time_series.Common.{
  ltb, ◌^◌, ◌-◌, none, get_or, ℕ, zero, suc, Bool, Option, some, List, [], ◌∷◌, ◌+◌, ◌-◌,
  if◌then◌else◌,
}
use redis_time_series.Floats.{Floats, Saved, saved_double, load_double}

pub record MaxMinContext (V : Type 0) : Type 0 where
  pub min_value : V
  pub max_value : V

module _ (fl : Floats) where
  unfoldable pub max_min_create_context : Bool → MaxMinContext fl.Value
  max_min_create_context reverse = record { min_value = fl.dbl_max; max_value = fl.double_min }

  unfoldable pub assign_if_greater : fl.Value → fl.Value → fl.Value
  assign_if_greater value new_value = if fl.less value new_value then new_value else value

  unfoldable pub max_append_value : MaxMinContext fl.Value → fl.Value → ℕ → MaxMinContext fl.Value
  max_append_value c value ts = record c { max_value = assign_if_greater c.max_value value }

  unfoldable pub min_append_value : MaxMinContext fl.Value → fl.Value → ℕ → MaxMinContext fl.Value
  min_append_value c value ts =
      if fl.less value c.min_value then record c { min_value = value } else c

  unfoldable pub max_min_append_value :
      MaxMinContext fl.Value → fl.Value → ℕ → MaxMinContext fl.Value
  max_min_append_value c value ts =
      let raised = if fl.less c.max_value value then record c { max_value = value } else c in
      if fl.less value raised.min_value then record raised { min_value = value } else raised

  -- The loop of `MaxAppendValuesVec` from index `i` on, with `n` values left. The index is an int:
  -- `none` is that it does not fit, or that it overflows behind the last one that does.
  unfoldable pub max_values :
      MaxMinContext fl.Value → List fl.Value → ℕ → ℕ → Option (MaxMinContext fl.Value)
  max_values c values i zero = some c
  max_values c values i (suc n) =
      let value = get_or values i (fl.num 0) in
      let rest =
        max_values (record c { max_value = assign_if_greater c.max_value value }) values (i + 1)
          n in
      if ltb i (2 ^ 31 - 1) then rest else none

  -- The caller's indices are within the array.
  unfoldable pub max_append_values_vec :
      MaxMinContext fl.Value → List fl.Value → ℕ → ℕ → Option (MaxMinContext fl.Value)
  max_append_values_vec c values si ei = max_values c values si (ei + 1 - si)

  unfoldable pub max_finalize : MaxMinContext fl.Value → Option fl.Value
  max_finalize c = some c.max_value

  unfoldable pub min_finalize : MaxMinContext fl.Value → Option fl.Value
  min_finalize c = some c.min_value

  unfoldable pub range_finalize : MaxMinContext fl.Value → Option fl.Value
  range_finalize c = some (fl.sub c.max_value c.min_value)

  unfoldable pub max_min_reset : MaxMinContext fl.Value → MaxMinContext fl.Value
  max_min_reset c = record { min_value = fl.dbl_max; max_value = fl.double_min }

  unfoldable pub max_min_write_context : MaxMinContext fl.Value → List (Saved fl.Value)
  max_min_write_context c = saved_double c.max_value ∷ saved_double c.min_value ∷ []

  unfoldable pub max_min_read_context :
      MaxMinContext fl.Value
      → List (Saved fl.Value)
      → ℕ
      → Option (MaxMinContext fl.Value × List (Saved fl.Value))
  max_min_read_context c io encver = load_double io λ max_value io1.
      load_double io1
        λ min_value io2. some (record { min_value = min_value; max_value = max_value }, io2)
