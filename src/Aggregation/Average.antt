-- ===== src/Aggregation/Average.antt =====
-- The average (src/compaction.c), which goes over to a running mean where the sum overflows.
use redis_time_series.Common.{
  ℕ, Bool, true, false, ◌&&◌, ◌||◌, Option, some, none, List, [], ◌∷◌, if◌then◌else◌, leb, ◌==◌,
  not,
}
use redis_time_series.Floats.{Floats, Saved, saved_unsigned, saved_double, load_whole, load_double}

abbrev pub ts_overflow_rdb_ver : ℕ
ts_overflow_rdb_ver = 4

pub record AvgContext (V : Type 0) : Type 0 where
  pub val : V
  pub cnt : V
  pub is_overflow : Bool

abbrev same : Bool → Bool → Bool
same a b = if a then b else not b

module _ (fl : Floats) where
  unfoldable pub avg_init_context : AvgContext fl.Value
  avg_init_context = record { val = fl.num 0; cnt = fl.num 0; is_overflow = false }

  unfoldable pub avg_create_context : Bool → AvgContext fl.Value
  avg_create_context reverse = avg_init_context

  -- The test for overflow, before the flag.
  unfoldable pub sum_overflows : fl.Value → fl.Value → Bool
  sum_overflows val value =
      same (fl.less val (fl.num 0)) (fl.less value (fl.num 0))
      && fl.less (fl.sub fl.dbl_max (fl.fabs value)) (fl.fabs val)

  -- The mean of `cnt` values, whose count is already increased.
  unfoldable pub running_mean : AvgContext fl.Value → fl.Value → fl.Value
  running_mean c value =
      let less_one = fl.sub c.cnt (fl.num 1) in
      let ld_val = fl.widen c.val in
      let ld_cnt = fl.widen c.cnt in
      let scaled =
        if fl.has_long_double
        then (let one = fl.long_div ld_val ld_cnt in
            if c.is_overflow then fl.long_mul one (fl.widen less_one) else one)
        else if c.is_overflow
        then fl.long_mul ld_val (fl.long_div (fl.widen less_one) ld_cnt)
        else fl.long_div ld_val ld_cnt in
      fl.narrow (fl.long_add scaled (fl.long_div (fl.widen value) ld_cnt))

  unfoldable pub avg_add_value : AvgContext fl.Value → fl.Value → ℕ → AvgContext fl.Value
  avg_add_value c value ts =
      let counted = record c { cnt = fl.add c.cnt (fl.num 1) } in
      if sum_overflows c.val value || c.is_overflow
      then record counted { val = running_mean counted value; is_overflow = true }
      else record counted { val = fl.add c.val value }

  -- `none` is the assertion that fails.
  unfoldable pub avg_finalize : AvgContext fl.Value → Option fl.Value
  avg_finalize c =
      if fl.less (fl.num 0) c.cnt
      then some (if c.is_overflow then c.val else fl.div c.val c.cnt)
      else none

  unfoldable pub avg_reset : AvgContext fl.Value → AvgContext fl.Value
  avg_reset c = avg_init_context

  unfoldable pub avg_write_context : AvgContext fl.Value → List (Saved fl.Value)
  avg_write_context c =
      saved_double c.val ∷ saved_double c.cnt ∷ saved_unsigned (if c.is_overflow then 1 else 0) ∷ []

  unfoldable pub avg_read_context :
      AvgContext fl.Value
      → List (Saved fl.Value)
      → ℕ
      → Option (AvgContext fl.Value × List (Saved fl.Value))
  avg_read_context c io encver = load_double io λ val io1. load_double io1 λ cnt io2.
      if leb ts_overflow_rdb_ver encver
      then load_whole io2
          (λ flag io3. some (record { val = val; cnt = cnt; is_overflow = not (flag == 0) }, io3))
      else some (record { val = val; cnt = cnt; is_overflow = false }, io2)
