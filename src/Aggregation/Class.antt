-- ===== src/Aggregation/Class.antt =====
-- The tables of the other aggregations, and `GetAggClass` (src/compaction.c).
use redis_time_series.Common.{Option, some, none}
use redis_time_series.Names.{
  AggType, agg_invalid, agg_none, agg_min, agg_max, agg_sum, agg_avg, agg_count, agg_first,
  agg_last, agg_range, agg_std_p, agg_std_s, agg_var_p, agg_var_s, agg_twa, agg_types_max,
}
use redis_time_series.Floats.{Floats}
use redis_time_series.Aggregation.{AggregationClass}
use redis_time_series.Aggregation.Single.{
  SingleValueContext, finalize_empty_with_nan, finalize_empty_with_zero, finalize_empty_last_value,
  single_value_create_context, single_value_reset, last_value_reset, single_value_finalize,
  single_value_write_context, single_value_read_context, FirstValueContext,
  first_value_create_context, first_value_reset, first_value_finalize, first_value_write_context,
  first_value_read_context, sum_append_value, count_append_value, count_finalize,
  first_append_value, last_append_value,
}
use redis_time_series.Aggregation.Extremes.{
  MaxMinContext, max_min_create_context, max_min_reset, max_min_write_context, max_min_read_context,
  max_append_value, min_append_value, max_min_append_value, max_finalize, min_finalize,
  range_finalize,
}
use redis_time_series.Aggregation.Statistics.{
  agg_w_avg_class, agg_avg_class, agg_std_p_class, agg_std_s_class, agg_var_p_class,
  agg_var_s_class,
}

module _ (fl : Floats) where
  abbrev pub agg_max_class : AggregationClass fl.Value
  agg_max_class = record {
    Context = MaxMinContext fl.Value;
    agg_type = agg_max;
    create_context = max_min_create_context fl;
    append_value = max_append_value fl;
    reset_context = max_min_reset fl;
    write_context = max_min_write_context fl;
    read_context = max_min_read_context fl;
    add_bucket_params = none;
    add_prev_bucket_last_sample = none;
    add_next_bucket_first_sample = none;
    get_last_sample = none;
    finalize = max_finalize fl;
    finalize_empty = finalize_empty_with_nan fl;
  }

  abbrev pub agg_min_class : AggregationClass fl.Value
  agg_min_class = record {
    Context = MaxMinContext fl.Value;
    agg_type = agg_min;
    create_context = max_min_create_context fl;
    append_value = min_append_value fl;
    reset_context = max_min_reset fl;
    write_context = max_min_write_context fl;
    read_context = max_min_read_context fl;
    add_bucket_params = none;
    add_prev_bucket_last_sample = none;
    add_next_bucket_first_sample = none;
    get_last_sample = none;
    finalize = min_finalize fl;
    finalize_empty = finalize_empty_with_nan fl;
  }

  abbrev pub agg_sum_class : AggregationClass fl.Value
  agg_sum_class = record {
    Context = SingleValueContext fl.Value;
    agg_type = agg_sum;
    create_context = single_value_create_context fl;
    append_value = sum_append_value fl;
    reset_context = single_value_reset fl;
    write_context = single_value_write_context fl;
    read_context = single_value_read_context fl;
    add_bucket_params = none;
    add_prev_bucket_last_sample = none;
    add_next_bucket_first_sample = none;
    get_last_sample = none;
    finalize = single_value_finalize fl;
    finalize_empty = finalize_empty_with_zero fl;
  }

  abbrev pub agg_count_class : AggregationClass fl.Value
  agg_count_class = record {
    Context = SingleValueContext fl.Value;
    agg_type = agg_count;
    create_context = single_value_create_context fl;
    append_value = count_append_value fl;
    reset_context = single_value_reset fl;
    write_context = single_value_write_context fl;
    read_context = single_value_read_context fl;
    add_bucket_params = none;
    add_prev_bucket_last_sample = none;
    add_next_bucket_first_sample = none;
    get_last_sample = none;
    finalize = count_finalize fl;
    finalize_empty = finalize_empty_with_zero fl;
  }

  abbrev pub agg_first_class : AggregationClass fl.Value
  agg_first_class = record {
    Context = FirstValueContext fl.Value;
    agg_type = agg_first;
    create_context = first_value_create_context fl;
    append_value = first_append_value fl;
    reset_context = first_value_reset fl;
    write_context = first_value_write_context fl;
    read_context = first_value_read_context fl;
    add_bucket_params = none;
    add_prev_bucket_last_sample = none;
    add_next_bucket_first_sample = none;
    get_last_sample = none;
    finalize = first_value_finalize fl;
    finalize_empty = finalize_empty_with_nan fl;
  }

  abbrev pub agg_last_class : AggregationClass fl.Value
  agg_last_class = record {
    Context = SingleValueContext fl.Value;
    agg_type = agg_last;
    create_context = single_value_create_context fl;
    append_value = last_append_value fl;
    reset_context = last_value_reset fl;
    write_context = single_value_write_context fl;
    read_context = single_value_read_context fl;
    add_bucket_params = none;
    add_prev_bucket_last_sample = none;
    add_next_bucket_first_sample = none;
    get_last_sample = none;
    finalize = single_value_finalize fl;
    finalize_empty = finalize_empty_last_value fl;
  }

  abbrev pub agg_range_class : AggregationClass fl.Value
  agg_range_class = record {
    Context = MaxMinContext fl.Value;
    agg_type = agg_range;
    create_context = max_min_create_context fl;
    append_value = max_min_append_value fl;
    reset_context = max_min_reset fl;
    write_context = max_min_write_context fl;
    read_context = max_min_read_context fl;
    add_bucket_params = none;
    add_prev_bucket_last_sample = none;
    add_next_bucket_first_sample = none;
    get_last_sample = none;
    finalize = range_finalize fl;
    finalize_empty = finalize_empty_with_nan fl;
  }

  unfoldable pub get_agg_class : AggType → Option (AggregationClass fl.Value)
  get_agg_class agg_min = some agg_min_class
  get_agg_class agg_max = some agg_max_class
  get_agg_class agg_avg = some (agg_avg_class fl)
  get_agg_class agg_twa = some (agg_w_avg_class fl)
  get_agg_class agg_std_p = some (agg_std_p_class fl)
  get_agg_class agg_std_s = some (agg_std_s_class fl)
  get_agg_class agg_var_p = some (agg_var_p_class fl)
  get_agg_class agg_var_s = some (agg_var_s_class fl)
  get_agg_class agg_sum = some agg_sum_class
  get_agg_class agg_count = some agg_count_class
  get_agg_class agg_first = some agg_first_class
  get_agg_class agg_last = some agg_last_class
  get_agg_class agg_range = some agg_range_class
  get_agg_class agg_none = none
  get_agg_class agg_invalid = none
  get_agg_class agg_types_max = none
