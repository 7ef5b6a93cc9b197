-- ===== src/Aggregation/Statistics.antt =====
-- The tables of the averages and the deviations (src/compaction.c).
use redis_time_series.Common.{some, none}
use redis_time_series.Names.{agg_avg, agg_std_p, agg_std_s, agg_var_p, agg_var_s, agg_twa}
use redis_time_series.Floats.{Floats}
use redis_time_series.Aggregation.{AggregationClass}
use redis_time_series.Aggregation.Single.{finalize_empty_with_nan}
use redis_time_series.Aggregation.Average.{
  AvgContext, avg_create_context, avg_add_value, avg_finalize, avg_reset, avg_write_context,
  avg_read_context,
}
use redis_time_series.Aggregation.Weighted.{
  TwaContext, twa_create_context, twa_add_value, twa_finalize, twa_reset, twa_write_context,
  twa_read_context, twa_add_bucket_params, twa_add_prev_bucket_last_sample,
  twa_add_next_bucket_first_sample, twa_get_last_sample,
}
use redis_time_series.Aggregation.Deviation.{
  StdContext, std_create_context, std_add_value, std_reset, std_write_context, std_read_context,
  var_population_finalize, var_samples_finalize, std_population_finalize, std_samples_finalize,
}

module _ (fl : Floats) where
  abbrev pub agg_w_avg_class : AggregationClass fl.Value
  agg_w_avg_class = record {
    Context = TwaContext fl.Value;
    agg_type = agg_twa;
    create_context = twa_create_context fl;
    append_value = twa_add_value fl;
    reset_context = twa_reset fl;
    write_context = twa_write_context fl;
    read_context = twa_read_context fl;
    add_bucket_params = some (twa_add_bucket_params fl);
    add_prev_bucket_last_sample = some (twa_add_prev_bucket_last_sample fl);
    add_next_bucket_first_sample = some (twa_add_next_bucket_first_sample fl);
    get_last_sample = some (twa_get_last_sample fl);
    finalize = twa_finalize fl;
    finalize_empty = finalize_empty_with_nan fl;
  }

  abbrev pub agg_avg_class : AggregationClass fl.Value
  agg_avg_class = record {
    Context = AvgContext fl.Value;
    agg_type = agg_avg;
    create_context = avg_create_context fl;
    append_value = avg_add_value fl;
    reset_context = avg_reset fl;
    write_context = avg_write_context fl;
    read_context = avg_read_context fl;
    add_bucket_params = none;
    add_prev_bucket_last_sample = none;
    add_next_bucket_first_sample = none;
    get_last_sample = none;
    finalize = avg_finalize fl;
    finalize_empty = finalize_empty_with_nan fl;
  }

  abbrev pub agg_std_p_class : AggregationClass fl.Value
  agg_std_p_class = record {
    Context = StdContext fl.Value;
    agg_type = agg_std_p;
    create_context = std_create_context fl;
    append_value = std_add_value fl;
    reset_context = std_reset fl;
    write_context = std_write_context fl;
    read_context = std_read_context fl;
    add_bucket_params = none;
    add_prev_bucket_last_sample = none;
    add_next_bucket_first_sample = none;
    get_last_sample = none;
    finalize = std_population_finalize fl;
    finalize_empty = finalize_empty_with_nan fl;
  }

  abbrev pub agg_std_s_class : AggregationClass fl.Value
  agg_std_s_class = record {
    Context = StdContext fl.Value;
    agg_type = agg_std_s;
    create_context = std_create_context fl;
    append_value = std_add_value fl;
    reset_context = std_reset fl;
    write_context = std_write_context fl;
    read_context = std_read_context fl;
    add_bucket_params = none;
    add_prev_bucket_last_sample = none;
    add_next_bucket_first_sample = none;
    get_last_sample = none;
    finalize = std_samples_finalize fl;
    finalize_empty = finalize_empty_with_nan fl;
  }

  abbrev pub agg_var_p_class : AggregationClass fl.Value
  agg_var_p_class = record {
    Context = StdContext fl.Value;
    agg_type = agg_var_p;
    create_context = std_create_context fl;
    append_value = std_add_value fl;
    reset_context = std_reset fl;
    write_context = std_write_context fl;
    read_context = std_read_context fl;
    add_bucket_params = none;
    add_prev_bucket_last_sample = none;
    add_next_bucket_first_sample = none;
    get_last_sample = none;
    finalize = var_population_finalize fl;
    finalize_empty = finalize_empty_with_nan fl;
  }

  abbrev pub agg_var_s_class : AggregationClass fl.Value
  agg_var_s_class = record {
    Context = StdContext fl.Value;
    agg_type = agg_var_s;
    create_context = std_create_context fl;
    append_value = std_add_value fl;
    reset_context = std_reset fl;
    write_context = std_write_context fl;
    read_context = std_read_context fl;
    add_bucket_params = none;
    add_prev_bucket_last_sample = none;
    add_next_bucket_first_sample = none;
    get_last_sample = none;
    finalize = var_samples_finalize fl;
    finalize_empty = finalize_empty_with_nan fl;
  }
