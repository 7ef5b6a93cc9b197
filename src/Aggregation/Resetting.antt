-- ===== src/Aggregation/Resetting.antt =====
-- A context that is reset, against a new one.
use redis_time_series.Common.{
  if_both, Bool, ◌≡◌, ◌≢◌, refl, ap, ◌∙◌, Option, some, none, List, [], ◌∷◌,
}
use mathlib.Core.Path.{subst}
use redis_time_series.Names.{
  AggType, agg_invalid, agg_none, agg_min, agg_max, agg_sum, agg_avg, agg_count, agg_first,
  agg_last, agg_range, agg_std_p, agg_std_s, agg_var_p, agg_var_s, agg_twa, agg_types_max,
}
use redis_time_series.Floats.{Floats}
use redis_time_series.Aggregation.{
  AggregationClass, Call, append, bucket_params, prev_bucket, next_bucket, reset, make_call,
  make_calls,
}
use redis_time_series.Aggregation.Weighted.{
  TwaContext, twa_create_context, twa_init_context, twa_add_value, twa_reset, twa_add_bucket_params,
  twa_add_prev_bucket_last_sample, twa_add_next_bucket_first_sample, update_twa_context,
}
use redis_time_series.Aggregation.Single.{
  SingleValueContext, FirstValueContext, single_value_create_context, single_value_reset,
  first_value_create_context, first_value_reset,
}
use redis_time_series.Aggregation.Average.{avg_create_context, avg_reset}
use redis_time_series.Aggregation.Deviation.{StdContext, std_create_context, std_reset}
use redis_time_series.Aggregation.Extremes.{MaxMinContext, max_min_create_context, max_min_reset}
use redis_time_series.Aggregation.Statistics.{agg_w_avg_class, agg_avg_class}
use redis_time_series.Aggregation.Class.{get_agg_class}

module _ (fl : Floats) where
  -- No call changes the direction of a time weighted average.
  make_call-reverse :
      (c : TwaContext fl.Value) (call : Call fl.Value)
      → (make_call (agg_w_avg_class fl) c call).reverse ≡ c.reverse
  unfolding make_call twa_add_value twa_reset twa_init_context twa_add_bucket_params
      twa_add_prev_bucket_last_sample twa_add_next_bucket_first_sample update_twa_context
  make_call-reverse c (append value ts) = refl
  make_call-reverse c (bucket_params a b) =
      if_both (λ (d : TwaContext fl.Value). d.reverse ≡ c.reverse) c.reverse (λ _. refl) (λ _. refl)
  make_call-reverse c (prev_bucket value ts) = refl
  make_call-reverse c (next_bucket value ts) = refl
  make_call-reverse c reset = refl

  make_calls-reverse :
      (c : TwaContext fl.Value) (calls : List (Call fl.Value))
      → (make_calls (agg_w_avg_class fl) c calls).reverse ≡ c.reverse
  unfolding make_calls
  make_calls-reverse c [] = refl
  make_calls-reverse c (call ∷ calls) =
      make_calls-reverse (make_call (agg_w_avg_class fl) c call) calls ∙ make_call-reverse c call

  Fresh : AggregationClass fl.Value → Type 0
  Fresh cls =
      (reverse : Bool) (calls : List (Call fl.Value))
      → cls.reset_context (make_calls cls (cls.create_context reverse) calls)
        ≡ cls.create_context reverse

  twa_Fresh : Fresh (agg_w_avg_class fl)
  unfolding Fresh twa_reset twa_create_context twa_init_context
  twa_Fresh reverse calls =
      ap (twa_init_context fl) (make_calls-reverse (twa_create_context fl reverse) calls)

  avg_Fresh : Fresh (agg_avg_class fl)
  unfolding Fresh avg_create_context avg_reset
  avg_Fresh reverse calls = refl

  std_Fresh :
      (reverse : Bool) (c : StdContext fl.Value) → std_reset fl c ≡ std_create_context fl reverse
  unfolding std_reset std_create_context
  std_Fresh reverse c = refl

  max_min_Fresh :
      (reverse : Bool) (c : MaxMinContext fl.Value)
      → max_min_reset fl c ≡ max_min_create_context fl reverse
  unfolding max_min_reset max_min_create_context
  max_min_Fresh reverse c = refl

  single_Fresh :
      (reverse : Bool) (c : SingleValueContext fl.Value)
      → single_value_reset fl c ≡ single_value_create_context fl reverse
  unfolding single_value_reset single_value_create_context
  single_Fresh reverse c = refl

  first_Fresh :
      (reverse : Bool) (c : FirstValueContext fl.Value)
      → first_value_reset fl c ≡ first_value_create_context fl reverse
  unfolding first_value_reset first_value_create_context
  first_Fresh reverse c = refl

  abbrev FreshOrLast : AggType → Option (AggregationClass fl.Value) → Type 0
  FreshOrLast t none = Unit
  FreshOrLast t (some cls) = t ≢ agg_last → Fresh cls

  fresh_class : (t : AggType) → FreshOrLast t (get_agg_class fl t)
  unfolding Fresh get_agg_class
  fresh_class agg_min = λ ok reverse calls. max_min_Fresh reverse _
  fresh_class agg_max = λ ok reverse calls. max_min_Fresh reverse _
  fresh_class agg_range = λ ok reverse calls. max_min_Fresh reverse _
  fresh_class agg_sum = λ ok reverse calls. single_Fresh reverse _
  fresh_class agg_count = λ ok reverse calls. single_Fresh reverse _
  fresh_class agg_avg = λ ok. avg_Fresh
  fresh_class agg_first = λ ok reverse calls. first_Fresh reverse _
  fresh_class agg_last = λ ok. absurd (ok refl)
  fresh_class agg_std_p = λ ok reverse calls. std_Fresh reverse _
  fresh_class agg_std_s = λ ok reverse calls. std_Fresh reverse _
  fresh_class agg_var_p = λ ok reverse calls. std_Fresh reverse _
  fresh_class agg_var_s = λ ok reverse calls. std_Fresh reverse _
  fresh_class agg_twa = λ ok. twa_Fresh
  fresh_class agg_none = tt
  fresh_class agg_invalid = tt
  fresh_class agg_types_max = tt

  -- Whatever calls a context has had, once it is reset it is the context that was created, the
  -- direction included. This holds for each aggregation but LAST.
  pub reset_context-create_context :
      (t : AggType) (cls : AggregationClass fl.Value) (reverse : Bool)
      (calls : List (Call fl.Value))
      → t ≢ agg_last
      → get_agg_class fl t ≡ some cls
      → cls.reset_context (make_calls cls (cls.create_context reverse) calls)
        ≡ cls.create_context reverse
  unfolding Fresh
  reset_context-create_context t cls reverse calls ok e =
      subst (FreshOrLast t) e (fresh_class t) ok reverse calls
