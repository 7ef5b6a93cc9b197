-- ===== src/Aggregation/Tests.antt =====
-- Runs of the aggregations with whole numbers in place of doubles.
use redis_time_series.Common.{
  ℕ, ◌+◌, ◌-◌, ◌*◌, ◌/◌, ◌^◌, ◌≡◌, ◌≢◌, ◌<◌, length, refl, true, false, some, none, List, [], ◌∷◌,
  ◌++◌, ltb, ◌==◌, take, arith,
}
use redis_time_series.Names.{agg_twa, agg_last, agg_first}
use redis_time_series.Floats.{Floats, saved_unsigned}
use redis_time_series.Aggregation.{
  Call, append, bucket_params, prev_bucket, reset, make_calls, append_all, bucket, bucket_reverse,
}
use redis_time_series.Aggregation.Single.{
  FirstValueContext, first_value_read_context, first_value_write_context,
  first_value_create_context, single_value_create_context, single_value_finalize, sum_append_value,
  count_append_value, count_finalize,
}
use redis_time_series.Aggregation.Average.{sum_overflows}
use redis_time_series.Aggregation.Weighted.{twa_reset, twa_create_context}
use redis_time_series.Aggregation.Extremes.{MaxMinContext, max_append_values_vec}
use redis_time_series.Aggregation.Statistics.{agg_w_avg_class, agg_avg_class}
use redis_time_series.Aggregation.Class.{
  get_agg_class, agg_first_class, agg_last_class, agg_max_class, agg_min_class, agg_range_class,
  agg_sum_class, agg_count_class,
}
use redis_time_series.Aggregation.Resetting.{reset_context-create_context}
use redis_time_series.Aggregation.Saving.{read_context-write_context}
use redis_time_series.Aggregation.Buckets.{Ordered, IsExtreme, highest, lowest, bucket-extremes}
use redis_time_series.Aggregation.Vector.{max_append_values_vec-append_all}
use redis_time_series.Aggregation.Values.{bucket-ends, bucket-average}

abbrev nats : Floats
nats = record {
  Value = ℕ;
  num = λ n. n;
  add = λ a b. a + b;
  sub = λ a b. a - b;
  mul = λ a b. a * b;
  div = λ a b. a / b;
  pow = λ a b. a ^ b;
  fabs = λ a. a;
  sqrt = λ a. a;
  less = ltb;
  equal = λ a b. a == b;
  nan = 1001;
  dbl_max = 1000;
  double_min = 0;
  Long = ℕ;
  widen = λ a. a;
  narrow = λ a. a;
  long_add = λ a b. a + b;
  long_mul = λ a b. a * b;
  long_div = λ a b. a / b;
  has_long_double = true;
}

abbrev bucket_calls : List (Call ℕ)
bucket_calls =
    prev_bucket 3 90
    ∷ bucket_params 100 200
    ∷ append 7 120
    ∷ append 9 150
    ∷ reset
    ∷ append 1 210
    ∷ []

twa_class : get_agg_class nats agg_twa ≡ some (agg_w_avg_class nats)
unfolding get_agg_class
twa_class = refl

first_class : get_agg_class nats agg_first ≡ some (agg_first_class nats)
unfolding get_agg_class
first_class = refl

twa_not_last : agg_twa ≢ agg_last
twa_not_last e = absurd (cc)

reset_context-create_context_example :
    twa_reset nats (make_calls (agg_w_avg_class nats) (twa_create_context nats true) bucket_calls)
    ≡ twa_create_context nats true
reset_context-create_context_example =
    reset_context-create_context nats agg_twa (agg_w_avg_class nats) true bucket_calls twa_not_last
      twa_class

abbrev seven : FirstValueContext ℕ
seven = record { value = 7; is_resetted = false }

seven_short : 1 < length (first_value_write_context nats seven)
unfolding first_value_write_context
seven_short = omega arith

read_context-write_context_example :
    (first_value_read_context nats
        (first_value_create_context nats false)
        (first_value_write_context nats seven ++ (saved_unsigned 5 ∷ []))
        7
      ≡ some (seven, saved_unsigned 5 ∷ []))
    × (first_value_read_context nats
          (first_value_create_context nats false)
          (take 1 (first_value_write_context nats seven))
          7
        ≡ none)
read_context-write_context_example =
    read_context-write_context nats agg_first (agg_first_class nats) first_class
      (first_value_create_context nats false) seven (saved_unsigned 5 ∷ []) 7 1 (omega arith)
      seven_short

abbrev samples : List (ℕ × ℕ)
samples = (4, 10) ∷ (9, 20) ∷ (2, 30) ∷ []

ltb-Ordered : Ordered {V = ℕ} (λ _. Unit) ltb
ltb-Ordered = record {
  irreflexive = λ a _. ground arith;
  asymmetric = λ a b _ _ h. ground arith;
  transitive = λ a b c _ _ _ h k. ground arith;
}

above_Ordered : Ordered {V = ℕ} (λ _. Unit) (λ a b. ltb b a)
above_Ordered = record {
  irreflexive = λ a _. ground arith;
  asymmetric = λ a b _ _ h. ground arith;
  transitive = λ a b c _ _ _ h k. ground arith;
}

bucket-extremes_example :
    (bucket (agg_max_class nats) samples ≡ some (highest nats samples))
    × (bucket (agg_min_class nats) samples ≡ some (lowest nats samples))
    × (bucket (agg_range_class nats) samples ≡ some (highest nats samples - lowest nats samples))
    × IsExtreme ltb 0 samples (highest nats samples)
    × IsExtreme (λ a b. ltb b a) 1000 samples (lowest nats samples)
bucket-extremes_example =
    bucket-extremes nats (λ _. Unit) samples ltb-Ordered above_Ordered tt tt (tt, (tt, (tt, tt)))

abbrev high_five : MaxMinContext ℕ
high_five = record { min_value = 1000; max_value = 5 }

max_append_values_vec-append_all_example :
    max_append_values_vec nats high_five (99 ∷ 4 ∷ 9 ∷ 2 ∷ 77 ∷ []) 1 3
    ≡ some (append_all (agg_max_class nats) high_five samples)
max_append_values_vec-append_all_example =
    max_append_values_vec-append_all nats high_five (99 ∷ []) (4, 10) ((9, 20) ∷ (2, 30) ∷ [])
      (77 ∷ []) (omega arith)

bucket-ends_example :
    (bucket (agg_first_class nats) ((4, 10) ∷ samples) ≡ some 4)
    × (bucket (agg_last_class nats) (samples ++ ((4, 10) ∷ [])) ≡ some 4)
    × (bucket_reverse (agg_first_class nats) (samples ++ ((4, 10) ∷ [])) ≡ some 4)
    × (bucket_reverse (agg_last_class nats) ((4, 10) ∷ samples) ≡ some 4)
bucket-ends_example = bucket-ends nats (4, 10) samples

sum_fifteen : bucket (agg_sum_class nats) samples ≡ some 15
unfolding bucket append_all sum_append_value single_value_create_context single_value_finalize
sum_fifteen = refl

count_three : bucket (agg_count_class nats) samples ≡ some 3
unfolding bucket append_all count_append_value single_value_create_context count_finalize
count_three = refl

calm : (s v : ℕ) → ltb (1000 - v) s ≡ false → sum_overflows nats s v ≡ false
unfolding sum_overflows
calm s v h = rw h (ground arith)

bucket-average_example : bucket (agg_avg_class nats) samples ≡ some 5
bucket-average_example =
    bucket-average nats samples 15 3 sum_fifteen count_three refl
      (calm 0 4 refl, (calm 4 9 refl, (calm 13 2 refl, tt)))
