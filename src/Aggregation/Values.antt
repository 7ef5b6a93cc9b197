-- ===== src/Aggregation/Values.antt =====
-- What a bucket of samples comes to: first, last and average.
use mathlib.Core.List.{reverse, reverse-append, reverse-cons}
use redis_time_series.Common.{ℕ, true, false, ◌≡◌, refl, ap, some, List, [], ◌∷◌, ◌++◌}
use redis_time_series.Floats.{Floats}
use redis_time_series.Aggregation.{append_all, bucket, bucket_reverse}
use redis_time_series.Aggregation.Single.{
  SingleValueContext, FirstValueContext, first_append_value, last_append_value,
  first_value_create_context, single_value_create_context, first_value_finalize,
  single_value_finalize, sum_append_value, count_append_value, count_finalize,
}
use redis_time_series.Aggregation.Average.{
  avg_add_value, avg_create_context, avg_init_context, avg_finalize, sum_overflows,
}
use redis_time_series.Aggregation.Statistics.{agg_avg_class}
use redis_time_series.Aggregation.Class.{
  agg_first_class, agg_last_class, agg_sum_class, agg_count_class,
}

module _ (fl : Floats) where
  kept_first :
      (v : fl.Value) (xs : List (fl.Value × ℕ))
      → append_all (agg_first_class fl) (record { value = v; is_resetted = false }) xs
        ≡ record { value = v; is_resetted = false }
  unfolding append_all first_append_value
  kept_first v [] = refl
  kept_first v (x ∷ xs) = kept_first v xs

  ended_last :
      (c : SingleValueContext fl.Value) (xs : List (fl.Value × ℕ)) (x : fl.Value × ℕ)
      → (append_all (agg_last_class fl) c (xs ++ (x ∷ []))).value ≡ x.0
  unfolding append_all last_append_value
  ended_last c [] x = refl
  ended_last c (y ∷ xs) x = ended_last (last_append_value fl c y.0 y.1) xs x

  -- For a list of samples from the oldest to the newest: FIRST of a bucket is the value of its oldest
  -- sample, LAST that of its newest. In a query in reverse, which gives the samples from the newest on,
  -- FIRST is the value of the newest sample and LAST that of the oldest.
  pub bucket-ends :
      (x : fl.Value × ℕ) (xs : List (fl.Value × ℕ))
      → (bucket (agg_first_class fl) (x ∷ xs) ≡ some x.0)
        × (bucket (agg_last_class fl) (xs ++ (x ∷ [])) ≡ some x.0)
        × (bucket_reverse (agg_first_class fl) (xs ++ (x ∷ [])) ≡ some x.0)
        × (bucket_reverse (agg_last_class fl) (x ∷ xs) ≡ some x.0)
  unfolding bucket bucket_reverse append_all first_append_value first_value_create_context
      first_value_finalize single_value_finalize
  bucket-ends x xs = (
    ap (λ (c : FirstValueContext fl.Value). some c.value) (kept_first x.0 xs),
    ap some (ended_last (single_value_create_context fl false) xs x),
    rw (reverse-append xs (x ∷ []))
        (ap (λ (c : FirstValueContext fl.Value). some c.value) (kept_first x.0 (reverse xs))),
    rw (reverse-cons x xs)
        (ap some (ended_last (single_value_create_context fl true) (reverse xs) x)),
  )

  -- The sum, from `s` on, of samples none of which makes it overflow.
  abbrev pub StaysFinite : fl.Value → List (fl.Value × ℕ) → Type 0
  StaysFinite s [] = Unit
  StaysFinite s (x ∷ xs) = (sum_overflows fl s x.0 ≡ false) × StaysFinite (fl.add s x.0) xs

  summed :
      (s n : fl.Value) (xs : List (fl.Value × ℕ))
      → StaysFinite s xs
      → append_all (agg_avg_class fl) (record { val = s; cnt = n; is_overflow = false }) xs
        ≡ record {
          val = (append_all (agg_sum_class fl) (record { value = s }) xs).value;
          cnt = (append_all (agg_count_class fl) (record { value = n }) xs).value;
          is_overflow = false;
        }
  unfolding append_all avg_add_value sum_append_value count_append_value
  summed s n [] ok = refl
  summed s n (x ∷ xs) ok = rw ok.0 (summed (fl.add s x.0) (fl.add n (fl.num 1)) xs ok.1)

  -- AVG of a bucket whose sum does not overflow is the bucket's SUM divided by its COUNT, where that
  -- is more than zero.
  pub bucket-average :
      (xs : List (fl.Value × ℕ)) (s n : fl.Value)
      → bucket (agg_sum_class fl) xs ≡ some s
      → bucket (agg_count_class fl) xs ≡ some n
      → fl.less (fl.num 0) n ≡ true
      → StaysFinite (fl.num 0) xs
      → bucket (agg_avg_class fl) xs ≡ some (fl.div s n)
  unfolding bucket avg_finalize avg_create_context avg_init_context single_value_create_context
      single_value_finalize count_finalize
  bucket-average xs s n e1 e2 more ok =
      let sum : (append_all (agg_sum_class fl) (record { value = fl.num 0 }) xs).value ≡ s = cc in
      let cnt : (append_all (agg_count_class fl) (record { value = fl.num 0 }) xs).value ≡ n = cc in
      rw (summed (fl.num 0) (fl.num 0) xs ok, sum, cnt, more) refl
