-- ===== src/Aggregation/Vector.antt =====
-- The loop over a column of values (`MaxAppendValuesVec`) against one call for each.
use redis_time_series.Common.{
  some, ◌^◌, ◌<◌, lt→ltb, get_or-append, ℕ, suc, ◌+◌, ◌-◌, ◌≡◌, refl, ap, ◌∙◌, sym, List, [], ◌∷◌,
  ◌++◌, length, arith, length-append,
}
use redis_time_series.Floats.{Floats}
use redis_time_series.Aggregation.{append_all}
use redis_time_series.Aggregation.Extremes.{
  MaxMinContext, max_append_value, max_values, max_append_values_vec,
}
use redis_time_series.Aggregation.Class.{agg_max_class}

module _ {V : Type 0} where
  shift : (pre : List V) (v : V) (post : List V) → pre ++ (v ∷ post) ≡ (pre ++ (v ∷ [])) ++ post
  shift [] v post = refl
  shift (p ∷ pre) v post = ap (◌∷◌ p) (shift pre v post)

  abbrev pub values_of : List (V × ℕ) → List V
  values_of [] = []
  values_of (x ∷ xs) = x.0 ∷ values_of xs

module _ (fl : Floats) where
  max_values-append_all :
      (c : MaxMinContext fl.Value) (pre : List fl.Value) (xs : List (fl.Value × ℕ))
      (post : List fl.Value)
      → length pre + length xs < 2 ^ 31
      → max_values fl c (pre ++ (values_of xs ++ post)) (length pre) (length xs)
        ≡ some (append_all (agg_max_class fl) c xs)
  unfolding max_values append_all max_append_value
  max_values-append_all c pre [] post small = refl
  max_values-append_all c pre (x ∷ xs) post small =
      let next = max_append_value fl c x.0 x.1 in
      let tail = values_of xs ++ post in
      let here = pre ++ (x.0 ∷ []) in
      let n = length xs in
      let at = length-append pre (x.0 ∷ []) in
      let ih = max_values-append_all next here xs post (omega (arith, at, small)) in
      rw
        (
          lt→ltb (length pre) (2 ^ 31 - 1) (omega (arith, small)),
          get_or-append pre x.0 tail (fl.num 0),
        )
        (ap (λ l. max_values fl next l (length pre + 1) n) (shift pre x.0 tail)
          ∙ ap (λ i. max_values fl next (here ++ tail) i n) (sym at)
          ∙ ih)

  -- For a run of samples that ends at an index below 2 ^ 31 - 1: the loop of `MaxAppendValuesVec`
  -- over the column of their values, from the index of the first to that of the last, leaves the
  -- context as one call of `MaxAppendValue` for each of the samples does.
  pub max_append_values_vec-append_all :
      (c : MaxMinContext fl.Value) (pre : List fl.Value) (x : fl.Value × ℕ)
      (xs : List (fl.Value × ℕ)) (post : List fl.Value)
      → length pre + length xs < 2 ^ 31 - 1
      → max_append_values_vec fl c
          (pre ++ (values_of (x ∷ xs) ++ post))
          (length pre)
          (length pre + length xs)
        ≡ some (append_all (agg_max_class fl) c (x ∷ xs))
  unfolding max_append_values_vec
  max_append_values_vec-append_all c pre x xs post small =
      let n : length pre + length xs + 1 - length pre ≡ suc (length xs) = omega arith in
      rw n (max_values-append_all c pre (x ∷ xs) post (omega (arith, small)))
