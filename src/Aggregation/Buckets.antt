-- ===== src/Aggregation/Buckets.antt =====
-- What a bucket of samples comes to: maximum, minimum and range.
use redis_time_series.Common.{
  ℕ, Bool, true, false, ◌≡◌, ◌⊎◌, inl, inr, refl, ap, ◌∙◌, some, List, [], ◌∷◌, if_both,
  if◌then◌else◌,
}
use redis_time_series.Floats.{Floats}
use redis_time_series.Aggregation.{append_all, bucket}
use redis_time_series.Aggregation.Extremes.{
  MaxMinContext, max_min_create_context, assign_if_greater, max_append_value, min_append_value,
  max_min_append_value, max_finalize, min_finalize, range_finalize,
}
use redis_time_series.Aggregation.Class.{agg_max_class, agg_min_class, agg_range_class}

-- The values that are compared by their size are those that a predicate holds of, as NaN is not.
pub record Ordered {V : Type 0} (N : V → Type 0) (beyond : V → V → Bool) : Type 0 where
  pub irreflexive : (a : V) → N a → beyond a a ≡ false
  pub asymmetric : (a b : V) → N a → N b → beyond a b ≡ true → beyond b a ≡ false
  pub transitive :
      (a b c : V) → N a → N b → N c → beyond a b ≡ false → beyond b c ≡ false → beyond a c ≡ false

module _ {V : Type 0} where
  abbrev pub AllOf : (V → Type 0) → List (V × ℕ) → Type 0
  AllOf P [] = Unit
  AllOf P (x ∷ xs) = P x.0 × AllOf P xs

  -- The start or the value of one of the samples.
  abbrev pub OneOf : V → List (V × ℕ) → V → Type 0
  OneOf start [] m = m ≡ start
  OneOf start (x ∷ xs) m = (m ≡ x.0) ⊎ OneOf start xs m

  -- No sample is beyond the value, and neither is the start, and it is one of them.
  pub record IsExtreme (beyond : V → V → Bool) (start : V) (xs : List (V × ℕ)) (m : V)
      : Type 0 where
    pub start_within : beyond m start ≡ false
    pub all_within : AllOf (λ v. beyond m v ≡ false) xs
    pub taken : OneOf start xs m

  OneOf-swap : (x y : V) (xs : List (V × ℕ)) (m : V) → OneOf x xs m → (m ≡ x) ⊎ OneOf y xs m
  OneOf-swap x y [] m e = inl e
  OneOf-swap x y (z ∷ xs) m (inl e) = inr (inl e)
  OneOf-swap x y (z ∷ xs) m (inr h) = elim (OneOf-swap x y xs m h) [
    | inl e ↦ inl e
    | inr i ↦ inr (inr i)
  ]

  -- The last value that was beyond all before it.
  unfoldable pub furthest : (V → V → Bool) → V → List (V × ℕ) → V
  furthest beyond m [] = m
  furthest beyond m (x ∷ xs) = furthest beyond (if beyond m x.0 then x.0 else m) xs

  module _ (N : V → Type 0) (beyond : V → V → Bool) (law : Ordered N beyond) where
    furthest-num : (m : V) (xs : List (V × ℕ)) → N m → AllOf N xs → N (furthest beyond m xs)
    unfolding furthest
    furthest-num m [] n ns = n
    furthest-num m (x ∷ xs) n ns =
        if_both (λ d. N (furthest beyond d xs)) (beyond m x.0) (λ _. furthest-num x.0 xs ns.0 ns.1)
          (λ _. furthest-num m xs n ns.1)

    furthest-IsExtreme :
        (m : V) (xs : List (V × ℕ))
        → N m
        → AllOf N xs
        → IsExtreme beyond m xs (furthest beyond m xs)
    unfolding furthest
    furthest-IsExtreme m [] n ns = record {
      start_within = law.irreflexive m n;
      all_within = tt;
      taken = refl;
    }
    furthest-IsExtreme m (x ∷ xs) n ns =
        if_both (λ d. IsExtreme beyond m (x ∷ xs) (furthest beyond d xs)) (beyond m x.0)
          (λ further.
            let ih = furthest-IsExtreme x.0 xs ns.0 ns.1 in
            let r = furthest beyond x.0 xs in
            record {
              start_within =
                  law.transitive r x.0 m (furthest-num x.0 xs ns.0 ns.1) ns.0 n ih.start_within
                    (law.asymmetric m x.0 n ns.0 further);
              all_within = (ih.start_within, ih.all_within);
              taken = OneOf-swap x.0 m xs r ih.taken;
            })
          (λ within.
            let ih = furthest-IsExtreme m xs n ns.1 in
            let r = furthest beyond m xs in
            record {
              start_within = ih.start_within;
              all_within = (
                law.transitive r m x.0 (furthest-num m xs n ns.1) n ns.0 ih.start_within within,
                ih.all_within,
              );
              taken = inr ih.taken;
            })

module _ (fl : Floats) where
  abbrev below : fl.Value → fl.Value → Bool
  below a b = fl.less b a

  abbrev pub highest : List (fl.Value × ℕ) → fl.Value
  highest xs = furthest fl.less fl.double_min xs

  abbrev pub lowest : List (fl.Value × ℕ) → fl.Value
  lowest xs = furthest below fl.dbl_max xs

  lowered :
      (c : MaxMinContext fl.Value) (v : fl.Value) (b : Bool)
      → ((if b then record c { min_value = v } else c).max_value ≡ c.max_value)
        × ((if b then record c { min_value = v } else c).min_value ≡ (if b then v else c.min_value))
  lowered c v true = (refl, refl)
  lowered c v false = (refl, refl)

  raised :
      (c : MaxMinContext fl.Value) (v : fl.Value) (b : Bool)
      → ((if b then record c { max_value = v } else c).min_value ≡ c.min_value)
        × ((if b then record c { max_value = v } else c).max_value ≡ (if b then v else c.max_value))
  raised c v true = (refl, refl)
  raised c v false = (refl, refl)

  max_min_append_value-both :
      (c : MaxMinContext fl.Value) (v : fl.Value) (ts : ℕ)
      → ((max_min_append_value fl c v ts).max_value
          ≡ (if fl.less c.max_value v then v else c.max_value))
        × ((max_min_append_value fl c v ts).min_value
            ≡ (if fl.less v c.min_value then v else c.min_value))
  unfolding max_min_append_value
  max_min_append_value-both c v ts =
      let r = if fl.less c.max_value v then record c { max_value = v } else c in
      let up = raised c v (fl.less c.max_value v) in
      let down = lowered r v (fl.less v r.min_value) in
      (down.0 ∙ up.1, down.1 ∙ ap (λ d. if fl.less v d then v else d) up.0)

  append_all-max_value :
      (c : MaxMinContext fl.Value) (xs : List (fl.Value × ℕ))
      → (append_all (agg_max_class fl) c xs).max_value ≡ furthest fl.less c.max_value xs
  unfolding append_all furthest max_append_value assign_if_greater
  append_all-max_value c [] = refl
  append_all-max_value c (x ∷ xs) = append_all-max_value (max_append_value fl c x.0 x.1) xs

  append_all-min_value :
      (c : MaxMinContext fl.Value) (xs : List (fl.Value × ℕ))
      → (append_all (agg_min_class fl) c xs).min_value ≡ furthest below c.min_value xs
  unfolding append_all furthest min_append_value
  append_all-min_value c [] = refl
  append_all-min_value c (x ∷ xs) =
      append_all-min_value (min_append_value fl c x.0 x.1) xs
      ∙ ap (λ d. furthest below d xs) (lowered c x.0 (fl.less x.0 c.min_value)).1

  append_all-range :
      (c : MaxMinContext fl.Value) (xs : List (fl.Value × ℕ))
      → ((append_all (agg_range_class fl) c xs).max_value ≡ furthest fl.less c.max_value xs)
        × ((append_all (agg_range_class fl) c xs).min_value ≡ furthest below c.min_value xs)
  unfolding append_all furthest
  append_all-range c [] = (refl, refl)
  append_all-range c (x ∷ xs) =
      let ih = append_all-range (max_min_append_value fl c x.0 x.1) xs in
      let one = max_min_append_value-both c x.0 x.1 in
      (ih.0 ∙ ap (λ d. furthest fl.less d xs) one.0, ih.1 ∙ ap (λ d. furthest below d xs) one.1)

  -- MAX of a bucket is `highest`, MIN is `lowest`, and RANGE is the difference of the two. Where the
  -- values of the samples and the two starting values are ordered by size, `highest` is the value of
  -- a sample or the start `double_min` and no sample is greater; the like holds of `lowest`.
  pub bucket-extremes :
      (N : fl.Value → Type 0) (xs : List (fl.Value × ℕ))
      → Ordered N fl.less
      → Ordered N (λ a b. fl.less b a)
      → N fl.double_min
      → N fl.dbl_max
      → AllOf N xs
      → (bucket (agg_max_class fl) xs ≡ some (highest xs))
        × (bucket (agg_min_class fl) xs ≡ some (lowest xs))
        × (bucket (agg_range_class fl) xs ≡ some (fl.sub (highest xs) (lowest xs)))
        × IsExtreme fl.less fl.double_min xs (highest xs)
        × IsExtreme (λ a b. fl.less b a) fl.dbl_max xs (lowest xs)
  unfolding bucket max_finalize min_finalize range_finalize max_min_create_context
  bucket-extremes N xs up down low high ns =
      let c = max_min_create_context fl false in
      let both = append_all-range c xs in
      (
        ap some (append_all-max_value c xs),
        ap some (append_all-min_value c xs),
        ap (λ a. some (fl.sub a (append_all (agg_range_class fl) c xs).min_value)) both.0
            ∙ ap (λ b. some (fl.sub (highest xs) b)) both.1,
        furthest-IsExtreme N fl.less up fl.double_min xs low ns,
        furthest-IsExtreme N (λ a b. fl.less b a) down fl.dbl_max xs high ns,
      )
