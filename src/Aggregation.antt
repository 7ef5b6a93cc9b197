-- ===== src/Aggregation.antt =====
-- The aggregations (src/compaction.c, src/compaction.h): what a rule or a query calls
-- (`AggregationClass`). A call that is NULL is `none`. `freeContext` and the vector call, which is
-- chosen at run time, are not here; a clone is the same context.
pub mod Single
pub mod Average
pub mod Weighted
pub mod Deviation
pub mod Extremes
pub mod Statistics
pub mod Class
pub mod Resetting
pub mod Saving
pub mod Buckets
pub mod Vector
pub mod Values
mod Tests
use mathlib.Core.List.{reverse}
use redis_time_series.Common.{ℕ, Bool, true, false, Option, some, none, List, [], ◌∷◌}
use redis_time_series.Names.{AggType}
use redis_time_series.Floats.{Saved}

-- `finalize` is `none` where an assertion fails, `read_context` where the stream is refused.
pub record AggregationClass (V : Type 0) : Type 1 where
  pub Context : Type 0
  pub agg_type : AggType
  pub create_context : Bool → Context
  pub append_value : Context → V → ℕ → Context
  pub reset_context : Context → Context
  pub write_context : Context → List (Saved V)
  pub read_context : Context → List (Saved V) → ℕ → Option (Context × List (Saved V))
  pub add_bucket_params : Option (Context → ℕ → ℕ → Context)
  pub add_prev_bucket_last_sample : Option (Context → V → ℕ → Context)
  pub add_next_bucket_first_sample : Option (Context → V → ℕ → Context)
  pub get_last_sample : Option (Context → ℕ × V)
  pub finalize : Context → Option V
  pub finalize_empty : Context → V

-- A caller's use of a context. The calls that may be NULL are made where they are there.
pub data Call (V : Type 0) : Type 0 where
  append : V → ℕ → Call V
  bucket_params : ℕ → ℕ → Call V
  prev_bucket : V → ℕ → Call V
  next_bucket : V → ℕ → Call V
  reset : Call V

abbrev pub if_there : {A B : Type 0} → Option B → (B → A) → A → A
if_there none run other = other
if_there (some f) run other = run f

module _ {V : Type 0} (cls : AggregationClass V) where
  unfoldable pub make_call : cls.Context → Call V → cls.Context
  make_call c (append value ts) = cls.append_value c value ts
  make_call c (bucket_params a b) = if_there cls.add_bucket_params (λ f. f c a b) c
  make_call c (prev_bucket value ts) =
      if_there cls.add_prev_bucket_last_sample (λ f. f c value ts) c
  make_call c (next_bucket value ts) =
      if_there cls.add_next_bucket_first_sample (λ f. f c value ts) c
  make_call c reset = cls.reset_context c

  unfoldable pub make_calls : cls.Context → List (Call V) → cls.Context
  make_calls c [] = c
  make_calls c (call ∷ calls) = make_calls (make_call c call) calls

  unfoldable pub append_all : cls.Context → List (V × ℕ) → cls.Context
  append_all c [] = c
  append_all c (x ∷ xs) = append_all (cls.append_value c x.0 x.1) xs

  -- What a bucket of these samples comes to, which are given from the oldest on.
  unfoldable pub bucket : List (V × ℕ) → Option V
  bucket xs = cls.finalize (append_all (cls.create_context false) xs)

  -- The same bucket in a query in reverse, where the samples are given from the newest on.
  unfoldable pub bucket_reverse : List (V × ℕ) → Option V
  bucket_reverse xs = cls.finalize (append_all (cls.create_context true) (reverse xs))
