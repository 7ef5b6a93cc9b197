-- ===== src/Aggregation/Weighted.antt =====
-- The time weighted average (src/compaction.c).
use redis_time_series.Common.{
  ℕ, Bool, true, false, not, Option, some, List, [], ◌∷◌, ◌+◌, ◌-◌, ◌^◌, if◌then◌else◌, ltb, ◌==◌,
  sub64,
}
use redis_time_series.Floats.{Floats, Saved, saved_unsigned, saved_double, load_whole, load_double}

-- `DC`, for fields that are read only once they are set.
abbrev pub dc : ℕ
dc = 0

-- `res` is the area so far; the times are uint64_t.
pub record TwaContext (V : Type 0) : Type 0 where
  pub res : V
  pub prev_ts : ℕ
  pub prev_value : V
  pub bucket_start_ts : ℕ
  pub bucket_end_ts : ℕ
  pub first_ts : ℕ
  pub last_ts : ℕ
  pub is_first_bucket : Bool
  pub reverse : Bool
  pub iteration : ℕ

abbrev whole : Bool → ℕ
whole b = if b then 1 else 0

-- `llabs((int64_t)(a - b))`
abbrev distance : ℕ → ℕ → ℕ
distance a b = let d = sub64 a b in if ltb d (2 ^ 63) then d else 2 ^ 64 - d

module _ (fl : Floats) where
  unfoldable pub twa_init_context : Bool → TwaContext fl.Value
  twa_init_context reverse = record {
    res = fl.num 0;
    prev_ts = dc;
    prev_value = fl.num dc;
    bucket_start_ts = dc;
    bucket_end_ts = dc;
    first_ts = dc;
    last_ts = dc;
    is_first_bucket = true;
    reverse = reverse;
    iteration = 0;
  }

  unfoldable pub twa_create_context : Bool → TwaContext fl.Value
  twa_create_context reverse = twa_init_context reverse

  unfoldable pub update_twa_context : TwaContext fl.Value → fl.Value → ℕ → TwaContext fl.Value
  update_twa_context c value ts = record c { prev_value = value; prev_ts = ts }

  unfoldable pub twa_add_bucket_params : TwaContext fl.Value → ℕ → ℕ → TwaContext fl.Value
  twa_add_bucket_params c bucket_start_ts bucket_end_ts =
      if c.reverse
      then record c { bucket_start_ts = bucket_end_ts; bucket_end_ts = bucket_start_ts }
      else record c { bucket_start_ts = bucket_start_ts; bucket_end_ts = bucket_end_ts }

  unfoldable pub twa_add_prev_bucket_last_sample :
      TwaContext fl.Value → fl.Value → ℕ → TwaContext fl.Value
  twa_add_prev_bucket_last_sample c value ts = record (update_twa_context c value ts) {
    is_first_bucket = false;
  }

  -- `((u + v) * (b - a)) / 2.0`
  unfoldable pub trapezoid : fl.Value → fl.Value → ℕ → ℕ → fl.Value
  trapezoid u v a b = fl.div (fl.mul (fl.add u v) (fl.num (sub64 b a))) (fl.num 2)

  -- The value at `t` on the line from `(t1, v1)` to `(t2, v2)`.
  unfoldable pub interpolated : fl.Value → fl.Value → ℕ → ℕ → ℕ → fl.Value
  interpolated v1 v2 t1 t2 t =
      fl.add v1 (fl.div (fl.mul (fl.num (sub64 t t1)) (fl.sub v2 v1)) (fl.num (sub64 t2 t1)))

  -- The area that a new sample adds, and the bucket's first time after it.
  unfoldable pub first_area : TwaContext fl.Value → fl.Value → ℕ → fl.Value × ℕ
  first_area c value ts =
      let t1 = if c.reverse then ts else c.prev_ts in
      let t2 = if c.reverse then c.prev_ts else ts in
      let v1 = if c.reverse then value else c.prev_value in
      let v2 = if c.reverse then c.prev_value else value in
      let ta = c.bucket_start_ts in
      let vab = interpolated v1 v2 t1 t2 ta in
      if c.iteration == 0
      then if c.is_first_bucket
        then (c.res, ts)
        else if c.reverse
        then (fl.add c.res (trapezoid vab v1 t1 ta), ta)
        else (fl.add c.res (trapezoid vab v2 ta t2), ta)
      else (fl.add c.res (trapezoid v1 v2 t1 t2), c.first_ts)

  unfoldable pub twa_add_value : TwaContext fl.Value → fl.Value → ℕ → TwaContext fl.Value
  twa_add_value c value ts =
      let area = first_area c value ts in
      record c {
        res = area.0;
        first_ts = area.1;
        last_ts = ts;
        prev_ts = ts;
        prev_value = value;
        iteration = c.iteration + 1;
      }

  unfoldable pub twa_add_next_bucket_first_sample :
      TwaContext fl.Value → fl.Value → ℕ → TwaContext fl.Value
  twa_add_next_bucket_first_sample c value ts =
      let t1 = if c.reverse then ts else c.prev_ts in
      let t2 = if c.reverse then c.prev_ts else ts in
      let v1 = if c.reverse then value else c.prev_value in
      let v2 = if c.reverse then c.prev_value else value in
      let tb = c.bucket_end_ts in
      let vab = interpolated v1 v2 t1 t2 tb in
      let area = if c.reverse then trapezoid vab v2 tb t2 else trapezoid vab v1 t1 tb in
      record c { res = fl.add c.res area; last_ts = tb }

  unfoldable pub twa_finalize : TwaContext fl.Value → Option fl.Value
  twa_finalize c =
      if c.last_ts == c.first_ts
      then some c.prev_value
      else some (fl.div c.res (fl.num (distance c.last_ts c.first_ts)))

  unfoldable pub twa_get_last_sample : TwaContext fl.Value → ℕ × fl.Value
  twa_get_last_sample c = (c.prev_ts, c.prev_value)

  unfoldable pub twa_reset : TwaContext fl.Value → TwaContext fl.Value
  twa_reset c = twa_init_context c.reverse

  unfoldable pub twa_write_context : TwaContext fl.Value → List (Saved fl.Value)
  twa_write_context c =
      saved_double c.res
      ∷ saved_unsigned c.prev_ts
      ∷ saved_double c.prev_value
      ∷ saved_unsigned c.bucket_start_ts
      ∷ saved_unsigned c.bucket_end_ts
      ∷ saved_unsigned c.first_ts
      ∷ saved_unsigned c.last_ts
      ∷ saved_unsigned (whole c.is_first_bucket)
      ∷ saved_unsigned c.iteration
      ∷ saved_unsigned (whole c.reverse)
      ∷ []

  unfoldable pub twa_read_context :
      TwaContext fl.Value
      → List (Saved fl.Value)
      → ℕ
      → Option (TwaContext fl.Value × List (Saved fl.Value))
  twa_read_context c io encver = load_double io λ res io1. load_whole io1 λ prev_ts io2.
      load_double io2 λ prev_value io3. load_whole io3 λ bucket_start_ts io4.
        load_whole io4 λ bucket_end_ts io5. load_whole io5 λ first_ts io6.
          load_whole io6 λ last_ts io7. load_whole io7 λ is_first_bucket io8.
            load_whole io8 λ iteration io9. load_whole io9 λ reverse io10. some (
              record {
                res = res;
                prev_ts = prev_ts;
                prev_value = prev_value;
                bucket_start_ts = bucket_start_ts;
                bucket_end_ts = bucket_end_ts;
                first_ts = first_ts;
                last_ts = last_ts;
                is_first_bucket = not (is_first_bucket == 0);
                reverse = not (reverse == 0);
                iteration = iteration;
              },
              io10,
            )
