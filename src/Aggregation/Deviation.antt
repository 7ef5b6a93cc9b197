-- ===== src/Aggregation/Deviation.antt =====
-- Variance and standard deviation (src/compaction.c).
use redis_time_series.Common.{
  ℕ, Bool, Option, some, none, List, [], ◌∷◌, ◌-◌, add64, if◌then◌else◌, ◌==◌,
}
use redis_time_series.Floats.{Floats, Saved, saved_unsigned, saved_double, load_whole, load_double}

pub record StdContext (V : Type 0) : Type 0 where
  pub sum : V
  pub sum_2 : V
  pub cnt : ℕ

module _ (fl : Floats) where
  unfoldable pub std_create_context : Bool → StdContext fl.Value
  std_create_context reverse = record { sum = fl.num 0; sum_2 = fl.num 0; cnt = 0 }

  unfoldable pub std_add_value : StdContext fl.Value → fl.Value → ℕ → StdContext fl.Value
  std_add_value c value ts = record {
    sum = fl.add c.sum value;
    sum_2 = fl.add c.sum_2 (fl.mul value value);
    cnt = add64 c.cnt 1;
  }

  unfoldable pub variance : fl.Value → fl.Value → fl.Value → fl.Value
  variance sum sum_2 count =
      if fl.equal count (fl.num 0)
      then fl.num 0
      else let square = fl.mul (fl.pow (fl.div sum count) (fl.num 2)) count in
        let cross = fl.div (fl.mul (fl.mul (fl.num 2) sum) sum) count in
        fl.div (fl.add (fl.sub sum_2 cross) square) count

  -- `none` is the assertion that fails, here and below.
  unfoldable pub var_population_finalize : StdContext fl.Value → Option fl.Value
  var_population_finalize c =
      if c.cnt == 0 then none else some (variance c.sum c.sum_2 (fl.num c.cnt))

  unfoldable pub var_samples_finalize : StdContext fl.Value → Option fl.Value
  var_samples_finalize c =
      if c.cnt == 0
      then none
      else if c.cnt == 1
      then some (fl.num 0)
      else let v = variance c.sum c.sum_2 (fl.num c.cnt) in
        some (fl.div (fl.mul v (fl.num c.cnt)) (fl.num (c.cnt - 1)))

  abbrev root : Option fl.Value → Option fl.Value
  root none = none
  root (some v) = some (fl.sqrt v)

  unfoldable pub std_population_finalize : StdContext fl.Value → Option fl.Value
  std_population_finalize c = root (var_population_finalize c)

  unfoldable pub std_samples_finalize : StdContext fl.Value → Option fl.Value
  std_samples_finalize c = root (var_samples_finalize c)

  unfoldable pub std_reset : StdContext fl.Value → StdContext fl.Value
  std_reset c = record { sum = fl.num 0; sum_2 = fl.num 0; cnt = 0 }

  unfoldable pub std_write_context : StdContext fl.Value → List (Saved fl.Value)
  std_write_context c = saved_double c.sum ∷ saved_double c.sum_2 ∷ saved_unsigned c.cnt ∷ []

  unfoldable pub std_read_context :
      StdContext fl.Value
      → List (Saved fl.Value)
      → ℕ
      → Option (StdContext fl.Value × List (Saved fl.Value))
  std_read_context c io encver = load_double io λ sum io1. load_double io1 λ sum_2 io2.
      load_whole io2 λ cnt io3. some (record { sum = sum; sum_2 = sum_2; cnt = cnt }, io3)
