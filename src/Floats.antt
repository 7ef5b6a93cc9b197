-- ===== src/Floats.antt =====
-- The machine's doubles, which the aggregations calculate with: the C operations that they use
-- (<math.h>, <float.h>), and a stream of saved numbers (`RedisModule_SaveDouble`,
-- `RedisModule_SaveUnsigned`, and the loads of src/load_io_error_macros.h, of which one that fails and
-- jumps to `err` is `none`).
use redis_time_series.Common.{ℕ, Bool, Option, none, List, [], ◌∷◌}

pub record Floats : Type 1 where
  pub Value : Type 0
  -- The conversion of a whole number.
  pub num : ℕ → Value
  pub add : Value → Value → Value
  pub sub : Value → Value → Value
  pub mul : Value → Value → Value
  pub div : Value → Value → Value
  pub pow : Value → Value → Value
  pub fabs : Value → Value
  pub sqrt : Value → Value
  pub less : Value → Value → Bool
  pub equal : Value → Value → Bool
  pub nan : Value
  pub dbl_max : Value
  -- `((double)-1.0) * DBL_MAX`
  pub double_min : Value
  -- `long double`
  pub Long : Type 0
  pub widen : Value → Long
  pub narrow : Long → Value
  pub long_add : Long → Long → Long
  pub long_mul : Long → Long → Long
  pub long_div : Long → Long → Long
  -- `sizeof(long double) > 8`
  pub has_long_double : Bool

pub data Saved (V : Type 0) : Type 0 where
  saved_unsigned : ℕ → Saved V
  saved_double : V → Saved V

module _ {V : Type 0} where
  -- `LoadUnsigned_IOError(io, goto err)`, with what follows it.
  unfoldable pub load_whole :
      {B : Type 0} → List (Saved V) → (ℕ → List (Saved V) → Option B) → Option B
  load_whole [] next = none
  load_whole (saved_unsigned n ∷ rest) next = next n rest
  load_whole (saved_double v ∷ rest) next = none

  -- `LoadDouble_IOError(io, goto err)`, with what follows it.
  unfoldable pub load_double :
      {B : Type 0} → List (Saved V) → (V → List (Saved V) → Option B) → Option B
  load_double [] next = none
  load_double (saved_unsigned n ∷ rest) next = none
  load_double (saved_double v ∷ rest) next = next v rest
