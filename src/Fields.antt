-- ===== src/Fields.antt =====
-- What a chunk's serialiser hands to the functions that it is given, in the order of the calls
-- (`SaveUnsignedFunc`, `SaveStringBufferFunc`), and the loader that takes the same from a stream. A
-- load that fails, which jumps to `err`, is `none`.
use redis_time_series.Common.{ℕ, Option, none, List, [], ◌∷◌}

-- A buffer is the array that it holds.
pub data Field (A : Type 0) : Type 0 where
  unsigned : ℕ → Field A
  string_buffer : List A → Field A

module _ {A : Type 0} where
  -- `LoadUnsigned_IOError(io, goto err)`, with what follows it.
  unfoldable pub load_unsigned :
      {B : Type 0} → List (Field A) → (ℕ → List (Field A) → Option B) → Option B
  load_unsigned [] next = none
  load_unsigned (unsigned n ∷ rest) next = next n rest
  load_unsigned (string_buffer xs ∷ rest) next = none

  unfoldable pub load_string_buffer :
      {B : Type 0} → List (Field A) → (List A → List (Field A) → Option B) → Option B
  load_string_buffer [] next = none
  load_string_buffer (unsigned n ∷ rest) next = none
  load_string_buffer (string_buffer xs ∷ rest) next = next xs rest
