-- ===== src/Gorilla.antt =====
-- The state of the compressed chunk and of its iterator (src/gorilla.h). The children hold the bit
-- array, the encoder, the decoder, and what is proved of them.
pub mod Bins
pub mod Append
pub mod Read
pub mod Stream
pub mod AppendBits
pub mod BitsRoundTrip
pub mod Signed
pub mod Packed
pub mod ReadDelta
pub mod ReadValue
pub mod AppendDelta
pub mod AppendValue
pub mod AppendBlock
pub mod ZeroBits
pub mod Samples
pub mod Fields
pub mod Extending
pub mod Appending
pub mod Iterating
mod Tests
use redis_time_series.Common.{ℕ, List}

-- `data` is the array of 64-bit bins, `size` its length in bytes, `idx` the first free bit. The
-- doubles `base_value` and `prev_value` are kept as their bit patterns (`union64bits`), and
-- `prev_timestamp_delta`, an int64, as its two's complement word.
pub record CompressedChunk : Type 0 where
  pub size : ℕ
  pub count : ℕ
  pub idx : ℕ
  pub base_value : ℕ
  pub base_timestamp : ℕ
  pub bins : List ℕ
  pub prev_timestamp : ℕ
  pub prev_timestamp_delta : ℕ
  pub prev_value : ℕ
  pub prev_leading : ℕ
  pub prev_trailing : ℕ

-- The iterator's pointer to its chunk is an argument of the functions that read through it.
pub record CompressedIterator : Type 0 where
  pub idx : ℕ
  pub count : ℕ
  pub prev_ts : ℕ
  pub prev_delta : ℕ
  pub prev_value : ℕ
  pub leading : ℕ
  pub trailing : ℕ
  pub block_size : ℕ
