-- ===== src/Gorilla/Tests.antt =====
-- Runs of the codec on small inputs, and the theorems of `Gorilla` at such inputs.
use redis_time_series.Common.{ℕ, ◌≡◌, refl, sub64, [], ◌∷◌, arith}
use redis_time_series.Generic.{Sample}
use redis_time_series.Gorilla.{CompressedChunk}
use redis_time_series.Gorilla.Bins.{
  int2bin, bin2int, append_bits, read_bits, zero_bits, bin_in_range,
}
use redis_time_series.Gorilla.Append.{append}
use redis_time_series.Gorilla.Samples.{Represents}
use redis_time_series.Gorilla.Stream.{stream}
use redis_time_series.Gorilla.Appending.{AppendOutcome, append-Represents}
use redis_time_series.Gorilla.Signed.{bin2int-int2bin}
use redis_time_series.Gorilla.BitsRoundTrip.{read_bits-append_bits, zero_bits-append_bits}

comment_example : int2bin (sub64 0 7) 10 ≡ 1017
unfolding int2bin
comment_example = refl

comment_example_back : bin2int 1017 10 ≡ sub64 0 7
unfolding bin2int
comment_example_back = refl

straddle : append_bits (0 ∷ 0 ∷ []) 60 0xab 8 ≡ 0xb000_0000_0000_0000 ∷ 0xa ∷ []
unfolding append_bits
straddle = refl

straddle_back : read_bits (0xb000_0000_0000_0000 ∷ 0xa ∷ []) 60 8 ≡ 0xab
unfolding read_bits
straddle_back = refl

bin2int-int2bin_example : bin2int (int2bin (sub64 0 7) 10) 10 ≡ sub64 0 7
unfolding bin_in_range
bin2int-int2bin_example =
    bin2int-int2bin (sub64 0 7) 10 (omega arith) (omega arith) (omega arith) refl

-- Eight bits across two bins, above 60 bits in use.
read_bits-append_bits_example :
    (read_bits (append_bits (5 ∷ 0 ∷ []) 60 0xab 8) 60 8 ≡ 0xab)
    × (read_bits (append_bits (5 ∷ 0 ∷ []) 60 0xab 8) 0 3 ≡ read_bits (5 ∷ 0 ∷ []) 0 3)
unfolding stream
read_bits-append_bits_example =
    read_bits-append_bits (5 ∷ 0 ∷ []) 60 0xab 8 0 3 (omega arith) (omega arith) (omega arith)
      (omega arith) (omega arith) (omega arith) (omega arith) (omega arith)

zero_bits-append_bits_example : zero_bits (append_bits (5 ∷ 0 ∷ []) 60 0xab 8) 16 60 68 ≡ 5 ∷ 0 ∷ []
unfolding stream
zero_bits-append_bits_example =
    zero_bits-append_bits (5 ∷ 0 ∷ []) 60 0xab 8 (omega arith) (omega arith) (omega arith)
      (omega arith) (omega arith) (omega arith) (omega arith)

-- A chunk of two bins that holds one sample.
abbrev one_sample : CompressedChunk
one_sample = record {
  size = 16;
  count = 1;
  idx = 0;
  base_value = 9;
  base_timestamp = 1000;
  bins = 0 ∷ 0 ∷ [];
  prev_timestamp = 1000;
  prev_timestamp_delta = 0;
  prev_value = 9;
  prev_leading = 32;
  prev_trailing = 32;
}

abbrev sample : ℕ → ℕ → Sample
sample t v = record { timestamp = t; value = v }

one_sample-Represents : Represents one_sample (sample 1000 9 ∷ [])
unfolding stream
one_sample-Represents = record {
  packed = omega arith;
  limits = omega arith;
  timestamp_word = omega arith;
  delta_word = omega arith;
  value_word = omega arith;
  first = refl;
  count = refl;
  sparse = omega arith;
  decodes = λ bins h goes_on. refl;
}

append-Represents_example :
    AppendOutcome one_sample (sample 1000 9 ∷ sample 1010 12 ∷ []) (append one_sample 1010 12)
append-Represents_example =
    append-Represents one_sample (sample 1000 9 ∷ []) (sample 1010 12) one_sample-Represents
      (omega arith)
