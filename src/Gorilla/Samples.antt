-- ===== src/Gorilla/Samples.antt =====
-- The samples that a chunk represents: what its iterator would read, whatever is appended later.
use redis_time_series.Common.{
  ℕ, suc, ◌+◌, ◌*◌, ◌%◌, ◌^◌, ◌≤◌, ◌<◌, ◌≡◌, ◌∙◌, ap, List, [], ◌∷◌, ◌++◌,
}
use redis_time_series.Common.{length, u64}
use redis_time_series.Generic.{Sample}
use redis_time_series.Gorilla.{CompressedChunk, CompressedIterator}
use redis_time_series.Gorilla.Read.{next_timestamp, next_value}
use redis_time_series.Gorilla.Stream.{stream, IsWords}
use redis_time_series.Gorilla.Packed.{Packed}
use redis_time_series.Gorilla.AppendValue.{block_bits}

-- One sample after the first.
abbrev pub step : List ℕ → CompressedIterator → CompressedIterator
step bins it =
    let it1 = next_value bins (next_timestamp bins it) in record it1 { count = u64 (it1.count + 1) }

abbrev pub sample_of : CompressedIterator → Sample
sample_of it = record { timestamp = it.prev_ts; value = it.prev_value }

-- From `it` the samples `xs` are read, which ends at `it'`.
abbrev pub Decodes : List ℕ → CompressedIterator → List Sample → CompressedIterator → Type 0
Decodes bins it [] it' = it ≡ it'
Decodes bins it (x ∷ xs) it' = (sample_of (step bins it) ≡ x) × Decodes bins (step bins it) xs it'

pub Decodes-snoc :
    (bins : List ℕ) (xs : List Sample) (it it1 it2 : CompressedIterator)
    → Decodes bins it xs it1
    → step bins it1 ≡ it2
    → Decodes bins it (xs ++ sample_of it2 ∷ []) it2
Decodes-snoc bins [] it it1 it2 d e =
    let both : step bins it ≡ it2 = ap (step bins) d ∙ e in (ap sample_of both, both)
Decodes-snoc bins (x ∷ xs) it it1 it2 (ex, d) e =
    (ex, Decodes-snoc bins xs (step bins it) it1 it2 d e)

-- The iterator behind the first sample, and the one that has read all.
abbrev pub first_iterator : CompressedChunk → CompressedIterator
first_iterator c = record {
  idx = 0;
  count = 1;
  prev_ts = c.base_timestamp;
  prev_delta = 0;
  prev_value = c.base_value;
  leading = 32;
  trailing = 32;
  block_size = 0;
}

abbrev pub last_iterator : CompressedChunk → CompressedIterator
last_iterator c = record {
  idx = c.idx;
  count = c.count;
  prev_ts = c.prev_timestamp;
  prev_delta = c.prev_timestamp_delta;
  prev_value = c.prev_value;
  leading = c.prev_leading;
  trailing = c.prev_trailing;
  block_size = block_bits c;
}

-- No sample: as `Compressed_NewChunk` makes it.
pub record IsEmpty (c : CompressedChunk) : Type 0 where
  pub packed : Packed c
  pub count : c.count ≡ 0
  pub idx : c.idx ≡ 0
  pub leading : c.prev_leading ≡ 32
  pub trailing : c.prev_trailing ≡ 32

-- `s` and then `xs`. Any array that goes on from the chunk's own decodes to them.
pub record Holds (c : CompressedChunk) (s : Sample) (xs : List Sample) : Type 0 where
  pub packed : Packed c
  pub limits : c.prev_leading + c.prev_trailing ≤ 64
  pub timestamp_word : c.prev_timestamp < 2 ^ 64
  pub delta_word : c.prev_timestamp_delta < 2 ^ 64
  pub value_word : c.prev_value < 2 ^ 64
  pub first : s ≡ record { timestamp = c.base_timestamp; value = c.base_value }
  pub count : c.count ≡ suc (length xs)
  pub sparse : 2 * c.count ≤ c.idx + 2
  pub decodes :
      (bins : List ℕ)
      → IsWords bins
      → stream bins % 2 ^ c.idx ≡ stream c.bins
      → Decodes bins (first_iterator c) xs (last_iterator c)

abbrev pub Represents : CompressedChunk → List Sample → Type 0
Represents c [] = IsEmpty c
Represents c (s ∷ xs) = Holds c s xs
