-- ===== src/Compressed/Ends.antt =====
-- What a chunk tells of its samples without reading them (src/compressed_chunk.c): their number, the
-- first timestamp, and the last timestamp and value.
use native.Mathlib.Nat.{mod-eq_of_lt}
use redis_time_series.Common.{
  ℕ, ◌+◌, ◌≡◌, ◌∙◌, ap, sym, List, [], ◌∷◌, length, arith, ◌==◌, if◌then◌else◌, ne→==,
}
use redis_time_series.Generic.{Sample}
use redis_time_series.Ranges.{last_sample}
use redis_time_series.Gorilla.{CompressedChunk, CompressedIterator}
use redis_time_series.Gorilla.Samples.{
  Represents, Decodes, step, sample_of, first_iterator, last_iterator,
}

unfoldable pub chunk_num_of_sample : CompressedChunk → ℕ
chunk_num_of_sample c = c.count

-- Without the struct itself.
unfoldable pub get_chunk_size : CompressedChunk → ℕ
get_chunk_size c = c.size

unfoldable pub get_first_timestamp : CompressedChunk → ℕ
get_first_timestamp c = if c.count == 0 then 0 else c.base_timestamp

unfoldable pub get_last_timestamp : CompressedChunk → ℕ
get_last_timestamp c = c.prev_timestamp

unfoldable pub get_last_value : CompressedChunk → ℕ
get_last_value c = c.prev_value

Decodes-last_sample :
    (bins : List ℕ) (s : Sample) (xs : List Sample) (it it' : CompressedIterator)
    → sample_of it ≡ s
    → Decodes bins it xs it'
    → sample_of it' ≡ last_sample s xs
Decodes-last_sample bins s [] it it' e d = ap sample_of (sym d) ∙ e
Decodes-last_sample bins s (x ∷ xs) it it' e (ex, d) =
    Decodes-last_sample bins x xs (step bins it) it' ex d

-- A chunk with samples reports their number, the timestamp of the first, and the timestamp and the
-- value of the last.
pub last_sample-Represents :
    (c : CompressedChunk) (s : Sample) (xs : List Sample)
    → Represents c (s ∷ xs)
    → (chunk_num_of_sample c ≡ length xs + 1)
      × (get_first_timestamp c ≡ s.timestamp)
      × (get_last_timestamp c ≡ (last_sample s xs).timestamp)
      × (get_last_value c ≡ (last_sample s xs).value)
unfolding chunk_num_of_sample get_first_timestamp get_last_timestamp get_last_value
last_sample-Represents c s xs h =
    let e =
      Decodes-last_sample c.bins s xs (first_iterator c) (last_iterator c) (sym h.first)
        (h.decodes c.bins h.packed.words (mod-eq_of_lt h.packed.clean)) in
    (
      omega (arith, h.count),
      rw (ne→== c.count 0 (omega (arith, h.count)))
          (ap (λ (t : Sample). t.timestamp) (sym h.first)),
      ap (λ (t : Sample). t.timestamp) e,
      ap (λ (t : Sample). t.value) e,
    )
