-- ===== src/Compressed/Split.antt =====
-- `Compressed_SplitChunk` and `Compressed_DelRange` against the list of samples.
use mathlib.Core.Path.{subst}
use mathlib.Core.List.{append-nil}
use redis_time_series.Common.{ℕ, zero, suc, ◌+◌, ◌-◌, ◌*◌, ◌/◌, ◌^◌, ◌<◌, ◌≡◌, refl, sym, some}
use redis_time_series.Common.{
  List, [], ◌∷◌, length, length-take, length-drop, take, drop, arith, take-append-drop,
}
use redis_time_series.Generic.{Sample}
use redis_time_series.Gorilla.{CompressedChunk}
use redis_time_series.Gorilla.Read.{new_iterator}
use redis_time_series.Gorilla.Samples.{Represents}
use redis_time_series.Gorilla.Iterating.{Reads, Reads-new_iterator}
use redis_time_series.Compressed.{
  split_chunk, del_range, new_chunk, trim_chunk, copy_samples, del_samples,
}
use redis_time_series.Compressed.Growth.{
  new_chunk-Represents, trim_chunk-Represents, Represents-IsPacked,
}
use redis_time_series.Compressed.Loops.{
  AllSamples, Copied, copy_samples-Copied, Deleted, del_samples-Deleted,
}
use redis_time_series.Ranges.{outside}

pub count-Represents :
    (c : CompressedChunk) (xs : List Sample) → Represents c xs → c.count ≡ length xs
count-Represents c [] e = e.count
count-Represents c (s ∷ xs) h = h.count

AllSamples-take : (k : ℕ) (xs : List Sample) → AllSamples xs → AllSamples (take k xs)
AllSamples-take zero xs h = tt
AllSamples-take (suc k) [] h = tt
AllSamples-take (suc k) (x ∷ xs) (w, h) = (w, AllSamples-take k xs h)

AllSamples-drop : (k : ℕ) (xs : List Sample) → AllSamples xs → AllSamples (drop k xs)
AllSamples-drop zero xs h = h
AllSamples-drop (suc k) [] h = tt
AllSamples-drop (suc k) (x ∷ xs) (w, h) = AllSamples-drop k xs h

module _ (c : CompressedChunk) (xs : List Sample) (h : Represents c xs) (words : AllSamples xs)
    (small : c.size + 32 * length xs < 2 ^ 31) (junk : Sample) where
  fresh : Represents (new_chunk c.size) []
  fresh =
      new_chunk-Represents c.size (omega (arith, (Represents-IsPacked c xs h).sized)) (omega arith)

  -- `Compressed_DelRange` succeeds, reports the number of samples in the range, and the chunk
  -- represents the others, in order.
  pub del_range-Represents :
      (a b : ℕ)
      → Deleted (del_range c a b junk) (outside a b xs) (length xs) (c.size + 32 * length xs)
  unfolding del_range new_chunk
  del_range-Represents a b = record {
    chunk = more.chunk;
    deleted = more.deleted;
    returned =
        subst
          (λ k.
            del_samples k a b c (new_iterator c, junk) 0 (new_chunk c.size)
            ≡ some (more.deleted, more.chunk))
          (sym (count-Represents c xs h)) more.returned;
    represents = more.represents;
    all_counted = omega (arith, more.all_counted);
    within = more.within;
  }
    where
      more :
          Deleted
            (del_samples (length xs) a b c (new_iterator c, junk) 0 (new_chunk c.size))
            (outside a b xs)
            (0 + 0 + length xs)
            (c.size + 32 * length xs)
      more =
          del_samples-Deleted xs [] a b c (new_iterator c) junk 0 (new_chunk c.size)
            (Reads-new_iterator c xs h) words fresh small

  -- `Compressed_SplitChunk` succeeds: the chunk keeps the first half of its samples, the larger one
  -- where they are odd in number, and the new chunk has the rest.
  pub split_chunk-Represents :
      let k = length xs - length xs / 2 in
      (c1 : CompressedChunk) × (c2 : CompressedChunk) × (split_chunk c junk ≡ some (c1, c2))
      × Represents c1 (take k xs)
      × Represents c2 (drop k xs)
  unfolding split_chunk new_chunk
  split_chunk-Represents = (
    trim_chunk one.chunk,
    trim_chunk two.chunk,
    rw (first_copy, second_copy) refl,
    trim_chunk-Represents one.chunk (take k xs) one.represents,
    trim_chunk-Represents two.chunk (drop k xs) two.represents,
  )
    where
      k : ℕ
      k = length xs - length xs / 2

      one :
          Copied
            (copy_samples (length (take k xs)) c (new_iterator c, junk) (new_chunk c.size))
            c
            (drop k xs)
            (take k xs)
            (c.size + 32 * length (take k xs))
      one =
          copy_samples-Copied (take k xs) (drop k xs) [] c (new_iterator c) junk (new_chunk c.size)
            (subst (λ t. Reads c (new_iterator c) t) (sym (take-append-drop k xs))
              (Reads-new_iterator c xs h))
            (AllSamples-take k xs words) fresh (omega (arith, length-take k xs))

      two :
          Copied
            (copy_samples (length (drop k xs)) c one.cursor (new_chunk c.size))
            c
            []
            (drop k xs)
            (c.size + 32 * length (drop k xs))
      two =
          copy_samples-Copied (drop k xs) [] [] c one.cursor.0 one.cursor.1 (new_chunk c.size)
            (subst (λ t. Reads c one.cursor.0 t) (sym (append-nil (drop k xs))) one.reads)
            (AllSamples-drop k xs words) fresh (omega (arith, length-drop k xs))

      count : c.count ≡ length xs
      count = count-Represents c xs h

      first_copy :
          copy_samples (c.count - c.count / 2) c (new_iterator c, junk) (new_chunk c.size)
          ≡ some (one.cursor, one.chunk)
      first_copy =
          subst
            (λ n.
              copy_samples n c (new_iterator c, junk) (new_chunk c.size)
              ≡ some (one.cursor, one.chunk))
            (omega (arith, count, length-take k xs)) one.returned

      second_copy :
          copy_samples (c.count - (c.count - c.count / 2)) c one.cursor (new_chunk c.size)
          ≡ some (two.cursor, two.chunk)
      second_copy =
          subst (λ n. copy_samples n c one.cursor (new_chunk c.size) ≡ some (two.cursor, two.chunk))
            (omega (arith, count, length-drop k xs)) two.returned
