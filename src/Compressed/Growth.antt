-- ===== src/Compressed/Growth.antt =====
-- Making a chunk, and giving its array more or fewer bins, changes nothing of what it represents.
use redis_time_series.Common.{
  ◌&&◌, Bool, true, false, ℕ, zero, suc, ◌+◌, ◌-◌, ◌*◌, ◌/◌, ◌%◌, ◌^◌, ◌≤◌, ◌<◌, ◌≡◌, refl, ◌∙◌,
}
use redis_time_series.Common.{
  List, [], ◌∷◌, ◌++◌, length, length-append, length-replicate, length-take, take, replicate,
}
use redis_time_series.Common.{arith, pow_split, if_both, ltb, ltb→lt, pow_mono}
use redis_time_series.Generic.{Sample}
use redis_time_series.Gorilla.{CompressedChunk}
use redis_time_series.Gorilla.Stream.{stream, IsWords}
use redis_time_series.Gorilla.Packed.{IsPacked}
use redis_time_series.Gorilla.Samples.{Represents}
use redis_time_series.Compressed.{new_chunk, grow, trim_chunk, trimmed_size}

-- Bins of zeros at the end.
IsWords-zeros : (k : ℕ) → IsWords (replicate k 0)
IsWords-zeros zero = tt
IsWords-zeros (suc k) = (omega arith, IsWords-zeros k)

stream-zeros : (k : ℕ) → stream (replicate k 0) ≡ 0
unfolding stream
stream-zeros zero = refl
stream-zeros (suc k) = omega (arith, stream-zeros k)

IsWords-append_zeros : (ws : List ℕ) (k : ℕ) → IsWords ws → IsWords (ws ++ replicate k 0)
IsWords-append_zeros [] k h = IsWords-zeros k
IsWords-append_zeros (w ∷ ws) k (hw, h) = (hw, IsWords-append_zeros ws k h)

stream-append_zeros : (ws : List ℕ) (k : ℕ) → stream (ws ++ replicate k 0) ≡ stream ws
unfolding stream
stream-append_zeros [] k = stream-zeros k
stream-append_zeros (w ∷ ws) k = omega (arith, stream-append_zeros ws k)

IsWords-take : (k : ℕ) (ws : List ℕ) → IsWords ws → IsWords (take k ws)
IsWords-take zero ws h = tt
IsWords-take (suc k) [] h = tt
IsWords-take (suc k) (w ∷ ws) (hw, h) = (hw, IsWords-take k ws h)

-- The bins past the end of the stream are not needed.
stream-take : (k : ℕ) (ws : List ℕ) → stream ws < 2 ^ (64 * k) → stream (take k ws) ≡ stream ws
unfolding stream
stream-take zero ws h = omega arith
stream-take (suc k) [] h = refl
stream-take (suc k) (w ∷ ws) h =
    omega
      (arith, stream-take k ws (omega (arith, pow_split 64 (64 * k) (64 * suc k) (omega arith))))

-- Only the stream of the bins matters.
reshaped :
    (c : CompressedChunk) (xs : List Sample) (bins : List ℕ) (size : ℕ)
    → Represents c xs
    → IsPacked bins size c.idx
    → stream bins ≡ stream c.bins
    → Represents (record c { bins = bins; size = size }) xs
reshaped c [] bins size e p same = record {
  packed = p;
  count = e.count;
  idx = e.idx;
  leading = e.leading;
  trailing = e.trailing;
}
reshaped c (s ∷ xs) bins size h p same = record {
  packed = p;
  limits = h.limits;
  timestamp_word = h.timestamp_word;
  delta_word = h.delta_word;
  value_word = h.value_word;
  first = h.first;
  count = h.count;
  sparse = h.sparse;
  decodes = λ b hb goes_on. h.decodes b hb (goes_on ∙ same);
}

pub Represents-IsPacked :
    (c : CompressedChunk) (xs : List Sample) → Represents c xs → IsPacked c.bins c.size c.idx
Represents-IsPacked c [] e = e.packed
Represents-IsPacked c (s ∷ xs) h = h.packed

-- `Compressed_NewChunk` of whole bins holds no sample.
pub new_chunk-Represents :
    (size : ℕ) → size % 8 ≡ 0 → 8 * size < 2 ^ 64 → Represents (new_chunk size) []
unfolding new_chunk
new_chunk-Represents size whole small = record {
  packed = record {
    words = IsWords-zeros (size / 8);
    sized = omega (arith, length-replicate {A = ℕ} (size / 8) 0);
    small = small;
    room = omega arith;
    clean = omega (arith, stream-zeros (size / 8));
  };
  count = refl;
  idx = refl;
  leading = refl;
  trailing = refl;
}

pub grow-Represents :
    (c : CompressedChunk) (xs : List Sample)
    → Represents c xs
    → 8 * (c.size + 32) < 2 ^ 64
    → Represents (grow c) xs
unfolding grow
grow-Represents c xs h small =
    let p = Represents-IsPacked c xs h in
    reshaped c xs (c.bins ++ replicate 4 0) (c.size + 32) h
      (record {
        words = IsWords-append_zeros c.bins 4 p.words;
        sized = omega (arith, p.sized, length-append c.bins (replicate 4 0));
        small = small;
        room = omega (arith, p.room);
        clean = rw (stream-append_zeros c.bins 4) p.clean;
      })
      (stream-append_zeros c.bins 4)

-- The bytes that are left hold every bit in use, and are no more than there were.
trimmed_size_bounds :
    (size idx bins excess : ℕ)
    → 8 * bins ≡ size
    → idx ≤ 8 * size
    → excess ≤ (size * 8 - idx) / 8
    → 1 < excess
    → let n = trimmed_size size excess in (idx ≤ 64 * (n / 8)) × (8 * (n / 8) ≡ n) × (n ≤ size)
unfolding trimmed_size
trimmed_size_bounds size idx bins excess e room low h = omega arith

and_left : (a b : Bool) → a && b ≡ true → a ≡ true
and_left true b e = refl
and_left false b e = e

-- `trimChunk` cuts off whole bins that hold no bit of a sample.
pub trim_chunk-Represents :
    (c : CompressedChunk) (xs : List Sample) → Represents c xs → Represents (trim_chunk c) xs
unfolding trim_chunk
trim_chunk-Represents c xs h =
    if_both (λ t. Represents t xs) (ltb (c.size * 8) c.idx) (λ _. h)
      λ _.
        if_both (λ t. Represents t xs) (ltb 1 excess && ltb excess (2 ^ 31))
          (λ e. cut (ltb→lt 1 excess (and_left (ltb 1 excess) (ltb excess (2 ^ 31)) e))) (λ _. h)
  where
    excess : ℕ
    excess = (c.size * 8 - c.idx) / 8 % 2 ^ 32

    n : ℕ
    n = trimmed_size c.size excess

    cut : 1 < excess → Represents (record c { size = n; bins = take (n / 8) c.bins }) xs
    cut e =
        let p = Represents-IsPacked c xs h in
        let b =
          trimmed_size_bounds c.size c.idx (length c.bins) excess p.sized p.room (omega arith) e in
        let same =
          stream-take (n / 8) c.bins (omega (arith, p.clean, pow_mono c.idx (64 * (n / 8)) b.0)) in
        reshaped c xs (take (n / 8) c.bins) n h
          (record {
            words = IsWords-take (n / 8) c.bins p.words;
            sized = omega (arith, b, p.sized, length-take (n / 8) c.bins);
            small = omega (arith, b, p.small);
            room = omega (arith, b);
            clean = rw same p.clean;
          })
          same
