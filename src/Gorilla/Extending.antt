-- ===== src/Gorilla/Extending.antt =====
-- A chunk that a sample was appended to decodes to one sample more.
use redis_time_series.Common.{ℕ, ◌+◌, ◌-◌, ◌/◌, ◌%◌, ◌^◌, ◌≤◌, ◌<◌, ◌≡◌, ap, sym}
use redis_time_series.Common.{List, [], ◌∷◌, ◌++◌, length-append, arith, u64, sub64}
use redis_time_series.Generic.{Sample, IsSample}
use redis_time_series.Gorilla.{CompressedChunk, CompressedIterator}
use redis_time_series.Gorilla.Append.{set_delta}
use redis_time_series.Gorilla.Read.{next_timestamp}
use redis_time_series.Gorilla.Stream.{stream, IsWords}
use redis_time_series.Gorilla.Fields.{before, first_field, second_field}
use redis_time_series.Gorilla.Packed.{Added}
use redis_time_series.Gorilla.ReadDelta.{ReadsDelta}
use redis_time_series.Gorilla.ReadValue.{ReadsValue}
use redis_time_series.Gorilla.AppendValue.{at_value}
use redis_time_series.Gorilla.Samples.{step, Decodes-snoc, first_iterator, last_iterator, Holds}

-- What `appendInteger` computes from the timestamp of `s`, and the chunk after each half of a
-- success.
module _ (c : CompressedChunk) (s : Sample) where
  unfoldable pub cur : ℕ
  cur = sub64 s.timestamp c.prev_timestamp

  unfoldable pub dd : ℕ
  unfolding cur
  dd = sub64 cur c.prev_timestamp_delta

  -- The iterator once it has read the new timestamp.
  at_timestamp : ℕ → CompressedIterator
  unfolding cur
  at_timestamp i = record (last_iterator c) { idx = i; prev_ts = s.timestamp; prev_delta = cur }

  unfoldable pub with_delta : List ℕ → ℕ → CompressedChunk
  unfolding cur
  with_delta b i = set_delta cur s.timestamp (record c { bins = b; idx = i })

  unfoldable pub with_both : List ℕ → ℕ → ℕ → ℕ → CompressedChunk
  unfolding cur
  with_both b i l t = record c {
    bins = b;
    idx = i;
    prev_timestamp = s.timestamp;
    prev_timestamp_delta = cur;
    prev_value = s.value;
    prev_leading = l;
    prev_trailing = t;
    count = u64 (c.count + 1);
  }

module _ (c : CompressedChunk) (s0 : Sample) (xs : List Sample) (s : Sample) (h : Holds c s0 xs)
    (word : IsSample s) where
  reads_timestamp :
      (bins : List ℕ) (i x m : ℕ)
      → IsWords bins
      → ReadsDelta (dd c s) x m
      → i ≡ c.idx + m
      → i < 2 ^ 64
      → stream bins / 2 ^ c.idx % 2 ^ m ≡ x
      → next_timestamp bins (last_iterator c) ≡ at_timestamp c s i
  unfolding next_timestamp at_timestamp cur dd
  reads_timestamp bins i x m hw reads at small field =
      rw (reads bins (last_iterator c) hw (omega arith) h.delta_word field) (
        parts (omega arith) (omega (arith, h.timestamp_word, h.delta_word, word.timestamp_word))
          (omega (arith, h.delta_word, word.timestamp_word)))
    where
      parts :
          {j t d : ℕ}
          → j ≡ i
          → t ≡ s.timestamp
          → d ≡ cur c s
          → ◌≡◌ {A = CompressedIterator}
              (record (last_iterator c) { idx = j; prev_ts = t; prev_delta = d })
              (record (last_iterator c) { idx = i; prev_ts = s.timestamp; prev_delta = cur c s })
      parts p q r = λ k. record (last_iterator c) { idx = p k; prev_ts = q k; prev_delta = r k }

  module _ (b1 b2 : List ℕ) (i1 i2 x m y n l t : ℕ) (a : Added c.bins c.size c.idx x m b1 c.size i1)
      (b : Added b1 c.size i1 y n b2 c.size i2) (reads_delta : ReadsDelta (dd c s) x m)
      (reads_value : (it : CompressedIterator)
        → ReadsValue (at_value it (with_delta c s b1 i1)) s.value l t (64 - l - t) y n) where
    reads_sample :
        (bins : List ℕ)
        → IsWords bins
        → stream bins % 2 ^ i2 ≡ stream b2
        → step bins (last_iterator c) ≡ last_iterator (with_both c s b2 i2 l t)
    unfolding at_timestamp with_delta with_both cur
    reads_sample bins hw goes_on =
        rw
          (
            reads_timestamp bins i1 x m hw reads_delta a.idx_moved
                (omega (arith, a.packed.room, a.packed.small))
                (first_field bins c.bins b1 b2 c.size c.size c.size c.idx i1 i2 x m y n h.packed a b
                  goes_on),
            reads_value (at_timestamp c s i1) bins hw
                (omega (arith, b.packed.room, b.packed.small, b.idx_moved)) second,
          )
          (ap (λ j. record (last_iterator (with_both c s b2 i2 l t)) { idx = j }) (sym b.idx_moved))
      where
        second : stream bins / 2 ^ i1 % 2 ^ n ≡ y
        second = rw a.idx_moved (
            second_field bins c.bins b1 b2 c.size c.size c.size c.idx i1 i2 x m y n h.packed a b
              goes_on)

    pub extended : 0 < m → 0 < n → l + t ≤ 64 → Holds (with_both c s b2 i2 l t) s0 (xs ++ s ∷ [])
    unfolding with_both cur
    extended pm pn limits = record {
      packed = b.packed;
      limits = limits;
      timestamp_word = word.timestamp_word;
      delta_word = omega arith;
      value_word = word.value_word;
      first = h.first;
      count =
          omega
            (arith, h.count, h.sparse, h.packed.room, h.packed.small, length-append xs (s ∷ []));
      sparse = omega (arith, h.sparse, a.idx_moved, b.idx_moved);
      decodes = λ bins hw goes_on.
          Decodes-snoc bins xs (first_iterator c) (last_iterator c)
            (last_iterator (with_both c s b2 i2 l t))
            (h.decodes bins hw (
              before bins c.bins b1 b2 c.size c.size c.size c.idx i1 i2 x m y n h.packed a b
                goes_on))
            (reads_sample bins hw goes_on);
    }
