-- ===== src/Gorilla/Appending.antt =====
-- `Compressed_Append` against the list of samples: it adds one at the end, or changes nothing.
use mathlib.Core.Path.{subst}
use redis_time_series.Common.{ℕ, ◌+◌, ◌*◌, ◌^◌, ◌≤◌, ◌<◌, ◌≡◌, refl, ap, sym}
use redis_time_series.Common.{List, [], ◌∷◌, ◌++◌, arith, u64}
use redis_time_series.Common.{==_iff, ne→==}
use redis_time_series.Generic.{Sample, IsSample, cr_ok, cr_err, cr_end}
use redis_time_series.Gorilla.{CompressedChunk, CompressedIterator}
use redis_time_series.Gorilla.Append.{
  Outcome, append, append_integer, append_float, after_integer, after_float, rollback,
}
use redis_time_series.Gorilla.Packed.{IsPacked, Added, Extends, Added-trans}
use redis_time_series.Gorilla.ReadDelta.{ReadsDelta}
use redis_time_series.Gorilla.AppendDelta.{DeltaOutcome, append_integer-DeltaOutcome}
use redis_time_series.Gorilla.AppendValue.{ValueOutcome}
use redis_time_series.Gorilla.AppendBlock.{append_float-ValueOutcome}
use redis_time_series.Gorilla.ZeroBits.{zero_bits_restores}
use redis_time_series.Gorilla.Samples.{IsEmpty, Holds, Represents}
use redis_time_series.Gorilla.Extending.{cur, dd, with_delta, with_both, extended}

-- CR_OK with one sample more, or CR_END with the same chunk, where 147 bits do not fit.
abbrev pub AppendOutcome : CompressedChunk → List Sample → Outcome → Type 0
AppendOutcome c xs (cr_ok, c') = Represents c' xs × (c'.size ≡ c.size)
AppendOutcome c xs (cr_end, c') = (c' ≡ c) × (8 * c.size < c.idx + 147)
AppendOutcome c xs (cr_err, c') = ⊥

-- `chunk->count++`
abbrev count_one : CompressedChunk → CompressedChunk
count_one t = record t { count = u64 (t.count + 1) }

-- What `rollback` sets, with the bins as they were.
abbrev undone : CompressedChunk → CompressedChunk → CompressedChunk
undone c t = record t {
  bins = c.bins;
  idx = c.idx;
  prev_timestamp = c.prev_timestamp;
  prev_timestamp_delta = c.prev_timestamp_delta;
}

module _ (c : CompressedChunk) (s0 : Sample) (xs : List Sample) (s : Sample) (h : Holds c s0 xs)
    (word : IsSample s) where
  -- A failure gives the chunk back, if what failed differs by what `rollback` sets alone.
  rolled_back :
      (failed : CompressedChunk) (code n : ℕ)
      → Extends c code n failed
      → undone c failed ≡ c
      → (rollback c failed).1 ≡ c
  unfolding rollback
  rolled_back failed code n a frame = rw (zero_bits_restores h.packed a) frame

  after_value :
      (b1 : List ℕ) (i1 x m : ℕ)
      → Added c.bins c.size c.idx x m b1 c.size i1
      → ReadsDelta (dd c s) x m
      → 0 < m
      → m ≤ 70
      → (o : Outcome) → ValueOutcome (with_delta c s b1 i1) s.value o
      → AppendOutcome c (s0 ∷ xs ++ s ∷ []) (after_float c o)
  unfolding after_float with_delta cur with_both rollback
  after_value b1 i1 x m a reads pm narrow (cr_ok, c2) va = (
    subst (λ t. Holds t s0 (xs ++ s ∷ [])) (sym (ap count_one va.frame))
        (extended c s0 xs s h word b1 c2.bins i1 c2.idx x m va.code va.width c2.prev_leading
          c2.prev_trailing a
          (subst (λ t. Added b1 c.size i1 va.code va.width c2.bins t c2.idx) va.extends.same_size
            va.extends)
          reads va.reads pm va.nonempty va.limits),
    va.extends.same_size,
  )
  after_value b1 i1 x m a reads pm narrow (cr_err, c2) (e, frame, full) = (
    rolled_back c2 (x + 2 ^ m * 1) (m + 1) (Added-trans a e) (ap (undone c) frame),
    omega (arith, a.idx_moved),
  )
  after_value b1 i1 x m a reads pm narrow (cr_end, c2) impossible = absurd impossible

  after_delta :
      (o : Outcome)
      → DeltaOutcome c (dd c s) (cur c s) s.timestamp o
      → AppendOutcome c (s0 ∷ xs ++ s ∷ []) (after_integer c s.value o)
  unfolding after_integer cur dd with_delta rollback
  after_delta (cr_ok, c1) da =
      subst (λ t. AppendOutcome c (s0 ∷ xs ++ s ∷ []) (after_float c (append_float t s.value)))
        (sym da.frame)
        (after_value c1.bins c1.idx da.code da.width
          (subst (λ t. Added c.bins c.size c.idx da.code da.width c1.bins t c1.idx)
            da.extends.same_size da.extends)
          da.reads da.nonempty da.narrow (append_float (with_delta c s c1.bins c1.idx) s.value)
          (append_float-ValueOutcome (with_delta c s c1.bins c1.idx) s.value
            (subst (λ t. IsPacked c1.bins t c1.idx) da.extends.same_size da.extends.packed)
            (omega (arith, da.one_more, da.extends.same_size)) h.limits word.value_word
            h.value_word))
  after_delta (cr_err, c1) (same, full) = (
    rolled_back c1 0 0 (subst (λ t. Extends c 0 0 t) (sym same) unchanged) (ap (undone c) same),
    omega arith,
  )
    where
      unchanged : Extends c 0 0 c
      unchanged = record {
        packed = h.packed;
        same_size = refl;
        idx_moved = omega arith;
        code_lt = omega arith;
        stream_grown = omega arith;
      }
  after_delta (cr_end, c1) impossible = absurd impossible

-- The first sample takes no bits.
append_first :
    (c : CompressedChunk) (s : Sample)
    → IsEmpty c
    → IsSample s
    → AppendOutcome c (s ∷ []) (append c s.timestamp s.value)
unfolding append
append_first c s e word = rw ((==_iff c.count 0).1 e.count) (
  record {
    packed = e.packed;
    limits = omega (arith, e.leading, e.trailing);
    timestamp_word = word.timestamp_word;
    delta_word = omega arith;
    value_word = word.value_word;
    first = refl;
    count = omega (arith, e.count);
    sparse = omega (arith, e.count);
    decodes = λ bins hw goes_on.
        started (omega (arith, e.idx)) (omega (arith, e.count)) (omega (arith, e.leading))
          (omega (arith, e.trailing)) (omega (arith, e.leading, e.trailing));
  },
  refl,
)
  where
    started :
        {i k l t b : ℕ}
        → 0 ≡ i
        → 1 ≡ k
        → 32 ≡ l
        → 32 ≡ t
        → 0 ≡ b
        → ◌≡◌ {A = CompressedIterator}
            (record {
              idx = 0;
              count = 1;
              prev_ts = s.timestamp;
              prev_delta = 0;
              prev_value = s.value;
              leading = 32;
              trailing = 32;
              block_size = 0;
            })
            (record {
              idx = i;
              count = k;
              prev_ts = s.timestamp;
              prev_delta = 0;
              prev_value = s.value;
              leading = l;
              trailing = t;
              block_size = b;
            })
    started p q r u w = λ j. record {
      idx = p j;
      count = q j;
      prev_ts = s.timestamp;
      prev_delta = 0;
      prev_value = s.value;
      leading = r j;
      trailing = u j;
      block_size = w j;
    }

-- A successful `Compressed_Append` adds one sample at the end of what the chunk represents. Any
-- other returns CR_END, leaves the chunk exactly as it was, and happens only with fewer than 147
-- free bits.
pub append-Represents :
    (c : CompressedChunk) (xs : List Sample) (s : Sample)
    → Represents c xs
    → IsSample s
    → AppendOutcome c (xs ++ s ∷ []) (append c s.timestamp s.value)
unfolding append dd cur
append-Represents c [] s e word = append_first c s e word
append-Represents c (s0 ∷ xs) s h word = rw (ne→== c.count 0 (omega (arith, h.count))) (
    after_delta c s0 xs s h word (append_integer c s.timestamp)
      (append_integer-DeltaOutcome c s.timestamp h.packed))
