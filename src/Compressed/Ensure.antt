-- ===== src/Compressed/Ensure.antt =====
-- `ensureAddSample` always succeeds: its assertion cannot fail.
use mathlib.Core.Path.{subst}
use redis_time_series.Common.{
  ℕ, ◌+◌, ◌*◌, ◌^◌, ◌≤◌, ◌<◌, ◌≡◌, refl, sym, Option, some, List, [], ◌∷◌, ◌++◌, arith,
}
use redis_time_series.Generic.{Sample, IsSample, cr_ok, cr_err, cr_end}
use redis_time_series.Gorilla.{CompressedChunk}
use redis_time_series.Gorilla.Append.{Outcome}
use redis_time_series.Gorilla.Samples.{Represents}
use redis_time_series.Gorilla.Appending.{AppendOutcome, append-Represents}
use redis_time_series.Compressed.{add_sample, grow, asserted, retry, ensure_add_sample}
use redis_time_series.Compressed.Growth.{grow-Represents, Represents-IsPacked}

-- A result that is there, represents `xs`, and is at most `limit` bytes long.
pub record Succeeds (r : Option CompressedChunk) (xs : List Sample) (limit : ℕ) : Type 0 where
  pub chunk : CompressedChunk
  pub returned : r ≡ some chunk
  pub represents : Represents chunk xs
  pub within : chunk.size ≤ limit

added :
    (c : CompressedChunk) (xs : List Sample) (s : Sample)
    → Represents c xs
    → IsSample s
    → AppendOutcome c (xs ++ s ∷ []) (add_sample c s)
unfolding add_sample
added c xs s h word = append-Represents c xs s h word

-- In a chunk with 147 free bits the sample goes in.
asserted-Succeeds :
    (c : CompressedChunk) (xs : List Sample) (o : Outcome)
    → c.idx + 147 ≤ 8 * c.size
    → AppendOutcome c xs o
    → Succeeds (asserted o) xs c.size
unfolding asserted
asserted-Succeeds c xs (cr_ok, c') room (h, same) = record {
  chunk = c';
  returned = refl;
  represents = h;
  within = omega (arith, same);
}
asserted-Succeeds c xs (cr_err, c') room impossible = absurd impossible
asserted-Succeeds c xs (cr_end, c') room (same, full) = absurd (omega arith)

module _ (c : CompressedChunk) (xs : List Sample) (s : Sample) (h : Represents c xs)
    (word : IsSample s) (small : c.size + 32 < 2 ^ 31) where
  again : Succeeds (asserted (add_sample (grow c) s)) (xs ++ s ∷ []) (c.size + 32)
  unfolding grow
  again =
      asserted-Succeeds (grow c) (xs ++ s ∷ []) (add_sample (grow c) s)
        (omega (arith, (Represents-IsPacked c xs h).room))
        (added (grow c) xs s (grow-Represents c xs h (omega arith)) word)

  retry-Succeeds :
      (o : Outcome)
      → AppendOutcome c (xs ++ s ∷ []) o
      → Succeeds (retry s o) (xs ++ s ∷ []) (c.size + 32)
  unfolding retry
  retry-Succeeds (cr_ok, c') (r, same) = record {
    chunk = c';
    returned = refl;
    represents = r;
    within = omega (arith, same);
  }
  retry-Succeeds (cr_err, c') impossible = absurd impossible
  retry-Succeeds (cr_end, c') (same, full) =
      subst (λ t. Succeeds (asserted (add_sample (grow t) s)) (xs ++ s ∷ []) (c.size + 32))
        (sym same) again

  -- For a chunk that is shorter than 2 ^ 31 - 32 bytes, `ensureAddSample` adds the sample, with at
  -- most 32 bytes more: its assertion never fails.
  pub ensure_add_sample-Succeeds : Succeeds (ensure_add_sample c s) (xs ++ s ∷ []) (c.size + 32)
  unfolding ensure_add_sample
  ensure_add_sample-Succeeds = retry-Succeeds (add_sample c s) (added c xs s h word)
