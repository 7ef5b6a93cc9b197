-- ===== src/Compressed/Querying.antt =====
-- `Compressed_ProcessChunk` against the list of samples.
use mathlib.Core.Path.{subst}
use mathlib.Core.List.{reverse, reverse-cons, reverse-reverse, append_assoc, append-nil}
use redis_time_series.Common.{
  u32, take, take-length, length-append, ◌+◌, ℕ, suc, ◌^◌, ◌≤◌, ◌<◌, ◌≡◌, refl, sym, ap, ◌∙◌, Bool,
  true, false, Bool-cases, inl, inr, Option, some, List, [], ◌∷◌, ◌++◌, length, leb, lt→ltb, le→ltb,
  leb→le, leb→lt, ==_iff, ne→==, if_both, arith,
}
use redis_time_series.Generic.{Sample, cr_ok}
use redis_time_series.Ranges.{
  inside, length-inside, inside_run, inside-ends, AtMost, IsSorted, up_to, from_start, last_sample,
  AtMost-last_sample, IsSorted-from_start, AtMost-from_start, from_start-pos,
}
use redis_time_series.Enriched.{EnrichedChunk, reset_enriched_chunk, columns, range_query}
use redis_time_series.Gorilla.{CompressedChunk, CompressedIterator}
use redis_time_series.Gorilla.Read.{get_next, new_iterator}
use redis_time_series.Gorilla.Samples.{Represents}
use redis_time_series.Gorilla.Iterating.{Reads-new_iterator}
use redis_time_series.Common.{◌>>=◌}
use redis_time_series.Compressed.{Cursor}
use redis_time_series.Compressed.Ends.{last_sample-Represents, get_last_timestamp}
use redis_time_series.Compressed.Decompress.{
  skip_older, skip_older_reverse, is_outside, from_first, done, done_reverse, decompress_chunk,
  decompress_chunk_reverse, process_chunk,
}
use redis_time_series.Compressed.Collect.{At, At-next, push_all}
use redis_time_series.Compressed.Filling.{
  Found, skip_older-Found, skip_older_reverse-Found, fill-push_all,
}

push_all-append : (xs out : List Sample) → push_all xs out ≡ reverse xs ++ out
push_all-append [] out = refl
push_all-append (x ∷ xs) out =
    push_all-append xs (x ∷ out)
    ∙ sym (ap (λ t. t ++ out) (reverse-cons x xs) ∙ append_assoc (reverse xs) (x ∷ []) out)

-- Fewer than 2 ^ 32 samples are counted right.
take-counted : (n : ℕ) (out : List Sample) → n ≡ length out → n < 2 ^ 32 → take (u32 n) out ≡ out
take-counted n out e small =
    let same : u32 n ≡ length out = omega (arith, e, small) in rw same (take-length out)

length-reversed : (xs : List Sample) → length (reverse xs) ≡ length xs
length-reversed [] = refl
length-reversed (x ∷ xs) =
    ap length (reverse-cons x xs)
    ∙ omega (arith, length-append (reverse xs) (x ∷ []), length-reversed xs)

range_query-columns : (zs : List Sample) → range_query false zs ≡ columns false zs
range_query-columns [] = refl
range_query-columns (x ∷ zs) = refl

done-columns : (out : List Sample) → length out < 2 ^ 32 → done out ≡ columns false (reverse out)
unfolding done reset_enriched_chunk
done-columns [] small = refl
done-columns (x ∷ out) small =
    ap (columns false)
      (take-counted (length (x ∷ out)) (reverse (x ∷ out)) (sym (length-reversed (x ∷ out))) small)

done_lem : (zs : List Sample) → length zs < 2 ^ 32 → done (push_all zs []) ≡ range_query false zs
done_lem zs small =
    ap done (push_all-append zs [] ∙ append-nil (reverse zs))
    ∙ done-columns (reverse zs) (omega (arith, length-reversed zs, small))
    ∙ ap (columns false) (reverse-reverse zs)
    ∙ sym (range_query-columns zs)

done_reverse-append :
    (ys : List Sample) (x : Sample)
    → length ys + 1 < 2 ^ 32
    → done_reverse (ys ++ x ∷ []) ≡ columns true (ys ++ x ∷ [])
unfolding done_reverse
done_reverse-append [] x small = refl
done_reverse-append (y ∷ ys) x small =
    let all = y ∷ (ys ++ x ∷ []) in
    ap (columns true)
      (take-counted (length all) all refl (omega (arith, length-append ys (x ∷ []), small)))

done_reverse_lem :
    (zs : List Sample) → length zs < 2 ^ 32 → done_reverse (push_all zs []) ≡ range_query true zs
unfolding done_reverse reset_enriched_chunk
done_reverse_lem [] small = refl
done_reverse_lem (z ∷ zs) small =
    ap done_reverse (push_all-append zs (z ∷ []))
    ∙ done_reverse-append (reverse zs) z (omega (arith, length-reversed zs, small))
    ∙ ap (columns true) (sym (reverse-cons z zs))

from_first_lem :
    (c : CompressedChunk) (b : ℕ) (r : Option Cursor) (zs : List Sample)
    (k : List Sample → EnrichedChunk)
    → c.count < 2 ^ 64
    → Found c r zs
    → 0 < length zs
    → IsSorted zs
    → AtMost c.prev_timestamp zs
    → (r >>= (λ cur. from_first c b cur >>= λ out. some (k out)))
      ≡ some (k (push_all (up_to b zs) []))
unfolding from_first
from_first_lem c b r [] k small found pos s most = absurd (omega arith)
from_first_lem c b r (y ∷ ys) k small (it, e, a) pos s most =
    elim (Bool-cases (leb y.timestamp b)) [
      | inl le ↦
          let le' = leb→le y.timestamp b le in
          rw (e, le, le→ltb b y.timestamp le', fill-push_all c small b y ys it a s.1 le' most.1)
            refl
      | inr gt ↦ rw (e, gt, lt→ltb b y.timestamp (leb→lt y.timestamp b gt)) refl
    ]

module _ (c : CompressedChunk) (x : Sample) (xs : List Sample) (h : Represents c (x ∷ xs))
    (s : IsSorted (x ∷ xs)) (few : length (x ∷ xs) < 2 ^ 32) (a b : ℕ) where
  small : c.count < 2 ^ 64
  small = omega (arith, h.sparse, h.packed.room, h.packed.small)

  newest : c.prev_timestamp ≡ (last_sample x xs).timestamp
  unfolding get_last_timestamp
  newest = (last_sample-Represents c x xs h).2

  inside-is_outside : is_outside c a b ≡ true → inside a b (x ∷ xs) ≡ []
  inside-is_outside out =
      inside-ends c.base_timestamp c.prev_timestamp x xs a b s
        (ap (λ (t : Sample). t.timestamp) (sym h.first)) newest
        (rw (ne→== c.count 0 (omega (arith, h.count))) at out)

  -- The range starts within the chunk.
  begins : is_outside c a b ≡ false → a ≤ c.prev_timestamp
  begins e = ground (arith)

  begun :
      (it : CompressedIterator) × ((old : Sample)
        → get_next c (new_iterator c) old ≡ (cr_ok, it, x))
      × At c it xs
  unfolding new_iterator
  begun =
      At-next c (new_iterator c) x xs small
        (Reads-new_iterator c (x ∷ xs) h, omega (arith, h.count))

  -- Either search, then what it leads to.
  read_lem :
      (r : Option Cursor) (k : List Sample → EnrichedChunk) (rev : Bool)
      → Found c r (from_start a (x ∷ xs))
      → ((zs : List Sample) → length zs < 2 ^ 32 → k (push_all zs []) ≡ range_query rev zs)
      → is_outside c a b ≡ false
      → (r >>= (λ cur. from_first c b cur >>= λ out. some (k out)))
        ≡ some (range_query rev (inside a b (x ∷ xs)))
  read_lem r k rev found ends within =
      let most : AtMost c.prev_timestamp (x ∷ xs) =
        subst (λ t. AtMost t (x ∷ xs)) (sym newest) (AtMost-last_sample x xs s) in
      let start : a ≤ (last_sample x xs).timestamp = omega (arith, begins within, newest) in
      from_first_lem c b r (from_start a (x ∷ xs)) k small found (from_start-pos a x xs start)
        (IsSorted-from_start a (x ∷ xs) s) (AtMost-from_start a c.prev_timestamp (x ∷ xs) most)
      ∙ ap some (
          ends (up_to b (from_start a (x ∷ xs)))
            (omega (arith, few, ap length (inside_run a b (x ∷ xs) s), length-inside a b (x ∷ xs)))
          ∙ ap (range_query rev) (sym (inside_run a b (x ∷ xs) s)))

  forward :
      (junk : Sample) → decompress_chunk c a b junk ≡ some (range_query false (inside a b (x ∷ xs)))
  unfolding decompress_chunk reset_enriched_chunk
  forward junk =
      if_both (λ t. t ≡ some (range_query false (inside a b (x ∷ xs)))) (is_outside c a b)
        (λ out. ap (λ t. some (range_query false t)) (sym (inside-is_outside out)))
        λ within. rw (begun.1 junk) (
          read_lem (skip_older (suc c.count) c a cr_ok (begun.0, x)) done false
            (skip_older-Found c small a (suc c.count) x xs begun.0 begun.2
              (omega (arith, begun.2.1)))
            done_lem within)

  backward :
      (junk : Sample)
      → decompress_chunk_reverse c a b junk ≡ some (range_query true (inside a b (x ∷ xs)))
  unfolding decompress_chunk_reverse reset_enriched_chunk
  backward junk =
      if_both (λ t. t ≡ some (range_query true (inside a b (x ∷ xs)))) (is_outside c a b)
        (λ out. ap (λ t. some (range_query true t)) (sym (inside-is_outside out)))
        λ within. rw (begun.1 junk) (
          read_lem (skip_older_reverse (suc c.count) c a (begun.0, x)) done_reverse true
            (skip_older_reverse-Found c small a (suc c.count) x xs begun.0 begun.2
              (omega (arith, begun.2.1)))
            done_reverse_lem within)

-- For a chunk of fewer than 2 ^ 32 samples, which are in order, `Compressed_ProcessChunk` gives the
-- samples with a timestamp from `a` to `b`, in order or in reverse order, and every loop of it ends.
-- With no such sample the buffer is as it was reset.
pub process_chunk-range_query :
    (c : CompressedChunk) (xs : List Sample) (a b : ℕ) (rev : Bool) (junk : Sample)
    → Represents c xs
    → IsSorted xs
    → length xs < 2 ^ 32
    → process_chunk c a b rev junk ≡ some (range_query rev (inside a b xs))
unfolding process_chunk decompress_chunk decompress_chunk_reverse reset_enriched_chunk
process_chunk-range_query c [] a b true junk h s few = rw ((==_iff c.count 0).1 h.count) refl
process_chunk-range_query c [] a b false junk h s few = rw ((==_iff c.count 0).1 h.count) refl
process_chunk-range_query c (x ∷ xs) a b true junk h s few = backward c x xs h s few a b junk
process_chunk-range_query c (x ∷ xs) a b false junk h s few = forward c x xs h s few a b junk
