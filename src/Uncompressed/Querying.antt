-- ===== src/Uncompressed/Querying.antt =====
-- `Uncompressed_ProcessChunk` against the list of samples.
use mathlib.Core.List.{append_assoc}
use redis_time_series.Common.{
  ℕ, suc, ◌+◌, ◌-◌, ◌^◌, ◌<◌, ◌≡◌, refl, sym, ap, ◌∙◌, Bool, true, some, List, [], ◌∷◌, ◌++◌,
  length, length-append, ◌==◌, ==_iff, ne→==, if_both, get_or, drop, arith, drop-append,
}
use redis_time_series.Generic.{Sample}
use redis_time_series.Ranges.{
  inside, inside-ends, inside_run, IsSorted, last_sample, from_start, up_to, before, after,
  before-append, up_to-append,
}
use redis_time_series.Enriched.{reset_enriched_chunk, range_query}
use redis_time_series.Uncompressed.{Chunk, no_sample}
use redis_time_series.Uncompressed.Stores.{Stores}
use redis_time_series.Uncompressed.Process.{search_start, search_end, is_outside, process_chunk}
use redis_time_series.Uncompressed.Columns.{search_start-before, search_end-up_to, fill_columns_lem}

nil_of_length : (xs : List Sample) → length xs ≡ 0 → xs ≡ []
nil_of_length [] e = refl
nil_of_length (x ∷ xs) e = absurd (omega arith)

get_or-last_sample :
    (x : Sample) (xs free : List Sample)
    → get_or (x ∷ xs ++ free) (length xs) no_sample ≡ last_sample x xs
get_or-last_sample x [] free = refl
get_or-last_sample x (y ∷ ys) free = get_or-last_sample y ys free

-- The test at the chunk's ends is right.
inside-is_outside :
    (c : Chunk) (x : Sample) (xs : List Sample) (a b : ℕ)
    → Stores c (x ∷ xs)
    → IsSorted (x ∷ xs)
    → is_outside c a b ≡ true
    → inside a b (x ∷ xs) ≡ []
inside-is_outside c x xs a b h s out =
    inside-ends c.base_timestamp last x xs a b s h.first last_lem
      (rw (ne→== c.num_samples 0 (omega (arith, h.count))) at out)
  where
    last : ℕ
    last = (get_or c.samples (c.num_samples - 1) no_sample).timestamp

    last_lem : last ≡ (last_sample x xs).timestamp
    last_lem =
        let at : c.num_samples - 1 ≡ length xs = omega (arith, h.count) in
        let found : get_or c.samples (c.num_samples - 1) no_sample ≡ last_sample x xs =
          rw (at, h.slots) (get_or-last_sample x xs h.free) in
        ap (λ (t : Sample). t.timestamp) found

-- For a chunk whose samples are in order, `Uncompressed_ProcessChunk` gives the samples with a
-- timestamp from `a` to `b`, in order or in reverse order. With no such sample the buffer is as it
-- was reset.
pub process_chunk-inside :
    (c : Chunk) (xs : List Sample) (a b : ℕ) (rev : Bool)
    → Stores c xs
    → IsSorted xs
    → process_chunk (some c) a b rev ≡ range_query rev (inside a b xs)
unfolding process_chunk reset_enriched_chunk
process_chunk-inside c [] a b rev h s = rw ((==_iff c.num_samples 0).1 h.count) refl
process_chunk-inside c (x ∷ xs) a b rev h s =
    if_both (λ t. t ≡ range_query rev (inside a b (x ∷ xs))) (is_outside c a b)
      (λ out. ap (range_query rev) (sym (inside-is_outside c x xs a b h s out)))
      λ _.
        if_both (λ t. t ≡ range_query rev (inside a b (x ∷ xs))) (si == c.num_samples)
          (λ e. ap (range_query rev) (sym (nothing ((==_iff si c.num_samples).0 e))))
          (λ _.
            rw (si_lem, ended)
              (fill_columns_lem c rev pre run (after b rest ++ h.free) three small
                ∙ ap (range_query rev) (sym (inside_run a b all s))))
  where
    all : List Sample
    all = x ∷ xs

    si : ℕ
    si = search_start c.num_samples 0 a c.samples

    pre : List Sample
    pre = before a all

    si_lem : si ≡ length pre
    si_lem = rw (h.slots, h.count) (search_start-before a 0 all h.free ∙ omega arith)

    rest : List Sample
    rest = from_start a all

    run : List Sample
    run = up_to b rest

    lengths : length pre + length rest ≡ suc (length xs)
    lengths = sym (length-append pre rest) ∙ ap length (before-append a all)

    lengths_rest : length run + length (after b rest) ≡ length rest
    lengths_rest = sym (length-append run (after b rest)) ∙ ap length (up_to-append b rest)

    two : c.samples ≡ pre ++ (rest ++ h.free)
    two = h.slots ∙ ap (λ t. t ++ h.free) (sym (before-append a all)) ∙ append_assoc pre rest h.free

    three : c.samples ≡ pre ++ (run ++ (after b rest ++ h.free))
    three =
        two
        ∙ ap (λ t. pre ++ t)
            (ap (λ t. t ++ h.free) (sym (up_to-append b rest))
              ∙ append_assoc run (after b rest) h.free)

    small : length pre + length run < 2 ^ 32
    small = omega (arith, lengths, lengths_rest, h.room, h.small)

    nothing : si ≡ c.num_samples → inside a b all ≡ []
    nothing e =
        inside_run a b all s
        ∙ ap (up_to b) (nil_of_length rest (omega (arith, e, si_lem, lengths, h.count)))

    ended :
        search_end (c.num_samples - length pre) (length pre) b (drop (length pre) c.samples)
        ≡ length pre + length run
    ended =
        let left : c.num_samples - length pre ≡ length rest = omega (arith, lengths, h.count) in
        let dropped : drop (length pre) c.samples ≡ rest ++ h.free =
          rw two (drop-append pre (rest ++ h.free)) in
        rw (left, dropped) (search_end-up_to b (length pre) rest h.free)
