-- ===== src/Compressed/Loops.antt =====
-- The loops that read one chunk and fill another, and the operations made of them.
use mathlib.Core.Path.{subst}
use redis_time_series.Common.{ℕ, ◌+◌, ◌*◌, ◌^◌, ◌≤◌, ◌<◌, ◌≡◌, refl}
use redis_time_series.Common.{
  Option, some, List, [], ◌∷◌, ◌++◌, length, length-append, arith, inl, inr, Bool-cases,
}
use mathlib.Core.List.{append_assoc, append-nil}
use redis_time_series.Generic.{Sample, IsSample}
use redis_time_series.Gorilla.{CompressedChunk, CompressedIterator}
use redis_time_series.Gorilla.Samples.{Represents}
use redis_time_series.Gorilla.Iterating.{Reads}
use redis_time_series.Compressed.{Cursor, copy_samples, del_samples}
use redis_time_series.Ranges.{in_range, outside}
use redis_time_series.Compressed.Ensure.{ensure_add_sample-Succeeds}

-- Every sample of the list is a pair of words.
abbrev pub AllSamples : List Sample → Type 0
AllSamples [] = Unit {0}
AllSamples (x ∷ xs) = IsSample x × AllSamples xs

-- A loop that has read the first samples: what is left, and what the other chunk represents.
pub record Copied (r : Option (Cursor × CompressedChunk)) (src : CompressedChunk)
    (rest ys : List Sample) (limit : ℕ) : Type 0 where
  pub cursor : Cursor
  pub chunk : CompressedChunk
  pub returned : r ≡ some (cursor, chunk)
  pub reads : Reads src cursor.0 rest
  pub represents : Represents chunk ys
  pub within : chunk.size ≤ limit

pub copy_samples-Copied :
    (xs rest ys : List Sample) (src : CompressedChunk) (it : CompressedIterator) (old : Sample)
    (dst : CompressedChunk)
    → Reads src it (xs ++ rest)
    → AllSamples xs
    → Represents dst ys
    → dst.size + 32 * length xs < 2 ^ 31
    → Copied
        (copy_samples (length xs) src (it, old) dst)
        src
        rest
        (ys ++ xs)
        (dst.size + 32 * length xs)
unfolding copy_samples
copy_samples-Copied [] rest ys src it old dst r words h small = record {
  cursor = (it, old);
  chunk = dst;
  returned = refl;
  reads = r;
  represents = rw append-nil h;
  within = omega arith;
}
copy_samples-Copied (x ∷ xs) rest ys src it old dst (it', e, r) (word, words) h small =
    let step = ensure_add_sample-Succeeds dst ys x h word (omega arith) in
    let more =
      copy_samples-Copied xs rest (ys ++ x ∷ []) src it' x step.chunk r words step.represents
        (omega (arith, step.within)) in
    rw (e old, step.returned)
      (record {
        cursor = more.cursor;
        chunk = more.chunk;
        returned = more.returned;
        reads = more.reads;
        represents =
            subst (λ t. Represents more.chunk t) (append_assoc ys (x ∷ []) xs) more.represents;
        within = omega (arith, more.within, step.within);
      })

pub record Deleted (r : Option (ℕ × CompressedChunk)) (ys : List Sample) (n limit : ℕ)
    : Type 0 where
  pub chunk : CompressedChunk
  pub deleted : ℕ
  pub returned : r ≡ some (deleted, chunk)
  pub represents : Represents chunk ys
  pub all_counted : deleted + length ys ≡ n
  pub within : chunk.size ≤ limit

pub del_samples-Deleted :
    (xs ys : List Sample) (a b : ℕ) (src : CompressedChunk) (it : CompressedIterator) (old : Sample)
    (n : ℕ) (dst : CompressedChunk)
    → Reads src it xs
    → AllSamples xs
    → Represents dst ys
    → dst.size + 32 * length xs < 2 ^ 31
    → Deleted
        (del_samples (length xs) a b src (it, old) n dst)
        (ys ++ outside a b xs)
        (n + length ys + length xs)
        (dst.size + 32 * length xs)
unfolding del_samples
del_samples-Deleted [] ys a b src it old n dst r words h small = record {
  chunk = dst;
  deleted = n;
  returned = refl;
  represents = rw append-nil h;
  all_counted = omega (arith, length-append {0} ys []);
  within = omega arith;
}
del_samples-Deleted (x ∷ xs) ys a b src it old n dst (it', e, r) (word, words) h small =
    elim (Bool-cases (in_range a b x)) [
      | inl inside ↦
          let more = del_samples-Deleted xs ys a b src it' x (n + 1) dst r words h (omega arith) in
          rw (e old, inside)
            (record {
              chunk = more.chunk;
              deleted = more.deleted;
              returned = more.returned;
              represents = more.represents;
              all_counted = omega (arith, more.all_counted);
              within = omega (arith, more.within);
            })
      | inr out ↦
          let step = ensure_add_sample-Succeeds dst ys x h word (omega arith) in
          let more =
            del_samples-Deleted xs (ys ++ x ∷ []) a b src it' x n step.chunk r words step.represents
              (omega (arith, step.within)) in
          rw (e old, out, step.returned, ← append_assoc ys (x ∷ []) (outside a b xs))
            (record {
              chunk = more.chunk;
              deleted = more.deleted;
              returned = more.returned;
              represents = more.represents;
              all_counted = omega (arith, more.all_counted, length-append {0} ys (x ∷ []));
              within = omega (arith, more.within, step.within);
            })
    ]
