-- ===== src/Compressed/Scanning.antt =====
-- `Compressed_UpsertSample` against the list of samples.
use mathlib.Core.Path.{subst}
use mathlib.Core.List.{append_assoc}
use redis_time_series.Common.{
  ℕ, zero, suc, ◌+◌, ◌*◌, ◌^◌, ◌≤◌, ◌<◌, ◌≡◌, ◌≢◌, refl, sym, Bool-cases, inl, inr, true, false,
}
use redis_time_series.Common.{
  Option, none, some, List, [], ◌∷◌, ◌++◌, length, arith, leb, ◌==◌, ne→==, leb→lt,
}
use redis_time_series.Generic.{
  Sample, IsSample, ChunkResult, cr_ok, DuplicatePolicy, Doubles, handle_duplicate_sample,
  upsert_list, behind,
}
use redis_time_series.Gorilla.{CompressedChunk, CompressedIterator}
use redis_time_series.Gorilla.Read.{new_iterator, get_next}
use redis_time_series.Gorilla.Samples.{Represents}
use redis_time_series.Gorilla.Iterating.{Reads, Reads-new_iterator}
use redis_time_series.Common.{◌>>=◌}
use redis_time_series.Compressed.{Cursor, new_chunk, ensure_add_sample}
use redis_time_series.Compressed.Growth.{new_chunk-Represents, Represents-IsPacked}
use redis_time_series.Compressed.Ensure.{ensure_add_sample-Succeeds}
use redis_time_series.Compressed.Loops.{AllSamples}
use redis_time_series.Compressed.Split.{count-Represents}
use redis_time_series.Compressed.Upsert.{Upsert, scan, after_scan, upsert_sample}
use redis_time_series.Compressed.Upserting.{
  Upserted, finish-last, finish-more, after_duplicate-Upserted, handle_duplicate_sample-IsSample,
}

-- The sample `x` was copied before the others were looked at.
Upserted-behind :
    (r : Option Upsert) (c : CompressedChunk) (ys : List Sample) (x : Sample)
    (o : Option (ℕ × List Sample))
    → Upserted r c (ys ++ x ∷ []) o
    → Upserted r c ys (behind x o)
Upserted-behind r c ys x none h = h
Upserted-behind r c ys x (some (k, zs)) (u, new, e, h) =
    (u, new, e, subst (λ t. Represents u t) (append_assoc ys (x ∷ []) zs) h)

module _ (ts n : ℕ) (src dst : CompressedChunk) (it it' : CompressedIterator) (old x : Sample)
    (res : ChunkResult) (e : get_next src it old ≡ (cr_ok, it', x)) where
  scan-stop :
      leb ts x.timestamp ≡ true
      → scan (suc n) ts src (it, old) res dst
        ≡ some (record { left = suc n; next_res = cr_ok; cursor = (it', x); new_chunk = dst })
  unfolding scan
  scan-stop le = rw (e, le) refl

  scan-go :
      (dst' : CompressedChunk)
      → leb ts x.timestamp ≡ false
      → ensure_add_sample dst x ≡ some dst'
      → scan (suc n) ts src (it, old) res dst ≡ scan n ts src (it', x) cr_ok dst'
  unfolding scan
  scan-go dst' gt step = rw (e, gt, step) refl

scan-done :
    (ts : ℕ) (src dst : CompressedChunk) (cur : Cursor) (res : ChunkResult)
    → scan zero ts src cur res dst
      ≡ some (record { left = 0; next_res = res; cursor = cur; new_chunk = dst })
unfolding scan
scan-done ts src dst cur res = refl

module _ (d : Doubles) (policy : DuplicatePolicy) (src : CompressedChunk) (s : Sample)
    (word : IsSample s) where
  scan-Upserted :
      (xs ys : List Sample) (it : CompressedIterator) (old : Sample) (res : ChunkResult)
      (dst : CompressedChunk)
      → Reads src it xs
      → AllSamples xs
      → Represents dst ys
      → (length xs ≡ 0 → s.timestamp ≢ old.timestamp)
      → length xs ≤ src.count
      → dst.size + 32 * length xs + 32 < 2 ^ 31
      → Upserted
          (scan (length xs) s.timestamp src (it, old) res dst >>= after_scan d policy src s)
          src
          ys
          (upsert_list d policy s xs)
  unfolding after_scan
  scan-Upserted [] ys it old res dst r words h new fuel small =
      rw (scan-done s.timestamp src dst (it, old) res, ne→== s.timestamp old.timestamp (new refl))
        (finish-last src ys dst h s word 0 1 res (it, old) (inl refl) (omega arith))
  scan-Upserted (x ∷ xs) ys it old res dst (it', e, r) (wx, words) h new fuel small =
      elim (Bool-cases (leb s.timestamp x.timestamp)) [
        | inl le ↦
            rw (scan-stop s.timestamp (length xs) src dst it it' old x res (e old) le, le)
              (elim (Bool-cases (s.timestamp == x.timestamp)) [
                | inl same ↦
                    let o = handle_duplicate_sample d policy x s in
                    rw same (
                      after_duplicate-Upserted src ys dst h o.1
                        (handle_duplicate_sample-IsSample d policy x s wx word) (length xs) cr_ok x
                        xs it' o r words refl (omega arith) (omega arith))
                | inr before ↦ rw before (
                    finish-more src ys dst h s word (length xs) 1 x xs it' r words wx (omega arith)
                      (omega arith))
              ])
        | inr gt ↦
            let step = ensure_add_sample-Succeeds dst ys x h wx (omega arith) in
            rw
              (
                scan-go s.timestamp (length xs) src dst it it' old x res (e old) step.chunk gt
                    step.returned,
                gt,
              )
              (Upserted-behind
                (scan (length xs) s.timestamp src (it', x) cr_ok step.chunk
                  >>= after_scan d policy src s)
                src ys x (upsert_list d policy s xs)
                (scan-Upserted xs (ys ++ x ∷ []) it' x cr_ok step.chunk r words step.represents
                  (λ _ same. absurd (omega (arith, leb→lt s.timestamp x.timestamp gt, same)))
                  (omega arith) (omega (arith, step.within))))
      ]

-- `Compressed_UpsertSample` does to the samples of the chunk what `upsert_list` does: where the
-- policy refuses a sample at a timestamp that is there, it returns CR_ERR and the chunk is as it
-- was; else it succeeds, the sample is in its place or merged with the one there, and `*size` is the
-- number of samples that are new. If the chunk is empty, the uninitialised `iterSample` must not
-- happen to have the sample's timestamp.
pub upsert_sample-Upserted :
    (d : Doubles) (policy : DuplicatePolicy) (c : CompressedChunk) (xs : List Sample)
    (s junk : Sample)
    → Represents c xs
    → AllSamples xs
    → IsSample s
    → (length xs ≡ 0 → s.timestamp ≢ junk.timestamp)
    → c.size + 32 * length xs + 32 < 2 ^ 31
    → Upserted (upsert_sample d policy c s junk) c [] (upsert_list d policy s xs)
unfolding upsert_sample new_chunk
upsert_sample-Upserted d policy c xs s junk h words word new small =
    let count = count-Represents c xs h in
    let run =
      scan-Upserted d policy c s word xs [] (new_iterator c) junk cr_ok (new_chunk c.size)
        (Reads-new_iterator c xs h) words
        (new_chunk-Represents c.size (omega (arith, (Represents-IsPacked c xs h).sized))
          (omega arith))
        new (omega (arith, count)) small in
    subst
      (λ n.
        Upserted
          (scan n s.timestamp c (new_iterator c, junk) cr_ok (new_chunk c.size)
            >>= after_scan d policy c s)
          c [] (upsert_list d policy s xs))
      (sym count) run
