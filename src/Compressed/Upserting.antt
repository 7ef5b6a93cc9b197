-- ===== src/Compressed/Upserting.antt =====
-- What `Compressed_UpsertSample` does once the place of its sample is found.
use mathlib.Core.Path.{subst}
use mathlib.Core.List.{append_assoc}
use redis_time_series.Common.{
  ◌⊎◌, ◌||◌, ◌&&◌, not, ℕ, zero, suc, ◌+◌, ◌*◌, ◌^◌, ◌≤◌, ◌<◌, ◌≡◌, refl, ◌∙◌, Bool-cases, inl, inr,
}
use redis_time_series.Common.{
  Option, none, some, List, [], ◌∷◌, ◌++◌, length, arith, if_both, ◌==◌, ne→==,
}
use redis_time_series.Generic.{
  Sample, IsSample, ChunkResult, cr_ok, cr_err, cr_end, DuplicatePolicy, dp_block, dp_first,
  dp_last, dp_min, dp_max, dp_sum, dp_invalid, dp_none, Doubles, handle_duplicate_sample,
  apply_policy, merged, is_block,
}
use redis_time_series.Gorilla.{CompressedChunk, CompressedIterator}
use redis_time_series.Gorilla.Read.{get_next}
use redis_time_series.Gorilla.Samples.{Represents}
use redis_time_series.Gorilla.Iterating.{Reads}
use redis_time_series.Compressed.{Cursor, ensure_add_sample}
use redis_time_series.Compressed.Ensure.{Succeeds, ensure_add_sample-Succeeds}
use redis_time_series.Compressed.Loops.{AllSamples}
use redis_time_series.Compressed.Upsert.{Upsert, copy_rest, finish, after_duplicate}

-- What the source leaves, by the outcome on lists: an error and the chunk `c` itself, or success,
-- the number of new samples and a chunk that represents `ys` and then the list.
abbrev pub Upserted :
    Option Upsert → CompressedChunk → List Sample → Option (ℕ × List Sample) → Type 0
Upserted r c ys none =
    (new : Sample) × (r ≡ some (record { result = cr_err; chunk = c; size = 0; sample = new }))
Upserted r c ys (some (k, zs)) =
    (u : CompressedChunk) × (new : Sample) × (r
      ≡ some (record { result = cr_ok; chunk = u; size = k; sample = new }))
    × Represents u (ys ++ zs)

copy_rest-end :
    (f : ℕ) (src : CompressedChunk) (cur : Cursor) (dst : CompressedChunk)
    → copy_rest (suc f) src cur cr_end dst ≡ some dst
unfolding copy_rest
copy_rest-end f src cur dst = refl

-- One round of the loop.
copy_rest-round :
    (f : ℕ) (src dst dst' : CompressedChunk) (it it' : CompressedIterator) (x y : Sample)
    (r : ChunkResult)
    → get_next src it x ≡ (r, it', y)
    → ensure_add_sample dst x ≡ some dst'
    → copy_rest (suc f) src (it, x) cr_ok dst ≡ copy_rest f src (it', y) r dst'
unfolding copy_rest
copy_rest-round f src dst dst' it it' x y r e step = rw (e, step) refl

copy_rest-Succeeds :
    (xs ys : List Sample) (x : Sample) (src : CompressedChunk) (it : CompressedIterator)
    (dst : CompressedChunk) (f : ℕ)
    → Reads src it xs
    → AllSamples xs
    → IsSample x
    → Represents dst ys
    → length xs < f
    → dst.size + 32 * length xs + 32 < 2 ^ 31
    → Succeeds
        (copy_rest (suc f) src (it, x) cr_ok dst)
        (ys ++ x ∷ xs)
        (dst.size + 32 * length xs + 32)
copy_rest-Succeeds xs ys x src it dst zero r words word h fuel small = absurd (omega arith)
copy_rest-Succeeds [] ys x src it dst (suc f) r words word h fuel small =
    let step = ensure_add_sample-Succeeds dst ys x h word (omega arith) in
    record {
      chunk = step.chunk;
      returned =
          copy_rest-round (suc f) src dst step.chunk it it x x cr_end (r x) step.returned
          ∙ copy_rest-end f src (it, x) step.chunk;
      represents = step.represents;
      within = omega (arith, step.within);
    }
copy_rest-Succeeds (y ∷ xs) ys x src it dst (suc f) (it', e, r) (wy, words) word h fuel small =
    let step = ensure_add_sample-Succeeds dst ys x h word (omega arith) in
    let more =
      copy_rest-Succeeds xs (ys ++ x ∷ []) y src it' step.chunk f r words wy step.represents
        (omega arith) (omega (arith, step.within)) in
    record {
      chunk = more.chunk;
      returned =
          copy_rest-round (suc f) src dst step.chunk it it' x y cr_ok (e x) step.returned
          ∙ more.returned;
      represents =
          subst (λ t. Represents more.chunk t) (append_assoc ys (x ∷ []) (y ∷ xs)) more.represents;
      within = omega (arith, more.within, step.within);
    }

apply_policy-IsSample :
    (d : Doubles) (policy : DuplicatePolicy) (old new : Sample)
    → IsSample old
    → IsSample new
    → IsSample (apply_policy d policy old new).1
unfolding apply_policy
apply_policy-IsSample d dp_block old new h g = g
apply_policy-IsSample d dp_first old new h g = h
apply_policy-IsSample d dp_last old new h g = g
apply_policy-IsSample d dp_min old new h g =
    if_both IsSample (d.less old.value new.value)
      (λ _. record { timestamp_word = g.timestamp_word; value_word = h.value_word }) (λ _. g)
apply_policy-IsSample d dp_max old new h g =
    if_both IsSample (d.less new.value old.value)
      (λ _. record { timestamp_word = g.timestamp_word; value_word = h.value_word }) (λ _. g)
apply_policy-IsSample d dp_sum old new h g = record {
  timestamp_word = g.timestamp_word;
  value_word = d.plus_word new.value old.value;
}
apply_policy-IsSample d dp_invalid old new h g = g
apply_policy-IsSample d dp_none old new h g = g

-- The sample that is kept is a pair of words.
pub handle_duplicate_sample-IsSample :
    (d : Doubles) (policy : DuplicatePolicy) (old new : Sample)
    → IsSample old
    → IsSample new
    → IsSample (handle_duplicate_sample d policy old new).1
unfolding handle_duplicate_sample
handle_duplicate_sample-IsSample d policy old new h g =
    if_both (λ (o : ChunkResult × Sample). IsSample o.1)
      ((d.isnan old.value || d.isnan new.value) && not (is_block policy))
      (λ _.
        if_both IsSample (d.isnan new.value)
          (λ _. record { timestamp_word = g.timestamp_word; value_word = h.value_word }) (λ _. g))
      (λ _. apply_policy-IsSample d policy old new h g)

module _ (src : CompressedChunk) (ys : List Sample) (dst : CompressedChunk) (h : Represents dst ys)
    (s : Sample) (word : IsSample s) where
  -- The sample is the last.
  pub finish-last :
      (left k : ℕ) (res : ChunkResult) (cur : Cursor)
      → (left ≡ 0) ⊎ (res ≡ cr_end)
      → dst.size + 32 < 2 ^ 31
      → Upserted (finish src left res cur dst s k) src ys (some (k, s ∷ []))
  unfolding finish copy_rest
  finish-last left k res cur over small =
      let step = ensure_add_sample-Succeeds dst ys s h word small in
      (
        step.chunk,
        s,
        elim over [
          | inl none_left ↦ rw (step.returned, none_left) refl
          | inr ended ↦
              rw (step.returned, ended)
                (elim (Bool-cases (left == 0)) [ inl a ↦ rw a refl | inr b ↦ rw b refl ])
        ],
        step.represents,
      )

  -- `x` and the samples that the iterator still gives follow it.
  pub finish-more :
      (n k : ℕ) (x : Sample) (xs : List Sample) (it : CompressedIterator)
      → Reads src it xs
      → AllSamples xs
      → IsSample x
      → length xs < src.count
      → dst.size + 32 * length xs + 64 < 2 ^ 31
      → Upserted (finish src (suc n) cr_ok (it, x) dst s k) src ys (some (k, s ∷ x ∷ xs))
  unfolding finish
  finish-more n k x xs it r words wx fuel small =
      let step = ensure_add_sample-Succeeds dst ys s h word (omega arith) in
      let more =
        copy_rest-Succeeds xs (ys ++ s ∷ []) x src it step.chunk src.count r words wx
          step.represents fuel (omega (arith, step.within)) in
      (
        more.chunk,
        s,
        rw (step.returned, ne→== (suc n) 0 (omega arith), more.returned) refl,
        subst (λ t. Represents more.chunk t) (append_assoc ys (s ∷ []) (x ∷ xs)) more.represents,
      )

  -- The sample was merged with one that was read, and stands in its place.
  pub after_duplicate-Upserted :
      (n : ℕ) (res : ChunkResult) (x : Sample) (xs : List Sample) (it : CompressedIterator)
      (o : ChunkResult × Sample)
      → Reads src it xs
      → AllSamples xs
      → o.1 ≡ s
      → length xs ≤ src.count
      → dst.size + 32 * length xs + 32 < 2 ^ 31
      → Upserted
          (after_duplicate src
            (record { left = suc n; next_res = res; cursor = (it, x); new_chunk = dst })
            o)
          src
          ys
          (merged xs o)
  unfolding after_duplicate
  after_duplicate-Upserted n res x [] it (cr_ok, new) r words e fuel small =
      rw (e, r x) (finish-last (suc n) 0 cr_end (it, x) (inr refl) (omega arith))
  after_duplicate-Upserted n res x (y ∷ xs) it (cr_ok, new) (it', e', r) (wy, words) e fuel small =
      rw (e, e' x) (finish-more n 0 y xs it' r words wy (omega arith) (omega arith))
  after_duplicate-Upserted n res x xs it (cr_err, new) r words e fuel small = (new, refl)
  after_duplicate-Upserted n res x xs it (cr_end, new) r words e fuel small = (new, refl)
