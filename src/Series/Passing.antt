-- ===== src/Series/Passing.antt =====
-- Chunks that `SeriesDelRange` passes over, stops at, or deletes whole.
use mathlib.Core.Path.{subst, ap₂}
use mathlib.Core.List.{append_assoc}
use redis_time_series.Common.{
  ℕ, suc, ◌+◌, ◌≤◌, ◌<◌, ◌≡◌, inl, inr, refl, sym, ap, ◌∙◌, Option, some, List, [], ◌∷◌, ◌++◌,
  length, length-append, arith,
}
use redis_time_series.Generic.{Sample}
use redis_time_series.Ranges.{last_sample, outside, AtLeast-trans, AtMost-trans}
use redis_time_series.Chunks.{ChunkFuncs, ChunkLaws}
use redis_time_series.Dictionary.{Dictionary, DictionaryLaws}
use redis_time_series.Dictionary.Entries.{LastIs}
use redis_time_series.Series.{Series, drop_chunk}
use redis_time_series.Series.Rows.{
  flat, Row, Row-map, Row-first, key-le, last_sample-ge, AtMost-ascending,
}
use redis_time_series.Series.Outside.{outside-append, outside-later, outside-earlier, outside_none}
use redis_time_series.Series.Purging.{Ready, Purged, behind_nil}

module _ (f : ChunkFuncs) (d : Dictionary) (size : ℕ) (L : ChunkLaws f size) (D : DictionaryLaws d)
    (a b : ℕ) where
  module _ (s : Series f.Chunk d.Dict) (pre es : List (ℕ × ℕ)) (k p : ℕ) (x : Sample)
      (xs : List Sample) (segs : List (List Sample)) (bound deleted : ℕ)
      (row : Row (Ready f d size L D a b) s.memory bound ((k, p) ∷ es) ((x ∷ xs) ∷ segs)) where
    -- All that is left is newer than the range.
    pub stopped :
        D.entries s.chunks ≡ pre ++ ((k, p) ∷ es)
        → LastIs s.last_chunk (pre ++ ((k, p) ∷ es))
        → b < x.timestamp
        → Purged f d size L D a b s pre
            ((k, p) ∷ es)
            ((x ∷ xs) ∷ segs)
            bound
            deleted
            (some (s, deleted))
    stopped e last newer = record {
      final = s;
      gone = deleted;
      post = (k, p) ∷ es;
      kept = (x ∷ xs) ∷ segs;
      returned = refl;
      shape = refl;
      entries_final = e;
      row = inl (
          Row-map (Ready f d size L D a b) L.Holds s.memory s.memory bound bound ((k, p) ∷ es)
            ((x ∷ xs) ∷ segs) (λ c ys h. h.0) (omega arith) (λ q in_es. refl) row);
      samples = sym (
          outside-later a b (flat ((x ∷ xs) ∷ segs)) (
            AtLeast-trans (b + 1) x.timestamp (flat ((x ∷ xs) ∷ segs)) (omega (arith, newer))
              (Row-first (Ready f d size L D a b) s.memory bound (k, p) es x xs segs row)));
      counted = refl;
      same = λ q h. refl;
      apart = λ q h. h;
      last_is = last;
    }

    -- The chunk is older than the range.
    pub skipped :
        (result : Option (Series f.Chunk d.Dict × ℕ))
        → (last_sample x xs).timestamp < a
        → Purged f d size L D a b s
            (pre ++ ((k, p) ∷ []))
            es
            segs
            ((last_sample x xs).timestamp + 1)
            deleted
            result
        → Purged f d size L D a b s pre ((k, p) ∷ es) ((x ∷ xs) ∷ segs) bound deleted result
    skipped result older r =
        let z = (last_sample x xs).timestamp in
        let apart_p = row.4 in
        record {
          final = r.final;
          gone = r.gone;
          post = (k, p) ∷ r.post;
          kept = (x ∷ xs) ∷ r.kept;
          returned = r.returned;
          shape = r.shape;
          entries_final = r.entries_final ∙ append_assoc pre ((k, p) ∷ []) r.post;
          row = elim r.row [
            | inl rest ↦
                inl (row.0, row.1, row.2, rw (r.same p apart_p) row.3.0, r.apart p apart_p, rest)
            | inr emptied ↦ absurd (behind_nil pre (k, p) emptied.0)
          ];
          samples = sym (
              outside-append a b (x ∷ xs) (flat segs)
              ∙ ap₂ (◌++◌) (outside-earlier a b z (x ∷ xs) (AtMost-ascending x xs row.2) older)
                  (sym r.samples));
          counted = omega (
            arith,
            r.counted,
            length-append {0} (x ∷ xs) (flat segs),
            length-append {0} (x ∷ xs) (flat r.kept),
          );
          same = λ q h. r.same q h.1;
          apart = λ q h. (h.0, r.apart q h.1);
          last_is =
              subst (LastIs r.final.last_chunk) (append_assoc pre ((k, p) ∷ []) r.post) r.last_is;
        }

    -- The range covers the chunk, and there is another one.
    pub dropped :
        (result : Option (Series f.Chunk d.Dict × ℕ))
        → a ≤ x.timestamp
        → (last_sample x xs).timestamp ≤ b
        → Purged f d size L D a b
            (drop_chunk f d s k p)
            pre
            es
            segs
            ((last_sample x xs).timestamp + 1)
            (deleted + suc (length xs))
            result
        → Purged f d size L D a b s pre ((k, p) ∷ es) ((x ∷ xs) ∷ segs) bound deleted result
    unfolding drop_chunk
    dropped result low high r =
        let z = (last_sample x xs).timestamp in
        let gone : outside a b (x ∷ xs) ≡ [] =
          outside_none a b (x ∷ xs)
            (low, AtLeast-trans a (x.timestamp + 1) xs (omega arith) row.2.0)
            (AtMost-trans z b (x ∷ xs) high (AtMost-ascending x xs row.2)) in
        record {
          final = r.final;
          gone = r.gone;
          post = r.post;
          kept = r.kept;
          returned = r.returned;
          shape = r.shape;
          entries_final = r.entries_final;
          row = elim r.row [
            | inl rest ↦ inl (
                Row-map L.Holds L.Holds r.final.memory r.final.memory (z + 1) bound r.post r.kept
                  (λ c ys h. h)
                  (omega (arith, row.0, key-le k x.timestamp row.1, last_sample-ge x xs row.2))
                  (λ q in_es. refl) rest)
            | inr emptied ↦ inr emptied
          ];
          samples =
              r.samples
              ∙ sym (
                  outside-append a b (x ∷ xs) (flat segs)
                  ∙ ap (λ t. t ++ outside a b (flat segs)) gone);
          counted = omega (arith, r.counted, length-append {0} (x ∷ xs) (flat segs));
          same = λ q h. r.same q h.1;
          apart = λ q h. r.apart q h.1;
          last_is = r.last_is;
        }
