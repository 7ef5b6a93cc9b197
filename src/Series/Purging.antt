-- ===== src/Series/Purging.antt =====
-- What the loop of `SeriesDelRange` leaves, by what its first round does.
use mathlib.Core.Path.{subst, ap₂}
use mathlib.Core.List.{append_assoc}
use redis_time_series.Common.{
  ℕ, ◌+◌, ◌≤◌, ◌≡◌, ◌⊎◌, inl, inr, refl, sym, ap, ◌∙◌, Option, some, List, [], ◌∷◌, ◌++◌, length,
  length-append, arith,
}
use redis_time_series.Generic.{Sample}
use redis_time_series.Ranges.{last_sample, outside, AtMost}
use redis_time_series.Chunks.{ChunkFuncs, ChunkLaws}
use redis_time_series.Dictionary.{Dictionary, DictionaryLaws}
use redis_time_series.Dictionary.Entries.{LastIs}
use redis_time_series.Series.{Series, update}
use redis_time_series.Series.Rows.{
  IsAscending, flat, Apart, Row, Row-map, update_same, update_other, AtMost-ascending,
}
use redis_time_series.Series.Outside.{
  outside-append, AtMost-outside, IsAscending-outside, last_sample-le,
}

pub behind_nil : (pre : List (ℕ × ℕ)) (e : ℕ × ℕ) → pre ++ (e ∷ []) ≡ [] → ⊥
behind_nil [] e h = cc
behind_nil (x ∷ pre) e h = cc

module _ (f : ChunkFuncs) (d : Dictionary) (size : ℕ) (L : ChunkLaws f size) (D : DictionaryLaws d)
    (a b : ℕ) where
  -- A chunk of the row that has the samples, and the memory that a deletion may need.
  abbrev pub Ready : f.Chunk → List Sample → Type 0
  Ready c xs = L.Holds c xs × L.Spare c

  -- The only chunk is left without a sample; its key is 0.
  abbrev pub Emptied : (ℕ → f.Chunk) → List (ℕ × ℕ) → List (ℕ × ℕ) → List (List Sample) → Type 0
  Emptied memory pre post segs =
      (pre ≡ []) × (flat segs ≡ []) × (p : ℕ) × (post ≡ (0, p) ∷ []) × L.Holds (memory p) []

  -- The rest of the loop, which starts at the entries `es` behind `pre`: of their chunks' samples
  -- those outside the range are left, the others are counted, and nothing else is changed.
  pub record Purged (s : Series f.Chunk d.Dict) (pre es : List (ℕ × ℕ)) (segs : List (List Sample))
      (bound deleted : ℕ) (result : Option (Series f.Chunk d.Dict × ℕ)) : Type 0 where
    pub final : Series f.Chunk d.Dict
    pub gone : ℕ
    pub post : List (ℕ × ℕ)
    pub kept : List (List Sample)
    pub returned : result ≡ some (final, gone)
    pub shape :
        final
        ≡ record s { chunks = final.chunks; last_chunk = final.last_chunk; memory = final.memory }
    pub entries_final : D.entries final.chunks ≡ pre ++ post
    pub row : Row L.Holds final.memory bound post kept ⊎ Emptied final.memory pre post kept
    pub samples : flat kept ≡ outside a b (flat segs)
    pub counted : gone + length (flat kept) ≡ deleted + length (flat segs)
    pub same : (q : ℕ) → Apart q es → final.memory q ≡ s.memory q
    pub apart : (q : ℕ) → Apart q es → Apart q post
    pub last_is : LastIs final.last_chunk (pre ++ post)

  module _ (s : Series f.Chunk d.Dict) (pre es : List (ℕ × ℕ)) (k p : ℕ) (x : Sample)
      (xs : List Sample) (segs : List (List Sample)) (bound deleted : ℕ)
      (row : Row Ready s.memory bound ((k, p) ∷ es) ((x ∷ xs) ∷ segs)) where
    module _ (c : f.Chunk) (chunks : d.Dict) where
      abbrev pub written : Series f.Chunk d.Dict
      written = record s { memory = update s.memory p c; chunks = chunks }

      -- Some samples are left in the chunk, whose key may have changed.
      pub purged :
          (result : Option (Series f.Chunk d.Dict × ℕ)) (k' deleted' : ℕ) (y : Sample)
          (ys : List Sample)
          → outside a b (x ∷ xs) ≡ y ∷ ys
          → L.Holds c (y ∷ ys)
          → bound ≤ k'
          → (k' ≡ y.timestamp) ⊎ (k' ≡ 0)
          → deleted' + length (y ∷ ys) ≡ deleted + length (x ∷ xs)
          → Purged written
              (pre ++ ((k', p) ∷ []))
              es
              segs
              ((last_sample x xs).timestamp + 1)
              deleted'
              result
          → Purged s pre ((k, p) ∷ es) ((x ∷ xs) ∷ segs) bound deleted result
      purged result k' deleted' y ys left held low key sum r =
          let z = (last_sample x xs).timestamp in
          let apart_p = row.4 in
          let most : AtMost z (y ∷ ys) =
            subst (AtMost z) left (AtMost-outside z a b (x ∷ xs) (AtMost-ascending x xs row.2)) in
          let asc : IsAscending (y ∷ ys) =
            subst IsAscending left (IsAscending-outside a b (x ∷ xs) row.2) in
          record {
            final = r.final;
            gone = r.gone;
            post = (k', p) ∷ r.post;
            kept = (y ∷ ys) ∷ r.kept;
            returned = r.returned;
            shape = r.shape;
            entries_final = r.entries_final ∙ append_assoc pre ((k', p) ∷ []) r.post;
            row = elim r.row [
              | inl rest ↦ inl (
                low,
                key,
                asc,
                subst (λ t. L.Holds t (y ∷ ys)) (sym (r.same p apart_p ∙ update_same s.memory p c))
                    held,
                r.apart p apart_p,
                Row-map L.Holds L.Holds r.final.memory r.final.memory (z + 1)
                    ((last_sample y ys).timestamp + 1) r.post r.kept (λ t ts h. h)
                    (omega (arith, last_sample-le z y ys most)) (λ q in_es. refl) rest,
              )
              | inr emptied ↦ absurd (behind_nil pre (k', p) emptied.0)
            ];
            samples =
                sym (outside-append a b (x ∷ xs) (flat segs) ∙ ap₂ (◌++◌) left (sym r.samples));
            counted = omega (
              arith,
              sum,
              r.counted,
              length-append {0} (x ∷ xs) (flat segs),
              length-append {0} (y ∷ ys) (flat r.kept),
            );
            same = λ q h. r.same q h.1 ∙ update_other s.memory p c q (λ e. h.0 (sym e));
            apart = λ q h. (h.0, r.apart q h.1);
            last_is =
                subst (LastIs r.final.last_chunk) (append_assoc pre ((k', p) ∷ []) r.post)
                  r.last_is;
          }

      -- Nothing is left, in the only chunk.
      pub emptied_lem :
          (deleted' : ℕ)
          → pre ≡ []
          → es ≡ []
          → flat segs ≡ []
          → outside a b (x ∷ xs) ≡ []
          → L.Holds c []
          → D.entries chunks ≡ (0, p) ∷ []
          → s.last_chunk ≡ p
          → deleted' ≡ deleted + length (x ∷ xs)
          → Purged s pre ((k, p) ∷ es) ((x ∷ xs) ∷ segs) bound deleted (some (written, deleted'))
      emptied_lem deleted' none_before none_behind no_more left held now last sum = record {
        final = written;
        gone = deleted';
        post = (0, p) ∷ [];
        kept = [];
        returned = refl;
        shape = refl;
        entries_final = rw none_before now;
        row = inr (
          none_before,
          refl,
          p,
          refl,
          subst (λ t. L.Holds t []) (sym (update_same s.memory p c)) held,
        );
        samples =
            sym (
              outside-append a b (x ∷ xs) (flat segs) ∙ ap₂ (◌++◌) left (ap (outside a b) no_more));
        counted = rw no_more (omega (arith, sum, length-append {0} (x ∷ xs) []));
        same = λ q h. update_other s.memory p c q (λ e. h.0 (sym e));
        apart = λ q h. (h.0, tt);
        last_is = rw none_before (0, ap (λ q. some (0, q)) (sym last));
      }
