-- ===== src/Series/Loop.antt =====
-- The loop of `SeriesDelRange`: every round does what `Purged` says, and the rounds come to an end.
use mathlib.Core.Path.{subst}
use mathlib.Core.List.{append_assoc}
use redis_time_series.Common.{
  ℕ, suc, ◌+◌, ◌^◌, ◌<◌, ◌≡◌, ◌≢◌, ◌⊎◌, inl, inr, refl, sym, ap, ◌∙◌, true, false, Bool-cases,
  if_both, Option, none, some, List, [], ◌∷◌, ◌++◌, ◌==◌, ==_iff, length, length-append, add64,
  arith,
}
use redis_time_series.Generic.{Sample}
use redis_time_series.Ranges.{last_sample}
use redis_time_series.Chunks.{ChunkFuncs, ChunkLaws}
use redis_time_series.Dictionary.{Dictionary, DictionaryLaws}
use redis_time_series.Dictionary.Entries.{
  head_of, above, above-append, KeysBelow, KeysAbove, KeysBelow-trans, KeysBelow-append, has,
  has-append, has-above, put, put-append, remove, remove-append, remove-above, LastIs, LastIs-drop,
  LastIs-rekey, last_in, last_in-some,
}
use redis_time_series.Series.{Series, last_or, drop_chunk, update_chunk_in_dict}
use redis_time_series.Series.Rows.{
  flat, Apart, Row, Row-map, Row-pos, Row-KeysAbove, key-le, last_sample-ge,
}
use redis_time_series.Series.Purging.{Ready}

-- Where the iterator is: it has not begun, or the first part is behind it.
abbrev pub Past : Option ℕ → List (ℕ × ℕ) → ℕ → Type 0
Past none pre bound = pre ≡ []
Past (some k) pre bound = KeysBelow (k + 1) pre × (k < bound)

Past-KeysBelow :
    (at : Option ℕ) (pre : List (ℕ × ℕ)) (bound : ℕ) → Past at pre bound → KeysBelow bound pre
Past-KeysBelow none pre bound e = subst (KeysBelow bound) (sym e) tt
Past-KeysBelow (some k) pre bound h = KeysBelow-trans (k + 1) bound pre (omega (arith, h.1)) h.0

pub true-false : true ≡ false → ⊥
true-false e = cc

below_zero : (pre : List (ℕ × ℕ)) → KeysBelow 0 pre → pre ≡ []
below_zero [] h = refl
below_zero (e ∷ pre) h = absurd (omega (arith, h.0))

module _ (f : ChunkFuncs) (d : Dictionary) (D : DictionaryLaws d) where
  update_chunk_in_dict_exact :
      (chunks : d.Dict) (pre es : List (ℕ × ℕ)) (p x y : ℕ)
      → D.entries chunks ≡ pre ++ ((x, p) ∷ es)
      → KeysBelow x pre
      → KeysBelow y pre
      → KeysAbove y es
      → D.entries (update_chunk_in_dict f d chunks p x y) ≡ pre ++ ((y, p) ∷ es)
  unfolding update_chunk_in_dict
  update_chunk_in_dict_exact chunks pre es p x y e low lowy highy =
      let there : (d.del chunks x).0 ≡ true =
        D.del_found chunks x ∙ ap (has x) e ∙ has-append x p pre es low in
      let rest : D.entries (d.del chunks x).1 ≡ pre ++ es =
        D.del_lem chunks x ∙ ap (remove x) e ∙ remove-append x p pre es low in
      rw (update_chunk_in_dict, there)
        (D.set_lem (d.del chunks x).1 y p ∙ ap (put y p) rest ∙ put-append y p pre es lowy highy)

  -- The entry of the chunk gets its new key.
  pub update_chunk_in_dict-entries :
      (chunks : d.Dict) (pre es : List (ℕ × ℕ)) (k p x y : ℕ)
      → D.entries chunks ≡ pre ++ ((k, p) ∷ es)
      → KeysBelow k pre
      → KeysBelow y pre
      → KeysAbove x es
      → KeysAbove y es
      → (k ≡ x) ⊎ (k ≡ 0)
      → D.entries (update_chunk_in_dict f d chunks p x y) ≡ pre ++ ((y, p) ∷ es)
  unfolding update_chunk_in_dict
  update_chunk_in_dict-entries chunks pre es k p x y e low lowy high highy (inl same) =
      update_chunk_in_dict_exact chunks pre es p x y (e ∙ ap (λ t. pre ++ ((t, p) ∷ es)) same)
        (subst (λ t. KeysBelow t pre) same low) lowy highy
  update_chunk_in_dict-entries chunks pre es k p x y e low lowy high highy (inr zero_key) =
      elim (Bool-cases (x == 0)) [
        | inl is_zero ↦
            let same : k ≡ x = zero_key ∙ sym ((==_iff x 0).0 is_zero) in
            update_chunk_in_dict_exact chunks pre es p x y (e ∙ ap (λ t. pre ++ ((t, p) ∷ es)) same)
              (subst (λ t. KeysBelow t pre) same low) lowy highy
        | inr not_zero ↦
            let none_before : pre ≡ [] =
              below_zero pre (subst (λ t. KeysBelow t pre) zero_key low) in
            let row : D.entries chunks ≡ (0, p) ∷ es =
              e ∙ ap (λ t. t ++ ((k, p) ∷ es)) none_before ∙ ap (λ t. (t, p) ∷ es) zero_key in
            let absent : (d.del chunks x).0 ≡ false =
              D.del_found chunks x ∙ ap (has x) row ∙ rw not_zero (has-above x es high) in
            let kept : D.entries (d.del chunks x).1 ≡ (0, p) ∷ es =
              D.del_lem chunks x
              ∙ ap (remove x) row
              ∙ rw not_zero (ap (◌∷◌ (0, p)) (remove-above x es high)) in
            let rest : D.entries (d.del (d.del chunks x).1 0).1 ≡ es =
              D.del_lem (d.del chunks x).1 0 ∙ ap (remove 0) kept in
            rw (update_chunk_in_dict, absent, none_before)
              (D.set_lem (d.del (d.del chunks x).1 0).1 y p
                ∙ ap (put y p) rest
                ∙ put-append y p [] es tt highy)
      ]

module _ (f : ChunkFuncs) (d : Dictionary) (size : ℕ) (L : ChunkLaws f size) (D : DictionaryLaws d)
    (a b : ℕ) where
  -- The loop is between the entries `pre`, whose chunks have `kept` samples, and `es`.
  pub record Going (s : Series f.Chunk d.Dict) (pre es : List (ℕ × ℕ)) (segs : List (List Sample))
      (at : Option ℕ) (bound deleted kept : ℕ) : Type 0 where
    pub entries_now : D.entries s.chunks ≡ pre ++ es
    pub row : Row (Ready f d size L D a b) s.memory bound es segs
    pub position : Past at pre bound
    pub total : s.total_samples ≡ deleted + kept + length (flat segs)
    pub small : s.total_samples < 2 ^ 64
    pub first_part : ((pre ≡ []) × (kept ≡ 0)) ⊎ ((0 < kept) × (0 < length pre))
    pub last_is : LastIs s.last_chunk (pre ++ es)

  pub next_entry :
      (s : Series f.Chunk d.Dict) (pre es : List (ℕ × ℕ)) (segs : List (List Sample))
      (at : Option ℕ) (bound deleted kept : ℕ)
      → Going s pre es segs at bound deleted kept
      → d.next s.chunks at ≡ head_of es
  next_entry s pre es segs none bound deleted kept h =
      D.next_lem s.chunks none ∙ ap head_of (h.entries_now ∙ ap (λ t. t ++ es) h.position)
  next_entry s pre es segs (some k) bound deleted kept h =
      D.next_lem s.chunks (some k)
      ∙ ap (above k) h.entries_now
      ∙ above-append k pre es h.position.0
          (Row-KeysAbove (Ready f d size L D a b) s.memory k bound es segs h.row h.position.1)

  module _ (s : Series f.Chunk d.Dict) (pre es : List (ℕ × ℕ)) (k p : ℕ) (x : Sample)
      (xs : List Sample) (segs : List (List Sample)) (at : Option ℕ) (bound deleted kept : ℕ)
      (h : Going s pre ((k, p) ∷ es) ((x ∷ xs) ∷ segs) at bound deleted kept) where
    pub key_low : k < (last_sample x xs).timestamp + 1
    key_low = omega (arith, key-le k x.timestamp h.row.1, last_sample-ge x xs h.row.2)

    pub keys_before : KeysBelow k pre
    keys_before = KeysBelow-trans bound k pre h.row.0 (Past-KeysBelow at pre bound h.position)

    -- The loop goes on behind the entry, whose chunk keeps `more` samples.
    pub go_on :
        (s' : Series f.Chunk d.Dict) (k' deleted' more : ℕ)
        → D.entries s'.chunks ≡ pre ++ ((k', p) ∷ es)
        → ((q : ℕ) → p ≢ q → s'.memory q ≡ s.memory q)
        → KeysBelow k' pre
        → k' < (last_sample x xs).timestamp + 1
        → s'.total_samples ≡ s.total_samples
        → s'.last_chunk ≡ s.last_chunk
        → 0 < more
        → deleted' + more ≡ deleted + suc (length xs)
        → Going s'
            (pre ++ ((k', p) ∷ []))
            es
            segs
            (some k')
            ((last_sample x xs).timestamp + 1)
            deleted'
            (kept + more)
    go_on s' k' deleted' more e same low high total last pos sum = record {
      entries_now = e ∙ sym (append_assoc pre ((k', p) ∷ []) es);
      row =
          Row-map (Ready f d size L D a b) (Ready f d size L D a b) s.memory s'.memory
            ((last_sample x xs).timestamp + 1) ((last_sample x xs).timestamp + 1) es segs
            (λ c ys r. r) (omega arith)
            (λ q in_es. same q (λ e'. in_es (subst (λ t. Apart t es) e' h.row.4))) h.row.5;
      position = (
        KeysBelow-append (k' + 1) pre ((k', p) ∷ [])
            (KeysBelow-trans k' (k' + 1) pre (omega arith) low) (omega arith, tt),
        high,
      );
      total = omega (arith, total, h.total, sum, length-append {0} (x ∷ xs) (flat segs));
      small = omega (arith, total, h.small);
      first_part = inr (omega (arith, pos), omega (arith, length-append {0} pre ((k', p) ∷ [])));
      last_is = subst (LastIs s'.last_chunk) (sym (append_assoc pre ((k', p) ∷ []) es)) (
          subst (λ t. LastIs t (pre ++ ((k', p) ∷ es))) (sym last)
            (LastIs-rekey s.last_chunk k k' p pre es h.last_is));
    }

    -- The chunk is not the only one: others have samples.
    pub others :
        ((add64 (suc (length xs)) deleted == s.total_samples) ≡ false)
        → 0 < kept + length (flat segs)
    others e = ground (arith, e, h.total, h.small, length-append {0} (x ∷ xs) (flat segs))

    entries_left : 0 < kept + length (flat segs) → 0 < length (pre ++ es)
    entries_left more = elim h.first_part [
      | inr some_before ↦ omega (arith, some_before.1, length-append {0} pre es)
      | inl none_before ↦
          let behind =
            Row-pos (Ready f d size L D a b) s.memory ((last_sample x xs).timestamp + 1) es segs
              h.row.5 (omega (arith, none_before.1, more)) in
          omega (arith, behind, length-append {0} pre es)
    ]

    pub drop_on :
        0 < kept + length (flat segs)
        → Going
            (drop_chunk f d s k p)
            pre
            es
            segs
            (some k)
            ((last_sample x xs).timestamp + 1)
            (deleted + suc (length xs))
            kept
    unfolding drop_chunk
    drop_on more =
        let rest : D.entries (d.del s.chunks k).1 ≡ pre ++ es =
          D.del_lem s.chunks k
          ∙ ap (remove k) h.entries_now
          ∙ remove-append k p pre es keys_before in
        record {
          entries_now = rest;
          row = h.row.5;
          position = (KeysBelow-trans k (k + 1) pre (omega arith) keys_before, key_low);
          total = omega (arith, h.total, length-append {0} (x ∷ xs) (flat segs));
          small = h.small;
          first_part = h.first_part;
          last_is =
              if_both (λ q. LastIs q (pre ++ es)) (p == s.last_chunk)
                (λ was_last.
                  let e = last_in-some (pre ++ es) (entries_left more) in
                  (
                    e.0.0,
                    e.1
                        ∙ ap (λ q. some (e.0.0, q))
                            (sym (
                              ap (last_or d.unwritten)
                                (D.last_lem (d.del s.chunks k).1 ∙ ap last_in rest ∙ e.1))),
                  ))
                (λ other.
                  LastIs-drop s.last_chunk pre es (k, p)
                    (λ e. absurd (true-false (sym ((==_iff p s.last_chunk).1 e) ∙ other)))
                    h.last_is);
        }
