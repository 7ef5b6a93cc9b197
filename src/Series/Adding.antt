-- ===== src/Series/Adding.antt =====
-- `SeriesAddSample` against the list of samples.
use mathlib.Core.Path.{subst}
use mathlib.Core.List.{append_assoc, append-nil}
use redis_time_series.Common.{
  ℕ, ◌+◌, ◌^◌, ◌≤◌, ◌<◌, ◌≡◌, inl, inr, refl, sym, ap, ◌∙◌, List, [], ◌∷◌, ◌++◌, length,
  length-append, arith,
}
use redis_time_series.Generic.{Sample}
use redis_time_series.Ranges.{last_sample}
use redis_time_series.Chunks.{ChunkFuncs, ChunkLaws}
use redis_time_series.Dictionary.{Dictionary, DictionaryLaws}
use redis_time_series.Dictionary.Entries.{
  put, put-append, KeysBelow, LastIs, last_in-append, LastIs-pos,
}
use redis_time_series.Series.{Series, update, added_last, add_new_chunk}
use redis_time_series.Series.Rows.{flat, Apart, Row, key-le, last_sample-ge, update_same}
use redis_time_series.Series.Stored.{Stored, Rowed, LastOf, last_sample-append}
use redis_time_series.Series.Trimming.{LastOf-tail, LastOf-alone}
use redis_time_series.Series.Partly.{last_of_one}
use redis_time_series.Series.Extending.{Row-extend, Row-snoc, Apart-snoc, flat_pos}

-- The sample is newer than every sample there is.
abbrev pub NewerThan : ℕ → List Sample → ℕ → Type 0
NewerThan t [] last = Unit {0}
NewerThan t (x ∷ xs) last = last < t

pub later : (t : ℕ) (xs : List Sample) (last : ℕ) → NewerThan t xs last → 0 < length xs → last < t
later t [] last h lt = absurd (omega arith)
later t (x ∷ xs) last h lt = h

flat-append : (xss yss : List (List Sample)) → flat (xss ++ yss) ≡ flat xss ++ flat yss
flat-append [] yss = refl
flat-append (xs ∷ xss) yss =
    ap (λ t. xs ++ t) (flat-append xss yss) ∙ sym (append_assoc xs (flat xss) (flat yss))

module _ (f : ChunkFuncs) (d : Dictionary) (size : ℕ) (L : ChunkLaws f size)
    (D : DictionaryLaws d) where
  Row-KeysBelow :
      (memory : ℕ → f.Chunk) (bound t v k : ℕ) (es : List (ℕ × ℕ)) (segs : List (List Sample))
      → Row L.Holds memory bound es segs
      → LastOf (flat segs) t v
      → t < k
      → KeysBelow k es
  Row-KeysBelow memory bound t v k [] segs row newest lt = tt
  Row-KeysBelow memory bound t v k (e ∷ es) [] row newest lt = absurd row
  Row-KeysBelow memory bound t v k (e ∷ es) ([] ∷ segs) row newest lt = absurd row
  Row-KeysBelow memory bound t v k (e ∷ []) ((x ∷ xs) ∷ ys ∷ segs) row newest lt = absurd row.5
  Row-KeysBelow memory bound t v k (e ∷ []) ((x ∷ xs) ∷ []) row newest lt =
      let now = LastOf-alone x xs [] t v newest refl in
      (omega (arith, now, key-le e.0 x.timestamp row.1, last_sample-ge x xs row.2, lt), tt)
  Row-KeysBelow memory bound t v k (e ∷ e' ∷ es) ((x ∷ xs) ∷ segs) row newest lt =
      let z = (last_sample x xs).timestamp in
      let behind = flat_pos L.Holds memory (z + 1) (e' ∷ es) segs row.5 (omega arith) in
      let below =
        Row-KeysBelow memory (z + 1) t v k (e' ∷ es) segs row.5
          (LastOf-tail (x ∷ xs) (flat segs) t v newest behind) lt in
      let above_first : e.0 < e'.0 = omega (
        arith,
        Row-KeysAbove-head memory (z + 1) e' es segs row.5,
        key-le e.0 x.timestamp row.1,
        last_sample-ge x xs row.2,
      ) in
      (omega (arith, above_first, below.0), below)
    where
      Row-KeysAbove-head :
          (memory : ℕ → f.Chunk) (bound : ℕ) (e : ℕ × ℕ) (es : List (ℕ × ℕ))
          (segs : List (List Sample))
          → Row L.Holds memory bound (e ∷ es) segs
          → bound ≤ e.0
      Row-KeysAbove-head memory bound e es [] row = absurd row
      Row-KeysAbove-head memory bound e es ([] ∷ segs) row = absurd row
      Row-KeysAbove-head memory bound e es ((x ∷ xs) ∷ segs) row = row.0

  module _ (s : Series f.Chunk d.Dict) (xs : List Sample) (x : Sample)
      (h : Stored f d size D L.Holds s xs) (newer : NewerThan x.timestamp xs s.last_timestamp)
      (small : length xs + 1 < 2 ^ 64) where
    -- The new sample is in the last chunk, which is `c` now.
    pub in_last :
        (c : f.Chunk)
        → ((ys : List Sample) → L.Holds (s.memory s.last_chunk) ys → L.Holds c (ys ++ (x ∷ [])))
        → Stored f d size D L.Holds
            (added_last f d x (record s { memory = update s.memory s.last_chunk c }))
            (xs ++ (x ∷ []))
    unfolding added_last
    in_last c more =
        let (segs', rows, shape) = extended h.rowed in
        record {
          es = h.es;
          segs = segs';
          entries_are = h.entries_are;
          rowed = inr (rows, LastIs-pos s.last_chunk h.es h.last_is);
          samples = shape ∙ ap (λ t. t ++ (x ∷ [])) h.samples;
          last_is = h.last_is;
          unused = h.unused;
          sized = h.sized;
          total = omega (arith, h.total, small, length-append {0} xs (x ∷ []));
          newest = last_sample-append xs x [] x.timestamp x.value (refl, refl);
        }
      where
        extended :
            Rowed L.Holds s.memory h.es h.segs
            → (segs' : List (List Sample)) × Row L.Holds
                (update s.memory s.last_chunk c)
                0
                h.es
                segs'
              × (flat segs' ≡ flat h.segs ++ (x ∷ []))
        extended (inl (none_stored, p, one, held)) =
            let same : p ≡ s.last_chunk =
              sym (last_of_one (subst (LastIs s.last_chunk) one h.last_is)) in
            let held' : L.Holds c (x ∷ []) =
              more [] (subst (λ q. L.Holds (s.memory q) []) same held) in
            (
              (x ∷ []) ∷ [],
              subst (λ es. Row L.Holds (update s.memory s.last_chunk c) 0 es ((x ∷ []) ∷ []))
                  (sym one)
                  (
                    omega arith,
                    inr refl,
                    (tt, tt),
                    subst (λ t. L.Holds t (x ∷ []))
                        (sym (
                          ap (update s.memory s.last_chunk c) same
                          ∙ update_same s.memory s.last_chunk c))
                        held',
                    tt,
                    tt,
                  ),
              sym (ap (λ t. t ++ (x ∷ [])) none_stored),
            )
        extended (inr (row, pos)) =
            let stored : 0 < length (flat h.segs) =
              flat_pos L.Holds s.memory 0 h.es h.segs row pos in
            Row-extend L.Holds s.memory s.last_chunk c x 0 s.last_timestamp s.last_value h.es h.segs
              row h.last_is
              (subst (λ t. LastOf t s.last_timestamp s.last_value) (sym h.samples) h.newest)
              (later x.timestamp xs s.last_timestamp newer
                (omega (arith, stored, ap length h.samples)))
              (λ y ys. more (y ∷ ys))

    -- The new sample is in a new chunk, behind those that the trimming left.
    pub in_new :
        (memory : ℕ → f.Chunk) (chunks : d.Dict) (total : ℕ) (post : List (ℕ × ℕ))
        (kept : List (List Sample)) (gone : List Sample)
        → D.entries chunks ≡ post
        → Row L.Holds memory 0 post kept
        → flat h.segs ≡ gone ++ flat kept
        → total + length gone ≡ s.total_samples
        → ((q : ℕ) → Apart q h.es → Apart q post)
        → 0 < length post
        → s.last_timestamp < x.timestamp
        → L.Holds (f.add_sample (f.new_chunk s.chunk_size_bytes) x).1 (x ∷ [])
        → Stored f d size D L.Holds
            (added_last f d x (
              add_new_chunk f d x
                (record s { memory = memory; chunks = chunks; total_samples = total })))
            (flat kept ++ (x ∷ []))
    unfolding added_last add_new_chunk
    in_new memory chunks total post kept gone now row parts sum apart pos newer' held =
        let behind = flat_pos L.Holds memory 0 post kept row pos in
        let newest : LastOf (flat kept) s.last_timestamp s.last_value =
          LastOf-tail gone (flat kept) s.last_timestamp s.last_value
            (subst (λ t. LastOf t s.last_timestamp s.last_value) (sym h.samples ∙ parts) h.newest)
            behind in
        let below =
          Row-KeysBelow memory 0 s.last_timestamp s.last_value x.timestamp post kept row newest
            newer' in
        let c = (f.add_sample (f.new_chunk s.chunk_size_bytes) x).1 in
        record {
          es = post ++ ((x.timestamp, s.fresh) ∷ []);
          segs = kept ++ ((x ∷ []) ∷ []);
          entries_are =
              D.set_lem chunks x.timestamp s.fresh
              ∙ ap (put x.timestamp s.fresh) (now ∙ sym (append-nil post))
              ∙ put-append x.timestamp s.fresh post [] below tt;
          rowed = inr (
            Row-snoc L.Holds memory s.fresh c x 0 s.last_timestamp s.last_value post kept row pos
                (apart s.fresh (h.unused s.fresh (omega arith))) newest newer' held,
            omega (arith, length-append {0} post ((x.timestamp, s.fresh) ∷ [])),
          );
          samples = flat-append kept ((x ∷ []) ∷ []);
          last_is = (x.timestamp, last_in-append post (x.timestamp, s.fresh));
          unused = λ q le.
              Apart-snoc q post (x.timestamp, s.fresh) (apart q (h.unused q (omega (arith, le))))
                (λ same. absurd (omega (arith, same, le)));
          sized = h.sized;
          total = omega (
            arith,
            sum,
            h.total,
            small,
            ap length h.samples,
            ap length parts,
            length-append {0} gone (flat kept),
            length-append {0} (flat kept) (x ∷ []),
          );
          newest = last_sample-append (flat kept) x [] x.timestamp x.value (refl, refl);
        }
