-- ===== src/Series/Trimming.antt =====
-- `SeriesTrim`: chunks that are older than the retention time go.
use mathlib.Core.Path.{subst}
use mathlib.Core.List.{append_assoc}
use redis_time_series.Common.{
  ℕ, zero, suc, ◌+◌, ◌^◌, ◌≤◌, ◌<◌, ◌≡◌, inl, inr, refl, sym, ap, ◌∙◌, true, false, Bool-cases,
  Option, none, some, List, [], ◌∷◌, ◌++◌, leb, leb→lt, length, length-append, sub64, arith,
}
use redis_time_series.Generic.{Sample}
use redis_time_series.Ranges.{last_sample, AtMost}
use redis_time_series.Chunks.{ChunkFuncs, ChunkLaws}
use redis_time_series.Dictionary.{Dictionary, DictionaryLaws}
use redis_time_series.Dictionary.Entries.{
  head_of, above, above-append, remove, remove-append, KeysAbove, LastIs,
}
use redis_time_series.Series.{Series, trim_entry, trim_loop}
use redis_time_series.Series.Rows.{
  flat, Apart, Row, Row-map, Row-pos, Row-KeysAbove, key-le, last_sample-ge, AtMost-ascending,
}
use redis_time_series.Series.Stored.{LastOf}

abbrev pub AllOlder : ℕ → List Sample → Type 0
AllOlder t [] = Unit {0}
AllOlder t (x ∷ xs) = (x.timestamp < t) × AllOlder t xs

AtMost-AllOlder : (m t : ℕ) (xs : List Sample) → AtMost m xs → m < t → AllOlder t xs
AtMost-AllOlder m t [] h lt = tt
AtMost-AllOlder m t (x ∷ xs) h lt = (omega (arith, h.0), AtMost-AllOlder m t xs h.1 lt)

AllOlder-append :
    (t : ℕ) (xs ys : List Sample) → AllOlder t xs → AllOlder t ys → AllOlder t (xs ++ ys)
AllOlder-append t [] ys h g = g
AllOlder-append t (x ∷ xs) ys h g = (h.0, AllOlder-append t xs ys h.1 g)

pub LastOf-tail :
    (xs ys : List Sample) (t v : ℕ) → LastOf (xs ++ ys) t v → 0 < length ys → LastOf ys t v
LastOf-tail xs [] t v h lt = absurd (omega arith)
LastOf-tail [] (y ∷ ys) t v h lt = h
LastOf-tail (x ∷ []) (y ∷ ys) t v h lt = h
LastOf-tail (x ∷ z ∷ xs) (y ∷ ys) t v h lt = LastOf-tail (z ∷ xs) (y ∷ ys) t v h lt

pub LastOf-alone :
    (x : Sample) (xs ys : List Sample) (t v : ℕ)
    → LastOf (x ∷ (xs ++ ys)) t v
    → length ys ≡ 0
    → t ≡ (last_sample x xs).timestamp
LastOf-alone x [] [] t v h e = h.0
LastOf-alone x (y ∷ xs) [] t v h e = LastOf-alone y xs [] t v h e
LastOf-alone x xs (y ∷ ys) t v h e = absurd (omega arith)

more_behind :
    (x : Sample) (xs ys : List Sample) (t v oldest : ℕ)
    → LastOf (x ∷ (xs ++ ys)) t v
    → oldest ≤ t
    → (last_sample x xs).timestamp < oldest
    → 0 < length ys
more_behind x xs [] t v oldest h le lt =
    absurd (omega (arith, LastOf-alone x xs [] t v h refl, le, lt))
more_behind x xs (y ∷ ys) t v oldest h le lt = omega arith

some-injective : {k j : ℕ} → some k ≡ some j → k ≡ j
some-injective e = cc

LastIs-tail :
    (p : ℕ) (e : ℕ × ℕ) (es : List (ℕ × ℕ)) → 0 < length es → LastIs p (e ∷ es) → LastIs p es
LastIs-tail p e [] lt h = absurd (omega arith)
LastIs-tail p e (e' ∷ es) lt h = h

module _ (f : ChunkFuncs) (d : Dictionary) (size : ℕ) (L : ChunkLaws f size) (D : DictionaryLaws d)
    (oldest : ℕ) where
  -- What the loop leaves of the entries `es`: the last ones, for whole chunks of old samples go.
  pub record Trimmed (s : Series f.Chunk d.Dict) (es : List (ℕ × ℕ)) (segs : List (List Sample))
      (bound : ℕ) (result : Option (Series f.Chunk d.Dict)) : Type 0 where
    pub final : Series f.Chunk d.Dict
    pub post : List (ℕ × ℕ)
    pub kept : List (List Sample)
    pub gone : List Sample
    pub returned : result ≡ some final
    pub shape : final ≡ record s { chunks = final.chunks; total_samples = final.total_samples }
    pub entries_final : D.entries final.chunks ≡ post
    pub row : Row L.Holds s.memory bound post kept
    pub samples : flat segs ≡ gone ++ flat kept
    pub old : AllOlder oldest gone
    pub total : final.total_samples + length gone ≡ s.total_samples
    pub apart : (q : ℕ) → Apart q es → Apart q post
    pub last_is : LastIs s.last_chunk post

  abbrev trimmed : Series f.Chunk d.Dict → ℕ → ℕ → Series f.Chunk d.Dict
  trimmed s key n = record s {
    chunks = (d.del s.chunks key).1;
    total_samples = sub64 s.total_samples n;
  }

  module _ (s : Series f.Chunk d.Dict) (at : Option ℕ) (fuel : ℕ) (en : ℕ × ℕ) (z n : ℕ)
      (next : d.next s.chunks at ≡ some en) (last : f.get_last_timestamp (s.memory en.1) ≡ z)
      (count : f.get_num_of_sample (s.memory en.1) ≡ n) where
    trim_loop-halted : leb oldest z ≡ true → trim_loop f d (suc fuel) oldest s at ≡ some s
    unfolding trim_loop trim_entry
    trim_loop-halted recent = rw (trim_loop, next, last, recent) refl

    trim_loop-going :
        leb oldest z ≡ false
        → trim_loop f d (suc fuel) oldest s at
          ≡ trim_loop f d fuel oldest (trimmed s en.0 n) (some en.0)
    unfolding trim_loop trim_entry
    trim_loop-going old = rw (trim_loop, next, last, count, old) refl

  -- The iterator returns the first entry that is there.
  trim_next :
      (s : Series f.Chunk d.Dict) (es : List (ℕ × ℕ)) (at : Option ℕ)
      → D.entries s.chunks ≡ es
      → ((k : ℕ) → at ≡ some k → KeysAbove k es)
      → d.next s.chunks at ≡ head_of es
  trim_next s es none e past = D.next_lem s.chunks none ∙ ap head_of e
  trim_next s es (some k) e past =
      D.next_lem s.chunks (some k) ∙ ap (above k) e ∙ above-append k [] es tt (past k refl)

  pub trim_loop-Trimmed :
      (fuel : ℕ) (es : List (ℕ × ℕ)) (segs : List (List Sample)) (s : Series f.Chunk d.Dict)
      (at : Option ℕ) (bound t v : ℕ)
      → length es < fuel
      → D.entries s.chunks ≡ es
      → Row L.Holds s.memory bound es segs
      → ((k : ℕ) → at ≡ some k → KeysAbove k es)
      → LastIs s.last_chunk es
      → LastOf (flat segs) t v
      → oldest ≤ t
      → length (flat segs) ≤ s.total_samples
      → s.total_samples < 2 ^ 64
      → Trimmed s es segs bound (trim_loop f d fuel oldest s at)
  trim_loop-Trimmed zero es segs s at bound t v enough e row past last newest le total small =
      absurd (omega arith)
  trim_loop-Trimmed (suc fuel) [] segs s at bound t v enough e row past (k, last) newest le total
        small =
      absurd (cc)
  trim_loop-Trimmed (suc fuel) (x ∷ es) [] s at bound t v enough e row past last newest le total
        small =
      absurd row
  trim_loop-Trimmed (suc fuel) (x ∷ es) ([] ∷ segs) s at bound t v enough e row past last newest le
        total small =
      absurd row
  trim_loop-Trimmed (suc fuel) (en ∷ es) ((x ∷ xs) ∷ segs) s at bound t v enough e row past last
        newest le total small =
      let c = s.memory en.1 in
      let z = (last_sample x xs).timestamp in
      let next = trim_next s (en ∷ es) at e past in
      let last_c = L.last_timestamp c x xs row.3 in
      let n = suc (length xs) in
      let count = L.num_of_sample c (x ∷ xs) row.3 in
      let all = length-append {0} (x ∷ xs) (flat segs) in
      elim (Bool-cases (leb oldest z)) [
        | inl recent ↦ rw (trim_loop-halted s at fuel en z n next last_c count recent) (record {
          final = s;
          post = en ∷ es;
          kept = (x ∷ xs) ∷ segs;
          gone = [];
          returned = refl;
          shape = refl;
          entries_final = e;
          row = row;
          samples = refl;
          old = tt;
          total = omega arith;
          apart = λ q h. h;
          last_is = last;
        })
        | inr old ↦
            let older = leb→lt oldest z old in
            let more = more_behind x xs (flat segs) t v oldest newest le older in
            let behind =
              Row-KeysAbove L.Holds s.memory en.0 (z + 1) es segs row.5
                (omega (arith, key-le en.0 x.timestamp row.1, last_sample-ge x xs row.2)) in
            let less : sub64 s.total_samples n + n ≡ s.total_samples =
              omega (arith, all, total, small) in
            let now : D.entries (d.del s.chunks en.0).1 ≡ es =
              D.del_lem s.chunks en.0 ∙ ap (remove en.0) e ∙ remove-append en.0 en.1 [] es tt in
            let r =
              trim_loop-Trimmed fuel es segs (trimmed s en.0 n) (some en.0) (z + 1) t v
                (omega arith) now row.5
                (λ k same. subst (λ j. KeysAbove j es) (some-injective same) behind)
                (LastIs-tail s.last_chunk en es
                  (Row-pos L.Holds s.memory (z + 1) es segs row.5 more) last)
                (LastOf-tail (x ∷ xs) (flat segs) t v newest more) le
                (omega (arith, less, all, total)) (omega (arith, less, small)) in
            rw (trim_loop-going s at fuel en z n next last_c count old) (record {
              final = r.final;
              post = r.post;
              kept = r.kept;
              gone = (x ∷ xs) ++ r.gone;
              returned = r.returned;
              shape = r.shape;
              entries_final = r.entries_final;
              row =
                  Row-map L.Holds L.Holds s.memory s.memory (z + 1) bound r.post r.kept
                    (λ c ys h. h)
                    (omega (arith, row.0, key-le en.0 x.timestamp row.1, last_sample-ge x xs row.2))
                    (λ q in_es. refl) r.row;
              samples =
                  ap (λ ys. (x ∷ xs) ++ ys) r.samples
                  ∙ sym (append_assoc (x ∷ xs) r.gone (flat r.kept));
              old =
                  AllOlder-append oldest (x ∷ xs) r.gone
                    (AtMost-AllOlder z oldest (x ∷ xs) (AtMost-ascending x xs row.2) older) r.old;
              total = omega (arith, r.total, less, length-append {0} (x ∷ xs) r.gone);
              apart = λ q h. r.apart q h.1;
              last_is = r.last_is;
            })
      ]
