-- ===== src/Series/Addition.antt =====
-- `SeriesAddSample` against the list of samples.
use mathlib.Core.Path.{subst}
use redis_time_series.Common.{
  ℕ, ◌+◌, ◌^◌, ◌≤◌, ◌<◌, ◌≡◌, inl, inr, refl, sym, ap, ◌∙◌, if_both, Bool-cases, Option, none, some,
  List, [], ◌∷◌, ◌++◌, ltb, ◌==◌, ==_iff, length, arith,
}
use redis_time_series.Generic.{Sample, ChunkResult, cr_ok, cr_err, cr_end}
use redis_time_series.Chunks.{ChunkFuncs, ChunkLaws, Added}
use redis_time_series.Dictionary.{Dictionary, DictionaryLaws}
use redis_time_series.Dictionary.Entries.{LastIs, LastIs-pos}
use redis_time_series.Series.{
  Series, update, added_last, add_new_chunk, series_add_sample, series_trim, min_timestamp,
}
use redis_time_series.Series.Rows.{flat, Row, Row-map}
use redis_time_series.Series.Stored.{Stored, LastOf, last_held}
use redis_time_series.Series.Trimming.{AllOlder, Trimmed, trim_loop-Trimmed}
use redis_time_series.Series.Loop.{true-false}
use redis_time_series.Series.Partly.{last_of_one}
use redis_time_series.Series.Extending.{flat_pos}
use redis_time_series.Series.Adding.{NewerThan, later, in_last, in_new}

module _ (f : ChunkFuncs) (d : Dictionary) (size : ℕ) (L : ChunkLaws f size)
    (D : DictionaryLaws d) where
  -- The result: the sample is the last one, behind those of the chunks that did not go.
  pub record AddedSample (s : Series f.Chunk d.Dict) (xs : List Sample) (x : Sample)
      (result : Option (Series f.Chunk d.Dict)) : Type 0 where
    pub series : Series f.Chunk d.Dict
    pub gone : List Sample
    pub rest : List Sample
    pub returned : result ≡ some series
    pub parts : xs ≡ gone ++ rest
    pub old : AllOlder (min_timestamp f d s) gone
    pub unlimited : s.retention_time ≡ 0 → gone ≡ []
    pub left : Stored f d size D L.Holds series (rest ++ (x ∷ []))

  module _ (s : Series f.Chunk d.Dict) (xs : List Sample) (x : Sample) (fuel : ℕ)
      (h : Stored f d size D L.Holds s xs) (newer : NewerThan x.timestamp xs s.last_timestamp)
      (small : length xs + 1 < 2 ^ 64) (enough : length h.es < fuel) where
    abbrev Outcome : Type 0
    Outcome = AddedSample s xs x (series_add_sample f d fuel s x.timestamp x.value)

    last_chunk_holds : (ys : List Sample) × L.Holds (s.memory s.last_chunk) ys
    last_chunk_holds = elim h.rowed [
      | inl empty ↦
          let same = last_of_one (subst (LastIs s.last_chunk) empty.2 h.last_is) in
          ([], subst (λ q. L.Holds (s.memory q) []) (sym same) empty.3)
      | inr rows ↦
          let last = last_held L.Holds s.memory 0 h.es h.segs s.last_chunk rows.0 h.last_is in
          (last.0 ∷ last.1, last.3)
    ]

    -- There is room in the last chunk.
    added :
        (c : f.Chunk) → f.add_sample (s.memory s.last_chunk) x ≡ (cr_ok, c) → L.IsFit x → Outcome
    unfolding series_add_sample
    added c e fit = record {
      series = added_last f d x (record s { memory = update s.memory s.last_chunk c });
      gone = [];
      rest = xs;
      returned = rw e refl;
      parts = refl;
      old = tt;
      unlimited = λ z. refl;
      left = in_last f d size L D s xs x h newer small c (λ ys held.
          subst (Added L.Holds (s.memory s.last_chunk) ys x) e
            (L.add_sample-Added (s.memory s.last_chunk) ys x held fit));
    }

    -- The last chunk is full, and stays as it is.
    module _ (c : f.Chunk) (full : f.add_sample (s.memory s.last_chunk) x ≡ (cr_end, c))
        (same : c ≡ s.memory s.last_chunk) (fit : L.IsFit x) where
      abbrev s1 : Series f.Chunk d.Dict
      s1 = record s { memory = update s.memory s.last_chunk c }

      trimmed :
          Row L.Holds s1.memory 0 h.es h.segs
          → (r : Trimmed f d size L D
              (min_timestamp f d s)
              s1
              h.es
              h.segs
              0
              (series_trim f d fuel s1))
            × (s.retention_time ≡ 0 → r.gone ≡ [])
      unfolding series_trim min_timestamp
      trimmed row = elim (Bool-cases (s.retention_time == 0)) [
        | inl unlimited ↦ rw unlimited (
          record {
            final = s1;
            post = h.es;
            kept = h.segs;
            gone = [];
            returned = refl;
            shape = refl;
            entries_final = h.entries_are;
            row = row;
            samples = refl;
            old = tt;
            total = omega arith;
            apart = λ q a. a;
            last_is = h.last_is;
          },
          λ z. refl,
        )
        | inr limited ↦ rw limited (
          trim_loop-Trimmed f d size L D (min_timestamp f d s) fuel h.es h.segs s1 none 0
              s.last_timestamp s.last_value enough h.entries_are row (λ k e. absurd (cc)) h.last_is
              (subst (λ t. LastOf t s.last_timestamp s.last_value) (sym h.samples) h.newest)
              (if_both (λ t. t ≤ s.last_timestamp) (ltb s.retention_time s.last_timestamp)
                (λ e. omega arith) (λ e. omega arith))
              (omega (arith, h.total, ap length h.samples)) (omega (arith, h.total, small)),
          λ z. absurd (true-false (sym ((==_iff s.retention_time 0).1 z) ∙ limited)),
        )
      ]

      renewed : Row L.Holds s.memory 0 h.es h.segs → 0 < length h.es → Outcome
      unfolding series_add_sample
      renewed row pos =
          let same_memory : (q : ℕ) → s1.memory q ≡ s.memory q = (λ q.
            if_both (λ t. t ≡ s.memory q) (q == s.last_chunk)
              (λ e. same ∙ ap s.memory (sym ((==_iff q s.last_chunk).0 e))) (λ e. refl)) in
          let row1 =
            Row-map L.Holds L.Holds s.memory s1.memory 0 0 h.es h.segs (λ c ys h. h) (omega arith)
              (λ q in_es. same_memory q) row in
          let (r, unlimited) = trimmed row1 in
          let stored = flat_pos L.Holds s.memory 0 h.es h.segs row pos in
          let first = L.add_sample-first (f.new_chunk s.chunk_size_bytes) x new_held fit in
          record {
            series = added_last f d x (add_new_chunk f d x r.final);
            gone = r.gone;
            rest = flat r.kept;
            returned = rw (full, r.returned) refl;
            parts = sym h.samples ∙ r.samples;
            old = r.old;
            unlimited = unlimited;
            left =
                subst
                  (λ t.
                    Stored f d size D L.Holds (added_last f d x (add_new_chunk f d x t))
                      (flat r.kept ++ (x ∷ [])))
                  (sym r.shape)
                  (in_new f d size L D s xs x h newer small s1.memory r.final.chunks
                    r.final.total_samples r.post r.kept r.gone r.entries_final r.row r.samples
                    r.total r.apart (LastIs-pos s.last_chunk r.post r.last_is)
                    (later x.timestamp xs s.last_timestamp newer
                      (omega (arith, stored, ap length h.samples)))
                    (added_ok (f.add_sample (f.new_chunk s.chunk_size_bytes) x) first
                      (L.add_sample-Added (f.new_chunk s.chunk_size_bytes) [] x new_held fit)));
          }
        where
          new_held : L.Holds (f.new_chunk s.chunk_size_bytes) []
          new_held = subst (λ n. L.Holds (f.new_chunk n) []) (sym h.sized) L.new_chunk-Holds

          added_ok :
              (r : ChunkResult × f.Chunk)
              → r.0 ≡ cr_ok
              → Added L.Holds (f.new_chunk s.chunk_size_bytes) [] x r
              → L.Holds r.1 (x ∷ [])
          added_ok (cr_ok, c) e a = a
          added_ok (cr_end, c) e a = absurd (cc)
          added_ok (cr_err, c) e a = absurd a

  -- For a series that stores ascending samples, and a sample that is newer than all of them: with more
  -- rounds than the series has chunks the loop of `SeriesTrim` ends, the sample is the last one that
  -- is stored, and what is lost are samples at the start, each of them older than the retention time
  -- before the last sample. With no retention time nothing is lost.
  pub series_add_sample-AddedSample :
      (s : Series f.Chunk d.Dict) (xs : List Sample) (x : Sample) (fuel : ℕ)
      (h : Stored f d size D L.Holds s xs)
      → NewerThan x.timestamp xs s.last_timestamp
      → L.IsFit x
      → length xs + 1 < 2 ^ 64
      → length h.es < fuel
      → AddedSample s xs x (series_add_sample f d fuel s x.timestamp x.value)
  series_add_sample-AddedSample s xs x fuel h newer fit small enough =
      by_result (f.add_sample (s.memory s.last_chunk) x) refl
    where
      held : (ys : List Sample) × L.Holds (s.memory s.last_chunk) ys
      held = last_chunk_holds s xs x fuel h newer small enough

      by_result :
          (r : ChunkResult × f.Chunk)
          → f.add_sample (s.memory s.last_chunk) x ≡ r
          → AddedSample s xs x (series_add_sample f d fuel s x.timestamp x.value)
      by_result (cr_ok, c) e = added s xs x fuel h newer small enough c e fit
      by_result (cr_end, c) e =
          let same : c ≡ s.memory s.last_chunk =
            subst (Added L.Holds (s.memory s.last_chunk) held.0 x) e
              (L.add_sample-Added (s.memory s.last_chunk) held.0 x held.1 fit) in
          elim h.rowed [
            | inr rows ↦ renewed s xs x fuel h newer small enough c e same fit rows.0 rows.1
            | inl empty ↦
                let one = last_of_one (subst (LastIs s.last_chunk) empty.2 h.last_is) in
                let first =
                  L.add_sample-first (s.memory s.last_chunk) x
                    (subst (λ q. L.Holds (s.memory q) []) (sym one) empty.3) fit in
                absurd (cc)
          ]
      by_result (cr_err, c) e = absurd (
          subst (Added L.Holds (s.memory s.last_chunk) held.0 x) e
            (L.add_sample-Added (s.memory s.last_chunk) held.0 x held.1 fit))
