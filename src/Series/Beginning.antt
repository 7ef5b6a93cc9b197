-- ===== src/Series/Beginning.antt =====
-- `NewSeries`, and the series that a list of samples is added to (src/tsdb.c).
use mathlib.Core.Path.{subst}
use mathlib.Core.List.{append_assoc, append-nil}
use redis_time_series.Common.{
  ℕ, ◌+◌, ◌^◌, ◌≤◌, ◌<◌, ◌≡◌, inl, inr, refl, sym, ap, ◌∙◌, Bool-cases, Option, none, some, ◌>>=◌,
  List, [], ◌∷◌, ◌++◌, length, length-append, arith,
}
use redis_time_series.Generic.{Sample, DuplicatePolicy}
use redis_time_series.Ranges.{last_sample, AtLeast}
use redis_time_series.Chunks.{ChunkFuncs, ChunkLaws}
use redis_time_series.Dictionary.{Dictionary, DictionaryLaws}
use redis_time_series.Dictionary.Entries.{put}
use redis_time_series.Series.{
  Series, update, is_end, new_series, series_add_sample, series_trim, added_last, add_new_chunk,
}
use redis_time_series.Series.Rows.{flat, Row, IsAscending}
use redis_time_series.Series.Stored.{Stored, LastOf}
use redis_time_series.Series.Adding.{NewerThan}
use redis_time_series.Series.Addition.{series_add_sample-AddedSample}

-- There are no more chunks than samples.
chunks_few :
    {C : Type 0} (P : C → List Sample → Type 0) (memory : ℕ → C) (bound : ℕ) (es : List (ℕ × ℕ))
    (segs : List (List Sample))
    → Row P memory bound es segs
    → length es ≤ length (flat segs)
chunks_few P memory bound [] [] h = omega arith
chunks_few P memory bound [] (xs ∷ segs) h = absurd h
chunks_few P memory bound (e ∷ es) [] h = absurd h
chunks_few P memory bound (e ∷ es) ([] ∷ segs) h = absurd h
chunks_few P memory bound (e ∷ es) ((x ∷ xs) ∷ segs) h =
    let rest = chunks_few P memory ((last_sample x xs).timestamp + 1) es segs h.5 in
    omega (arith, rest, length-append xs (flat segs))

newer_than : (t : ℕ) (xs : List Sample) (last : ℕ) → last < t → NewerThan t xs last
newer_than t [] last h = tt
newer_than t (x ∷ xs) last h = h

snoc-LastOf :
    (xs : List Sample) (x : Sample) (t v : ℕ) → LastOf (xs ++ (x ∷ [])) t v → t ≡ x.timestamp
snoc-LastOf [] x t v h = h.0
snoc-LastOf (y ∷ []) x t v h = h.0
snoc-LastOf (y ∷ z ∷ xs) x t v h = snoc-LastOf (z ∷ xs) x t v h

regroup :
    (gone rest gone' rest' xs : List Sample) (y : Sample) (ys : List Sample)
    → xs ≡ gone ++ rest
    → (rest ++ (y ∷ [])) ++ ys ≡ gone' ++ rest'
    → xs ++ (y ∷ ys) ≡ (gone ++ gone') ++ rest'
regroup gone rest gone' rest' xs y ys e e' =
    ap (λ t. t ++ (y ∷ ys)) e
    ∙ append_assoc gone rest (y ∷ ys)
    ∙ ap (λ t. gone ++ t) (sym (append_assoc rest (y ∷ []) ys) ∙ e')
    ∙ sym (append_assoc gone gone' rest')

later_head :
    (y z : Sample) (ys zs : List Sample) (last : ℕ)
    → ys ≡ z ∷ zs
    → last ≡ y.timestamp
    → AtLeast (y.timestamp + 1) ys
    → last < z.timestamp
later_head y z ys zs last e at h =
    let above = subst (AtLeast (y.timestamp + 1)) e h in omega (arith, above.0, at)

module _ (f : ChunkFuncs) (d : Dictionary) where
  -- The samples are added one after the other.
  abbrev pub add_all : ℕ → Series f.Chunk d.Dict → List Sample → Option (Series f.Chunk d.Dict)
  add_all fuel s [] = some s
  add_all fuel s (x ∷ xs) =
      series_add_sample f d fuel s x.timestamp x.value >>= λ s'. add_all fuel s' xs

  abbrev Unlimited : Option (Series f.Chunk d.Dict) → Type 0
  Unlimited none = Unit {0}
  Unlimited (some s) = s.retention_time ≡ 0

  trim_nothing :
      (fuel : ℕ) (s : Series f.Chunk d.Dict)
      → s.retention_time ≡ 0
      → series_trim f d fuel s ≡ some s
  unfolding series_trim
  trim_nothing fuel s h = rw h refl

  still-Unlimited :
      (fuel : ℕ) (s : Series f.Chunk d.Dict) (x : Sample)
      → s.retention_time ≡ 0
      → Unlimited (series_add_sample f d fuel s x.timestamp x.value)
  unfolding series_add_sample added_last add_new_chunk
  still-Unlimited fuel s x h =
      let r = f.add_sample (s.memory s.last_chunk) x in
      let s1 = record s { memory = update s.memory s.last_chunk r.1 } in
      elim (Bool-cases (is_end f d r.0)) [
        | inl full ↦ rw (full, trim_nothing fuel s1 h) h
        | inr room ↦ rw room h
      ]

module _ (f : ChunkFuncs) (d : Dictionary) (size : ℕ) (L : ChunkLaws f size)
    (D : DictionaryLaws d) where
  pub new_series-Stored :
      (memory : ℕ → f.Chunk) (retention_time : ℕ) (policy : DuplicatePolicy)
      → Stored f d size D L.Holds (new_series f d memory retention_time size policy) []
  unfolding new_series
  new_series-Stored memory retention_time policy = record {
    es = (0, 0) ∷ [];
    segs = [];
    entries_are = D.set_lem d.create 0 0 ∙ ap (put 0 0) D.create_lem;
    rowed = inl (refl, 0, refl, L.new_chunk-Holds);
    samples = refl;
    last_is = (0, refl);
    unused = λ q le. (λ e. absurd (omega (arith, le, e)), tt);
    sized = refl;
    total = refl;
    newest = (refl, refl);
  }

  abbrev pub AllFit : List Sample → Type 0
  AllFit [] = Unit {0}
  AllFit (x ∷ xs) = L.IsFit x × AllFit xs

  chunks_lt :
      (s : Series f.Chunk d.Dict) (xs : List Sample) (h : Stored f d size D L.Holds s xs)
      → length h.es < length xs + 2
  chunks_lt s xs h = elim h.rowed [
    | inl empty ↦ omega (arith, ap length empty.2)
    | inr rows ↦
        omega (arith, chunks_few L.Holds s.memory 0 h.es h.segs rows.0, ap length h.samples)
  ]

  -- What the series stores in the end: `gone` is what the retention time took.
  pub record Filled (retention_time : ℕ) (xs : List Sample)
      (result : Option (Series f.Chunk d.Dict)) : Type 0 where
    pub series : Series f.Chunk d.Dict
    pub gone : List Sample
    pub rest : List Sample
    pub returned : result ≡ some series
    pub parts : xs ≡ gone ++ rest
    pub unlimited : retention_time ≡ 0 → gone ≡ []
    pub left : Stored f d size D L.Holds series rest

  add_all-Filled_from :
      (fuel : ℕ) (s : Series f.Chunk d.Dict) (xs ys : List Sample)
      → Stored f d size D L.Holds s xs
      → IsAscending ys
      → ((y : Sample) (zs : List Sample) → ys ≡ y ∷ zs → NewerThan y.timestamp xs s.last_timestamp)
      → AllFit ys
      → length xs + length ys + 1 < fuel
      → fuel < 2 ^ 64
      → Filled s.retention_time (xs ++ ys) (add_all f d fuel s ys)
  add_all-Filled_from fuel s xs [] h asc newer fit enough small = record {
    series = s;
    gone = [];
    rest = xs;
    returned = refl;
    parts = append-nil xs;
    unlimited = λ z. refl;
    left = h;
  }
  add_all-Filled_from fuel s xs (y ∷ ys) h asc newer fit enough small =
      let one =
        series_add_sample-AddedSample f d size L D s xs y fuel h (newer y ys refl) fit.0
          (omega arith) (omega (arith, chunks_lt s xs h)) in
      let r =
        add_all-Filled_from fuel one.series (one.rest ++ (y ∷ [])) ys one.left asc.1
          (λ z zs e. newer_than z.timestamp (one.rest ++ (y ∷ [])) one.series.last_timestamp (
            later_head y z ys zs one.series.last_timestamp e
              (snoc-LastOf one.rest y one.series.last_timestamp one.series.last_value
                one.left.newest)
              asc.0))
          fit.1
          (omega (
            arith,
            length-append one.rest (y ∷ []),
            ap length one.parts,
            length-append one.gone one.rest,
          ))
          small in
      record {
        series = r.series;
        gone = one.gone ++ r.gone;
        rest = r.rest;
        returned = rw one.returned r.returned;
        parts = regroup one.gone one.rest r.gone r.rest xs y ys one.parts r.parts;
        unlimited = λ z.
            let none_gone = one.unlimited z in
            let kept = subst (Unlimited f d) one.returned (still-Unlimited f d fuel s y z) in
            rw (none_gone, r.unlimited kept) refl;
        left = r.left;
      }

  -- For chunks of the size that the series asks for, and ascending samples: to add them one after the
  -- other to a new series succeeds, and the series stores a last part of them. With no retention time
  -- it stores them all.
  pub add_all-Filled :
      (fuel : ℕ) (memory : ℕ → f.Chunk) (retention_time : ℕ) (policy : DuplicatePolicy)
      (xs : List Sample)
      → IsAscending xs
      → AllFit xs
      → length xs + 1 < fuel
      → fuel < 2 ^ 64
      → Filled retention_time xs
          (add_all f d fuel (new_series f d memory retention_time size policy) xs)
  unfolding new_series
  add_all-Filled fuel memory retention_time policy xs asc fit enough small =
      add_all-Filled_from fuel (new_series f d memory retention_time size policy) [] xs
        (new_series-Stored memory retention_time policy) asc (λ y zs e. tt) fit (omega arith) small
