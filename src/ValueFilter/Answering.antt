-- ===== src/ValueFilter/Answering.antt =====
-- What the filter gives for an iterator, call by call, until it says NULL.
use mathlib.Core.Path.{subst}
use redis_time_series.Common.{
  ℕ, zero, suc, ◌<◌, ◌≡◌, inl, inr, refl, sym, ap, ◌∙◌, Bool, true, lt→ltb, if◌then◌else◌,
  Bool-cases, Option, none, some, List, [], ◌∷◌, ◌++◌, length, arith,
}
use redis_time_series.Generic.{Sample}
use redis_time_series.Enriched.{EnrichedChunk, columns}
use redis_time_series.ValueFilter.{
  FilterByValueArgs, check_sample_value, next_kept, series_filter_val_get_next,
}
use redis_time_series.ValueFilter.Keeping.{within, kept_chunk-within}

-- The iterator gives these chunks, one with each call, and then NULL.
abbrev pub Yields :
    {S : Type 0} → (S → Option (EnrichedChunk × S)) → S → List (Bool × List Sample) → Type 0
Yields {S} get_next s [] = get_next s ≡ none
Yields {S} get_next s (c ∷ cs) =
    (s' : S) × (get_next s ≡ some (columns c.0 c.1, s')) × Yields get_next s' cs

-- The like for calls that can fail, where the first one may be another than the later ones.
abbrev pub Answers :
    {S : Type 0}
    → (S → Option (Option (EnrichedChunk × S)))
    → (S → Option (Option (EnrichedChunk × S)))
    → S
    → List (Bool × List Sample)
    → Type 0
Answers {S} first later s [] = first s ≡ some none
Answers {S} first later s (c ∷ cs) =
    (s' : S) × (first s ≡ some (some (columns c.0 c.1, s'))) × Answers later later s' cs

abbrev pub samples_of : List (Bool × List Sample) → List Sample
samples_of [] = []
samples_of (c ∷ cs) = c.1 ++ samples_of cs

moved :
    {S : Type 0} (first first' later : S → Option (Option (EnrichedChunk × S))) (s s' : S)
    (cs : List (Bool × List Sample))
    → first s ≡ first' s'
    → Answers first' later s' cs
    → Answers first later s cs
moved first first' later s s' [] e h = e ∙ h
moved first first' later s s' (c ∷ cs) e (s'', r, h) = (s'', e ∙ r, h)

taken : {A : Type 0} (b : Bool) (x y : A) → b ≡ true → (if b then x else y) ≡ x
taken b x y h = rw h refl

module _ (at_most : ℕ → ℕ → Bool) (args : FilterByValueArgs) where
  abbrev kept_first : Bool → List Sample → List (Bool × List Sample) → List (Bool × List Sample)
  kept_first rev [] cs = cs
  kept_first rev (x ∷ xs) cs = (rev, x ∷ xs) ∷ cs

  -- The chunks with the samples that are within the bounds; one without such samples is left out.
  abbrev pub kept_chunks : List (Bool × List Sample) → List (Bool × List Sample)
  kept_chunks [] = []
  kept_chunks (c ∷ cs) = kept_first c.0 (within at_most args c.1) (kept_chunks cs)

  within-append :
      (xs ys : List Sample)
      → within at_most args (xs ++ ys) ≡ within at_most args xs ++ within at_most args ys
  within-append [] ys = refl
  within-append (x ∷ xs) ys = elim (Bool-cases (check_sample_value at_most args x.value)) [
    | inl inside ↦ rw inside (ap (◌∷◌ x) (within-append xs ys))
    | inr beyond ↦ rw beyond (within-append xs ys)
  ]

  samples_of-kept_first :
      (rev : Bool) (xs : List Sample) (cs : List (Bool × List Sample))
      → samples_of (kept_first rev xs cs) ≡ xs ++ samples_of cs
  samples_of-kept_first rev [] cs = refl
  samples_of-kept_first rev (x ∷ xs) cs = refl

  samples_of-kept_chunks :
      (cs : List (Bool × List Sample))
      → samples_of (kept_chunks cs) ≡ within at_most args (samples_of cs)
  samples_of-kept_chunks [] = refl
  samples_of-kept_chunks (c ∷ cs) =
      samples_of-kept_first c.0 (within at_most args c.1) (kept_chunks cs)
      ∙ ap (λ t. within at_most args c.1 ++ t) (samples_of-kept_chunks cs)
      ∙ sym (within-append c.1 (samples_of cs))

  module _ {S : Type 0} (get_next : S → Option (EnrichedChunk × S)) where
    abbrev calls : ℕ → S → Option (Option (EnrichedChunk × S))
    calls fuel = next_kept at_most args get_next fuel

    next_kept-empty :
        (k : ℕ) (s s' : S) (rev : Bool) (xs : List Sample)
        → get_next s ≡ some (columns rev xs, s')
        → within at_most args xs ≡ []
        → calls (suc k) s ≡ calls k s'
    unfolding next_kept
    next_kept-empty k s s' rev xs e none_in =
        rw (next_kept, e, kept_chunk-within at_most args rev xs, none_in) refl

    next_kept-found :
        (k : ℕ) (s s' : S) (rev : Bool) (xs : List Sample) (y : Sample) (ys : List Sample)
        → get_next s ≡ some (columns rev xs, s')
        → within at_most args xs ≡ y ∷ ys
        → calls (suc k) s ≡ some (some (columns rev (y ∷ ys), s'))
    unfolding next_kept
    next_kept-found k s s' rev xs y ys e found =
        rw
          (
            next_kept,
            e,
            kept_chunk-within at_most args rev xs,
            found,
            lt→ltb 0 (suc (length ys)) (omega arith),
          )
          refl

    next_kept-Answers :
        (cs : List (Bool × List Sample)) (k fuel : ℕ) (s : S)
        → Yields get_next s cs
        → length cs < k
        → length cs < fuel
        → Answers (calls k) (calls fuel) s (kept_chunks cs)
    unfolding next_kept
    next_kept-Answers cs zero fuel s h lt enough = absurd (omega (arith, lt))
    next_kept-Answers [] (suc k) fuel s h lt enough = rw (next_kept, h) refl
    next_kept-Answers (c ∷ cs) (suc k) fuel s (s', e, h) lt enough =
        by_kept (within at_most args c.1) refl
          (next_kept-Answers cs k fuel s' h (omega (arith, lt)) (omega (arith, enough)))
          (next_kept-Answers cs fuel fuel s' h (omega (arith, enough)) (omega (arith, enough)))
      where
        by_kept :
            (xs : List Sample)
            → within at_most args c.1 ≡ xs
            → Answers (calls k) (calls fuel) s' (kept_chunks cs)
            → Answers (calls fuel) (calls fuel) s' (kept_chunks cs)
            → Answers (calls (suc k)) (calls fuel) s (kept_first c.0 xs (kept_chunks cs))
        by_kept [] none_in now later =
            moved (calls (suc k)) (calls k) (calls fuel) s s' (kept_chunks cs)
              (next_kept-empty k s s' c.0 c.1 e none_in) now
        by_kept (y ∷ ys) found now later = (s', next_kept-found k s s' c.0 c.1 y ys e found, later)

    -- For an iterator that gives some chunks and then NULL, and more rounds than there are chunks: the
    -- filter gives the chunks with only the samples within the bounds, leaves out those that have none,
    -- and then gives NULL. All in all these are just the samples within the bounds, in order.
    pub series_filter_val_get_next-Answers :
        (cs : List (Bool × List Sample)) (fuel : ℕ) (s : S)
        → args.has_value ≡ true
        → Yields get_next s cs
        → length cs < fuel
        → Answers
            (series_filter_val_get_next at_most args get_next fuel)
            (series_filter_val_get_next at_most args get_next fuel)
            s
            (kept_chunks cs)
          × (samples_of (kept_chunks cs) ≡ within at_most args (samples_of cs))
    unfolding series_filter_val_get_next
    series_filter_val_get_next-Answers cs fuel s has h enough = (
      subst (λ g. Answers g g s (kept_chunks cs))
          (sym (λ i s. taken args.has_value (calls fuel s) none has i))
          (next_kept-Answers cs fuel fuel s h enough enough),
      samples_of-kept_chunks cs,
    )
