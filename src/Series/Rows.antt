-- ===== src/Series/Rows.antt =====
-- Rows of chunks: the entries of the dictionary with the samples of the chunk of each.
use redis_time_series.Common.{
  ℕ, ◌+◌, ◌≤◌, ◌<◌, ◌≡◌, ◌≢◌, ◌⊎◌, inl, inr, refl, sym, List, [], ◌∷◌, ◌++◌, ==_refl, ne→==, length,
  arith,
}
use redis_time_series.Generic.{Sample}
use redis_time_series.Ranges.{last_sample, AtLeast, AtMost, AtLeast-trans}
use redis_time_series.Dictionary.Entries.{KeysAbove}
use redis_time_series.Series.{update}

-- Every sample is newer than the one before it.
abbrev pub IsAscending : List Sample → Type 0
IsAscending [] = Unit {0}
IsAscending (x ∷ xs) = AtLeast (x.timestamp + 1) xs × IsAscending xs

abbrev pub flat : List (List Sample) → List Sample
flat [] = []
flat (xs ∷ segs) = xs ++ flat segs

abbrev pub Apart : ℕ → List (ℕ × ℕ) → Type 0
Apart p [] = Unit {0}
Apart p (e ∷ es) = (p ≢ e.1) × Apart p es

-- The chunks of a row have samples, in order, and `bound` is the least timestamp that may occur. The
-- key of an entry is the first timestamp, or 0, as it is for the first chunk that a series gets. No
-- chunk is there twice.
abbrev pub Row :
    {C : Type 0}
    → (C → List Sample → Type 0)
    → (ℕ → C)
    → ℕ
    → List (ℕ × ℕ)
    → List (List Sample)
    → Type 0
Row P memory bound [] [] = Unit {0}
Row P memory bound [] (xs ∷ segs) = ⊥
Row P memory bound (e ∷ es) [] = ⊥
Row P memory bound (e ∷ es) ([] ∷ segs) = ⊥
Row P memory bound (e ∷ es) ((x ∷ xs) ∷ segs) =
    (bound ≤ e.0)
    × ((e.0 ≡ x.timestamp) ⊎ (e.0 ≡ 0))
    × IsAscending (x ∷ xs)
    × P (memory e.1) (x ∷ xs)
    × Apart e.1 es
    × Row P memory ((last_sample x xs).timestamp + 1) es segs

pub key-le : (k t : ℕ) → (k ≡ t) ⊎ (k ≡ 0) → k ≤ t
key-le k t (inl e) = omega (arith, e)
key-le k t (inr e) = omega (arith, e)

pub last_sample-ge :
    (x : Sample) (xs : List Sample)
    → IsAscending (x ∷ xs)
    → x.timestamp ≤ (last_sample x xs).timestamp
last_sample-ge x [] h = omega arith
last_sample-ge x (y ∷ ys) h = omega (arith, h.0.0, last_sample-ge y ys h.1)

pub AtMost-ascending :
    (x : Sample) (xs : List Sample)
    → IsAscending (x ∷ xs)
    → AtMost (last_sample x xs).timestamp (x ∷ xs)
AtMost-ascending x [] h = (omega arith, tt)
AtMost-ascending x (y ∷ ys) h =
    (omega (arith, h.0.0, last_sample-ge y ys h.1), AtMost-ascending y ys h.1)

pub Apart-append : (p : ℕ) (es fs : List (ℕ × ℕ)) → Apart p es → Apart p fs → Apart p (es ++ fs)
Apart-append p [] fs h g = g
Apart-append p (e ∷ es) fs h g = (h.0, Apart-append p es fs h.1 g)

module _ {C : Type 0} (memory : ℕ → C) (p : ℕ) (c : C) where
  pub update_same : update memory p c p ≡ c
  update_same = rw (==_refl p) refl

  pub update_other : (q : ℕ) → p ≢ q → update memory p c q ≡ memory q
  update_other q ne = rw (ne→== q p (λ e. ne (sym e))) refl

module _ {C : Type 0} (P Q : C → List Sample → Type 0) where
  -- A row stays a row where its chunks do, under a lower bound and a weaker property.
  pub Row-map :
      (memory memory' : ℕ → C) (bound bound' : ℕ) (es : List (ℕ × ℕ)) (segs : List (List Sample))
      → ((c : C) (xs : List Sample) → P c xs → Q c xs)
      → bound' ≤ bound
      → ((q : ℕ) → (Apart q es → ⊥) → memory' q ≡ memory q)
      → Row P memory bound es segs
      → Row Q memory' bound' es segs
  Row-map memory memory' bound bound' [] [] weaken low same h = tt
  Row-map memory memory' bound bound' [] (xs ∷ segs) weaken low same h = absurd h
  Row-map memory memory' bound bound' (e ∷ es) [] weaken low same h = absurd h
  Row-map memory memory' bound bound' (e ∷ es) ([] ∷ segs) weaken low same h = absurd h
  Row-map memory memory' bound bound' (e ∷ es) ((x ∷ xs) ∷ segs) weaken low same
        (b, k, asc, held, apart, row) =
      (
        omega (arith, low, b),
        k,
        asc,
        rw (same e.1 (λ ap'. ap'.0 refl)) (weaken (memory e.1) (x ∷ xs) held),
        apart,
        Row-map memory memory' ((last_sample x xs).timestamp + 1) ((last_sample x xs).timestamp + 1)
            es segs weaken (omega arith) (λ q in_es. same q (λ ap'. in_es ap'.1)) row,
      )

pub AtLeast-append :
    (t : ℕ) (xs ys : List Sample) → AtLeast t xs → AtLeast t ys → AtLeast t (xs ++ ys)
AtLeast-append t [] ys h g = g
AtLeast-append t (x ∷ xs) ys h g = (h.0, AtLeast-append t xs ys h.1 g)

AtLeast-segment :
    (x : Sample) (xs rest : List Sample)
    → IsAscending (x ∷ xs)
    → AtLeast ((last_sample x xs).timestamp + 1) rest
    → AtLeast x.timestamp (x ∷ (xs ++ rest))
AtLeast-segment x xs rest asc later = (
  omega arith,
  AtLeast-append x.timestamp xs rest
      (AtLeast-trans x.timestamp (x.timestamp + 1) xs (omega arith) asc.0)
      (AtLeast-trans x.timestamp ((last_sample x xs).timestamp + 1) rest
        (omega (arith, last_sample-ge x xs asc)) later),
)

module _ {C : Type 0} (P : C → List Sample → Type 0) (memory : ℕ → C) where
  pub Row-KeysAbove :
      (j bound : ℕ) (es : List (ℕ × ℕ)) (segs : List (List Sample))
      → Row P memory bound es segs
      → j < bound
      → KeysAbove j es
  Row-KeysAbove j bound [] [] h lt = tt
  Row-KeysAbove j bound [] (xs ∷ segs) h lt = absurd h
  Row-KeysAbove j bound (e ∷ es) [] h lt = absurd h
  Row-KeysAbove j bound (e ∷ es) ([] ∷ segs) h lt = absurd h
  Row-KeysAbove j bound (e ∷ es) ((x ∷ xs) ∷ segs) (b, k, asc, held, apart, row) lt = (
    omega (arith, b, lt),
    Row-KeysAbove j ((last_sample x xs).timestamp + 1) es segs row
        (omega (arith, last_sample-ge x xs asc, key-le e.0 x.timestamp k, b, lt)),
  )

  pub Row-pos :
      (bound : ℕ) (es : List (ℕ × ℕ)) (segs : List (List Sample))
      → Row P memory bound es segs
      → 0 < length (flat segs)
      → 0 < length es
  Row-pos bound [] [] h lt = absurd (omega (arith, lt))
  Row-pos bound [] (xs ∷ segs) h lt = absurd h
  Row-pos bound (e ∷ es) segs h lt = omega arith

  pub Row-nil :
      (bound : ℕ) (es : List (ℕ × ℕ)) (segs : List (List Sample))
      → Row P memory bound es segs
      → flat segs ≡ []
      → es ≡ []
  Row-nil bound [] segs h e = refl
  Row-nil bound (e' ∷ es) [] h e = absurd h
  Row-nil bound (e' ∷ es) ([] ∷ segs) h e = absurd h
  Row-nil bound (e' ∷ es) ((x ∷ xs) ∷ segs) h e = absurd (cc)

  pub Row-AtLeast :
      (bound : ℕ) (es : List (ℕ × ℕ)) (segs : List (List Sample))
      → Row P memory bound es segs
      → AtLeast bound (flat segs)
  Row-AtLeast bound [] [] h = tt
  Row-AtLeast bound [] (xs ∷ segs) h = absurd h
  Row-AtLeast bound (e ∷ es) [] h = absurd h
  Row-AtLeast bound (e ∷ es) ([] ∷ segs) h = absurd h
  Row-AtLeast bound (e ∷ es) ((x ∷ xs) ∷ segs) (b, k, asc, held, apart, row) =
      AtLeast-trans bound x.timestamp (x ∷ (xs ++ flat segs))
        (omega (arith, b, key-le e.0 x.timestamp k))
        (AtLeast-segment x xs (flat segs) asc
          (Row-AtLeast ((last_sample x xs).timestamp + 1) es segs row))

  -- The first sample of a row is the oldest.
  pub Row-first :
      (bound : ℕ) (e : ℕ × ℕ) (es : List (ℕ × ℕ)) (x : Sample) (xs : List Sample)
      (segs : List (List Sample))
      → Row P memory bound (e ∷ es) ((x ∷ xs) ∷ segs)
      → AtLeast x.timestamp (flat ((x ∷ xs) ∷ segs))
  Row-first bound e es x xs segs (b, k, asc, held, apart, row) =
      AtLeast-segment x xs (flat segs) asc
        (Row-AtLeast ((last_sample x xs).timestamp + 1) es segs row)
