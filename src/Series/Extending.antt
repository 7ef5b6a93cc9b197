-- ===== src/Series/Extending.antt =====
-- Rows of chunks that get one more sample: in the last chunk, or in a new one.
use mathlib.Core.Path.{subst}
use mathlib.Core.List.{append_assoc}
use redis_time_series.Common.{
  ℕ, ◌+◌, ◌≤◌, ◌<◌, ◌≡◌, ◌≢◌, inl, refl, sym, ap, ◌∙◌, List, [], ◌∷◌, ◌++◌, length, arith,
}
use redis_time_series.Generic.{Sample}
use redis_time_series.Ranges.{last_sample, AtLeast}
use redis_time_series.Dictionary.Entries.{LastIs}
use redis_time_series.Series.{update}
use redis_time_series.Series.Rows.{
  flat, Apart, Row, IsAscending, last_sample-ge, update_same, update_other,
}
use redis_time_series.Series.Stored.{LastOf}
use redis_time_series.Series.Trimming.{LastOf-tail, LastOf-alone}

pub Apart-LastIs : (q p : ℕ) (es : List (ℕ × ℕ)) → Apart q es → LastIs p es → q ≢ p
Apart-LastIs q p [] apart (k, last) = absurd (cc)
Apart-LastIs q p (e ∷ []) apart (k, last) = λ same. apart.0 (cc)
Apart-LastIs q p (e ∷ e' ∷ es) apart last = Apart-LastIs q p (e' ∷ es) apart.1 last

IsAscending-snoc :
    (x : Sample) (xs : List Sample) (s : Sample)
    → IsAscending (x ∷ xs)
    → (last_sample x xs).timestamp < s.timestamp
    → IsAscending (x ∷ (xs ++ (s ∷ [])))
IsAscending-snoc x [] s asc lt = ((omega (arith, lt), tt), (tt, tt))
IsAscending-snoc x (y ∷ ys) s asc lt =
    let rest = IsAscending-snoc y ys s asc.1 lt in
    let later = last_sample-ge y ys asc.1 in
    (
      (asc.0.0, AtLeast-snoc (x.timestamp + 1) ys s asc.0.1 (omega (arith, asc.0.0, later, lt))),
      rest,
    )
  where
    AtLeast-snoc :
        (t : ℕ) (ys : List Sample) (s : Sample)
        → AtLeast t ys
        → t ≤ s.timestamp
        → AtLeast t (ys ++ (s ∷ []))
    AtLeast-snoc t [] s h le = (le, tt)
    AtLeast-snoc t (y ∷ ys) s h le = (h.0, AtLeast-snoc t ys s h.1 le)

pub Apart-snoc :
    (q : ℕ) (es : List (ℕ × ℕ)) (e : ℕ × ℕ) → Apart q es → q ≢ e.1 → Apart q (es ++ (e ∷ []))
Apart-snoc q [] e h ne = (ne, tt)
Apart-snoc q (x ∷ es) e h ne = (h.0, Apart-snoc q es e h.1 ne)

pub flat_pos :
    {C : Type 0} (P : C → List Sample → Type 0) (memory : ℕ → C) (bound : ℕ) (es : List (ℕ × ℕ))
    (segs : List (List Sample))
    → Row P memory bound es segs
    → 0 < length es
    → 0 < length (flat segs)
flat_pos P memory bound [] segs row pos = absurd (omega arith)
flat_pos P memory bound (e ∷ es) [] row pos = absurd row
flat_pos P memory bound (e ∷ es) ([] ∷ segs) row pos = absurd row
flat_pos P memory bound (e ∷ es) ((x ∷ xs) ∷ segs) row pos = omega arith

module _ {C : Type 0} (P : C → List Sample → Type 0) (memory : ℕ → C) (p : ℕ) (c : C)
    (s : Sample) where
  -- The last chunk is `c` now, with the sample behind its others.
  pub Row-extend :
      (bound t v : ℕ) (es : List (ℕ × ℕ)) (segs : List (List Sample))
      → Row P memory bound es segs
      → LastIs p es
      → LastOf (flat segs) t v
      → t < s.timestamp
      → ((y : Sample) (ys : List Sample) → P (memory p) (y ∷ ys) → P c (y ∷ (ys ++ (s ∷ []))))
      → (segs' : List (List Sample)) × Row P (update memory p c) bound es segs'
        × (flat segs' ≡ flat segs ++ (s ∷ []))
  Row-extend bound t v [] segs row (k, last) newest lt more = absurd (cc)
  Row-extend bound t v (e ∷ es) [] row last newest lt more = absurd row
  Row-extend bound t v (e ∷ es) ([] ∷ segs) row last newest lt more = absurd row
  Row-extend bound t v (e ∷ []) ((x ∷ xs) ∷ ys ∷ segs) row last newest lt more = absurd row.5
  Row-extend bound t v (e ∷ []) ((x ∷ xs) ∷ []) row (k, last) newest lt more =
      let same : p ≡ e.1 = cc in
      let now = LastOf-alone x xs [] t v newest refl in
      (
        (x ∷ (xs ++ (s ∷ []))) ∷ [],
        (
          row.0,
          row.1,
          IsAscending-snoc x xs s row.2 (omega (arith, now, lt)),
          subst (λ q. P (update memory p c q) (x ∷ (xs ++ (s ∷ [])))) same
              (subst (λ d. P d (x ∷ (xs ++ (s ∷ [])))) (sym (update_same memory p c))
                (more x xs (subst (λ q. P (memory q) (x ∷ xs)) (sym same) row.3))),
          tt,
          tt,
        ),
        append_assoc (x ∷ xs) (s ∷ []) [] ∙ sym (append_assoc (x ∷ xs) [] (s ∷ [])),
      )
  Row-extend bound t v (e ∷ e' ∷ es) ((x ∷ xs) ∷ segs) row last newest lt more =
      let z = (last_sample x xs).timestamp in
      let behind = flat_pos P memory (z + 1) (e' ∷ es) segs row.5 (omega arith) in
      let (segs', rest, shape) =
        Row-extend (z + 1) t v (e' ∷ es) segs row.5 last
          (LastOf-tail (x ∷ xs) (flat segs) t v newest behind) lt more in
      (
        (x ∷ xs) ∷ segs',
        (
          row.0,
          row.1,
          row.2,
          subst (λ d. P d (x ∷ xs))
              (sym (
                update_other memory p c e.1
                  (λ same. Apart-LastIs e.1 p (e' ∷ es) row.4 last (sym same))))
              row.3,
          row.4,
          rest,
        ),
        ap (λ ys. (x ∷ xs) ++ ys) shape ∙ sym (append_assoc (x ∷ xs) (flat segs) (s ∷ [])),
      )

  -- A new chunk has the sample alone.
  pub Row-snoc :
      (bound t v : ℕ) (es : List (ℕ × ℕ)) (segs : List (List Sample))
      → Row P memory bound es segs
      → 0 < length es
      → Apart p es
      → LastOf (flat segs) t v
      → t < s.timestamp
      → P c (s ∷ [])
      → Row P (update memory p c) bound (es ++ ((s.timestamp, p) ∷ [])) (segs ++ ((s ∷ []) ∷ []))
  Row-snoc bound t v [] segs row pos apart newest lt held = absurd (omega arith)
  Row-snoc bound t v (e ∷ es) [] row pos apart newest lt held = absurd row
  Row-snoc bound t v (e ∷ es) ([] ∷ segs) row pos apart newest lt held = absurd row
  Row-snoc bound t v (e ∷ []) ((x ∷ xs) ∷ ys ∷ segs) row pos apart newest lt held = absurd row.5
  Row-snoc bound t v (e ∷ []) ((x ∷ xs) ∷ []) row pos apart newest lt held =
      let now = LastOf-alone x xs [] t v newest refl in
      (
        row.0,
        row.1,
        row.2,
        subst (λ d. P d (x ∷ xs)) (sym (update_other memory p c e.1 apart.0)) row.3,
        ((λ same. apart.0 (sym same)), tt),
        (
          omega (arith, now, lt),
          inl refl,
          (tt, tt),
          subst (λ d. P d (s ∷ [])) (sym (update_same memory p c)) held,
          tt,
          tt,
        ),
      )
  Row-snoc bound t v (e ∷ e' ∷ es) ((x ∷ xs) ∷ segs) row pos apart newest lt held =
      let z = (last_sample x xs).timestamp in
      let behind = flat_pos P memory (z + 1) (e' ∷ es) segs row.5 (omega arith) in
      (
        row.0,
        row.1,
        row.2,
        subst (λ d. P d (x ∷ xs)) (sym (update_other memory p c e.1 apart.0)) row.3,
        Apart-snoc e.1 (e' ∷ es) (s.timestamp, p) row.4 (λ same. apart.0 (sym same)),
        Row-snoc (z + 1) t v (e' ∷ es) segs row.5 (omega arith) apart.1
            (LastOf-tail (x ∷ xs) (flat segs) t v newest behind) lt held,
      )
