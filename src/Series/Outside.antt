-- ===== src/Series/Outside.antt =====
-- The samples outside a range: bounds and order.
use redis_time_series.Common.{
  ℕ, ◌+◌, ◌≤◌, ◌<◌, if_both, Bool-cases, ◌≡◌, inl, inr, refl, true, List, [], ◌∷◌, ◌++◌, arith,
}
use redis_time_series.Generic.{Sample}
use redis_time_series.Ranges.{in_range, last_sample, outside, AtLeast, AtMost}
use redis_time_series.Series.Rows.{IsAscending}

pub outside-append :
    (a b : ℕ) (xs ys : List Sample) → outside a b (xs ++ ys) ≡ outside a b xs ++ outside a b ys
outside-append a b [] ys = refl
outside-append a b (x ∷ xs) ys = ground (arith, outside-append a b xs ys)

pub outside-later : (a b : ℕ) (xs : List Sample) → AtLeast (b + 1) xs → outside a b xs ≡ xs
outside-later a b [] h = refl
outside-later a b (x ∷ xs) h = ground (arith, h.0, outside-later a b xs h.1)

pub outside-earlier : (a b t : ℕ) (xs : List Sample) → AtMost t xs → t < a → outside a b xs ≡ xs
outside-earlier a b t [] h lt = refl
outside-earlier a b t (x ∷ xs) h lt = ground (arith, h.0, outside-earlier a b t xs h.1 lt)

pub outside_none : (a b : ℕ) (xs : List Sample) → AtLeast a xs → AtMost b xs → outside a b xs ≡ []
outside_none a b [] h g = refl
outside_none a b (x ∷ xs) h g = ground (arith, h.0, g.0, outside_none a b xs h.1 g.1)

pub AtLeast-outside : (t a b : ℕ) (xs : List Sample) → AtLeast t xs → AtLeast t (outside a b xs)
AtLeast-outside t a b [] h = tt
AtLeast-outside t a b (x ∷ xs) h =
    if_both (AtLeast t) (in_range a b x) (λ _. AtLeast-outside t a b xs h.1)
      (λ _. (h.0, AtLeast-outside t a b xs h.1))

pub AtMost-outside : (t a b : ℕ) (xs : List Sample) → AtMost t xs → AtMost t (outside a b xs)
AtMost-outside t a b [] h = tt
AtMost-outside t a b (x ∷ xs) h =
    if_both (AtMost t) (in_range a b x) (λ _. AtMost-outside t a b xs h.1)
      (λ _. (h.0, AtMost-outside t a b xs h.1))

pub IsAscending-outside :
    (a b : ℕ) (xs : List Sample) → IsAscending xs → IsAscending (outside a b xs)
IsAscending-outside a b [] h = tt
IsAscending-outside a b (x ∷ xs) h =
    if_both IsAscending (in_range a b x) (λ _. IsAscending-outside a b xs h.1)
      (λ _. (AtLeast-outside (x.timestamp + 1) a b xs h.0, IsAscending-outside a b xs h.1))

pub last_sample-le :
    (t : ℕ) (x : Sample) (xs : List Sample) → AtMost t (x ∷ xs) → (last_sample x xs).timestamp ≤ t
last_sample-le t x [] h = h.0
last_sample-le t x (y ∷ ys) h = last_sample-le t y ys h.1

-- A chunk that the range does not cover keeps a sample.
pub outside_some :
    (a b : ℕ) (x : Sample) (xs : List Sample)
    → outside a b (x ∷ xs) ≡ []
    → (a ≤ x.timestamp) × ((last_sample x xs).timestamp ≤ b)
outside_some a b x xs e = elim (Bool-cases (in_range a b x)) [
  | inl yes' ↦ (in_range-start a b x yes', covered a b x xs yes' (rw yes' at e))
  | inr no' ↦ absurd (cons_empty (rw no' at e))
]
  where
    cons_empty : {y : Sample} {ys : List Sample} → (y ∷ ys) ≡ [] → ⊥
    cons_empty e = cc

    in_range-start : (a b : ℕ) (x : Sample) → in_range a b x ≡ true → a ≤ x.timestamp
    in_range-start a b x h = ground arith

    in_range-end : (a b : ℕ) (x : Sample) → in_range a b x ≡ true → x.timestamp ≤ b
    in_range-end a b x h = ground arith

    covered :
        (a b : ℕ) (x : Sample) (xs : List Sample)
        → in_range a b x ≡ true
        → outside a b xs ≡ []
        → (last_sample x xs).timestamp ≤ b
    covered a b x [] h e = in_range-end a b x h
    covered a b x (y ∷ ys) h e = elim (Bool-cases (in_range a b y)) [
      | inl yes' ↦ covered a b y ys yes' (rw yes' at e)
      | inr no' ↦ absurd (cons_empty (rw no' at e))
    ]
