-- ===== src/Ranges.antt =====
-- Ranges of timestamps in a list of samples: what a deletion leaves and what a query returns.
use redis_time_series.Common.{
  ℕ, ◌+◌, ◌≤◌, ◌<◌, ◌≡◌, refl, ap, Bool, true, ◌&&◌, ◌||◌, ltb, ltb→lt, if_both, length, leb,
  if◌then◌else◌, List, [], ◌∷◌, ◌++◌, arith, inl, inr, Bool-cases, leb→le, leb→lt, le→leb,
}
use redis_time_series.Generic.{Sample}

abbrev pub in_range : ℕ → ℕ → Sample → Bool
in_range start_ts end_ts s = leb start_ts s.timestamp && leb s.timestamp end_ts

-- The samples outside the range, in order.
abbrev pub outside : ℕ → ℕ → List Sample → List Sample
outside a b [] = []
outside a b (x ∷ xs) = if in_range a b x then outside a b xs else x ∷ outside a b xs

-- The samples in the range, in order.
abbrev pub inside : ℕ → ℕ → List Sample → List Sample
inside a b [] = []
inside a b (x ∷ xs) = if in_range a b x then x ∷ inside a b xs else inside a b xs

abbrev pub AtLeast : ℕ → List Sample → Type 0
AtLeast t [] = Unit {0}
AtLeast t (x ∷ xs) = (t ≤ x.timestamp) × AtLeast t xs

abbrev pub AtMost : ℕ → List Sample → Type 0
AtMost t [] = Unit {0}
AtMost t (x ∷ xs) = (x.timestamp ≤ t) × AtMost t xs

-- No sample is older than the one before it.
abbrev pub IsSorted : List Sample → Type 0
IsSorted [] = Unit {0}
IsSorted (x ∷ xs) = AtLeast x.timestamp xs × IsSorted xs

abbrev pub from_start : ℕ → List Sample → List Sample
from_start a [] = []
from_start a (x ∷ xs) = if leb a x.timestamp then x ∷ xs else from_start a xs

abbrev pub up_to : ℕ → List Sample → List Sample
up_to b [] = []
up_to b (x ∷ xs) = if leb x.timestamp b then x ∷ up_to b xs else []

pub AtLeast-trans : (s t : ℕ) (xs : List Sample) → s ≤ t → AtLeast t xs → AtLeast s xs
AtLeast-trans s t [] le h = tt
AtLeast-trans s t (x ∷ xs) le (h, hs) = (omega arith, AtLeast-trans s t xs le hs)

pub AtMost-trans : (s t : ℕ) (xs : List Sample) → s ≤ t → AtMost s xs → AtMost t xs
AtMost-trans s t [] le h = tt
AtMost-trans s t (x ∷ xs) le (h, hs) = (omega arith, AtMost-trans s t xs le hs)

pub length-inside : (a b : ℕ) (xs : List Sample) → length (inside a b xs) ≤ length xs
length-inside a b [] = omega arith
length-inside a b (x ∷ xs) = ground (arith, length-inside a b xs)

pub inside-above : (a b : ℕ) (xs : List Sample) → AtLeast (b + 1) xs → inside a b xs ≡ []
inside-above a b [] h = refl
inside-above a b (x ∷ xs) (h, hs) = ground (arith, inside-above a b xs hs)

pub inside-crossed : (a b : ℕ) (xs : List Sample) → b < a → inside a b xs ≡ []
inside-crossed a b [] h = refl
inside-crossed a b (x ∷ xs) h = ground (arith, inside-crossed a b xs h)

pub inside-below : (a b t : ℕ) (xs : List Sample) → AtMost t xs → t < a → inside a b xs ≡ []
inside-below a b t [] h lt = refl
inside-below a b t (x ∷ xs) (h, hs) lt = ground (arith, inside-below a b t xs hs lt)

inside-up_to :
    (a b : ℕ) (xs : List Sample) → AtLeast a xs → IsSorted xs → inside a b xs ≡ up_to b xs
inside-up_to a b [] h s = refl
inside-up_to a b (x ∷ xs) (h, hs) (least, s) = elim (Bool-cases (leb x.timestamp b)) [
  | inl e ↦ rw (e, le→leb a x.timestamp h, inside-up_to a b xs hs s) refl
  | inr e ↦
      rw (e, le→leb a x.timestamp h)
        (inside-above a b xs
          (AtLeast-trans (b + 1) x.timestamp xs (omega (arith, leb→lt x.timestamp b e)) least))
]

-- In a sorted list a range is a run of neighbours.
pub inside_run :
    (a b : ℕ) (xs : List Sample) → IsSorted xs → inside a b xs ≡ up_to b (from_start a xs)
inside_run a b [] s = refl
inside_run a b (x ∷ xs) (least, s) = elim (Bool-cases (leb a x.timestamp)) [
  | inl e ↦
      let le = leb→le a x.timestamp e in
      let run =
        inside-up_to a b (x ∷ xs) (le, AtLeast-trans a x.timestamp xs le least) (least, s) in
      rw e (rw e at run)
  | inr e ↦ rw e (inside_run a b xs s)
]

-- The last of `s` and then `xs`.
abbrev pub last_sample : Sample → List Sample → Sample
last_sample s [] = s
last_sample s (x ∷ xs) = last_sample x xs

pub AtMost-last_sample :
    (x : Sample) (xs : List Sample)
    → IsSorted (x ∷ xs)
    → AtMost (last_sample x xs).timestamp (x ∷ xs)
AtMost-last_sample x [] h = (omega arith, tt)
AtMost-last_sample x (y ∷ ys) ((le, least), h) =
    let rest = AtMost-last_sample y ys h in (omega (arith, rest.0), rest)

-- The samples before the range, and those after it.
abbrev pub before : ℕ → List Sample → List Sample
before a [] = []
before a (x ∷ xs) = if leb a x.timestamp then [] else x ∷ before a xs

abbrev pub after : ℕ → List Sample → List Sample
after b [] = []
after b (x ∷ xs) = if leb x.timestamp b then after b xs else x ∷ xs

pub before-append : (a : ℕ) (xs : List Sample) → before a xs ++ from_start a xs ≡ xs
before-append a [] = refl
before-append a (x ∷ xs) = elim (Bool-cases (leb a x.timestamp)) [
  | inl e ↦ rw e refl
  | inr e ↦ rw e (ap (◌∷◌ x) (before-append a xs))
]

pub up_to-append : (b : ℕ) (xs : List Sample) → up_to b xs ++ after b xs ≡ xs
up_to-append b [] = refl
up_to-append b (x ∷ xs) = elim (Bool-cases (leb x.timestamp b)) [
  | inl e ↦ rw e (ap (◌∷◌ x) (up_to-append b xs))
  | inr e ↦ rw e refl
]

-- Seen from the ends of a sorted list, nothing of it is in the range.
pub inside-ends :
    (first last : ℕ) (x : Sample) (xs : List Sample) (a b : ℕ)
    → IsSorted (x ∷ xs)
    → first ≡ x.timestamp
    → last ≡ (last_sample x xs).timestamp
    → (ltb b a || (ltb b first || ltb last a)) ≡ true
    → inside a b (x ∷ xs) ≡ []
inside-ends first last x xs a b (least, s) e e' out = elim (Bool-cases (ltb b a)) [
  | inl crossed ↦ inside-crossed a b (x ∷ xs) (ltb→lt b a crossed)
  | inr straight ↦ elim (Bool-cases (ltb b first)) [
    | inl above ↦
        let low : b + 1 ≤ x.timestamp = omega (arith, e, ltb→lt b first above) in
        inside-above a b (x ∷ xs) (low, AtLeast-trans (b + 1) x.timestamp xs low least)
    | inr begun ↦
        inside-below a b (last_sample x xs).timestamp (x ∷ xs) (AtMost-last_sample x xs (least, s))
          (omega (arith, e', ltb→lt last a (rw (straight, begun) at out)))
  ]
]

pub IsSorted-from_start : (a : ℕ) (xs : List Sample) → IsSorted xs → IsSorted (from_start a xs)
IsSorted-from_start a [] s = tt
IsSorted-from_start a (x ∷ xs) s =
    if_both IsSorted (leb a x.timestamp) (λ _. s) (λ _. IsSorted-from_start a xs s.1)

pub AtMost-from_start : (a t : ℕ) (xs : List Sample) → AtMost t xs → AtMost t (from_start a xs)
AtMost-from_start a t [] h = tt
AtMost-from_start a t (x ∷ xs) h =
    if_both (AtMost t) (leb a x.timestamp) (λ _. h) (λ _. AtMost-from_start a t xs h.1)

pub from_start-pos :
    (a : ℕ) (x : Sample) (xs : List Sample)
    → a ≤ (last_sample x xs).timestamp
    → 0 < length (from_start a (x ∷ xs))
from_start-pos a x [] h = rw (le→leb a x.timestamp h) (omega arith)
from_start-pos a x (y ∷ ys) h =
    if_both (λ t. 0 < length t) (leb a x.timestamp) (λ _. omega arith)
      (λ _. from_start-pos a y ys h)
