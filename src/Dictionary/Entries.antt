-- ===== src/Dictionary/Entries.antt =====
-- Lists of entries with ascending keys.
use redis_time_series.Common.{
  ℕ, ◌+◌, ◌≤◌, ◌<◌, ◌≡◌, ◌≢◌, length, refl, Bool, true, false, Option, none, some, List, [], ◌∷◌,
  ◌++◌, ltb, ◌==◌, ◌||◌, if◌then◌else◌, arith,
}

abbrev pub head_of {ℓ} : {A : Type ℓ} → List A → Option A
head_of [] = none
head_of (x ∷ xs) = some x

abbrev pub above : ℕ → List (ℕ × ℕ) → Option (ℕ × ℕ)
above k [] = none
above k (e ∷ es) = if ltb k e.0 then some e else above k es

abbrev pub next_in : Option ℕ → List (ℕ × ℕ) → Option (ℕ × ℕ)
next_in none es = head_of es
next_in (some k) es = above k es

abbrev pub last_in {ℓ} : {A : Type ℓ} → List A → Option A
last_in [] = none
last_in (x ∷ []) = some x
last_in (x ∷ y ∷ xs) = last_in (y ∷ xs)

-- The last entry whose key is not above `k`, where the keys ascend.
abbrev pub at_most_in : ℕ → List (ℕ × ℕ) → Option (ℕ × ℕ)
at_most_in k [] = none
at_most_in k (e ∷ es) = elim (at_most_in k es) [
  | some found ↦ some found
  | none ↦ if ltb k e.0 then none else some e
]

abbrev pub has : ℕ → List (ℕ × ℕ) → Bool
has k [] = false
has k (e ∷ es) = k == e.0 || has k es

abbrev pub put : ℕ → ℕ → List (ℕ × ℕ) → List (ℕ × ℕ)
put k p [] = (k, p) ∷ []
put k p (e ∷ es) =
    if k == e.0 then e ∷ es else if ltb k e.0 then (k, p) ∷ e ∷ es else e ∷ put k p es

abbrev pub remove : ℕ → List (ℕ × ℕ) → List (ℕ × ℕ)
remove k [] = []
remove k (e ∷ es) = if k == e.0 then es else e ∷ remove k es

abbrev pub KeysBelow : ℕ → List (ℕ × ℕ) → Type 0
KeysBelow k [] = Unit {0}
KeysBelow k (e ∷ es) = (e.0 < k) × KeysBelow k es

abbrev pub KeysAbove : ℕ → List (ℕ × ℕ) → Type 0
KeysAbove k [] = Unit {0}
KeysAbove k (e ∷ es) = (k < e.0) × KeysAbove k es

pub KeysBelow-trans : (j k : ℕ) (es : List (ℕ × ℕ)) → j ≤ k → KeysBelow j es → KeysBelow k es
KeysBelow-trans j k [] le h = tt
KeysBelow-trans j k (e ∷ es) le h = (omega (arith, h.0), KeysBelow-trans j k es le h.1)

pub KeysAbove-trans : (j k : ℕ) (es : List (ℕ × ℕ)) → j ≤ k → KeysAbove k es → KeysAbove j es
KeysAbove-trans j k [] le h = tt
KeysAbove-trans j k (e ∷ es) le h = (omega (arith, h.0), KeysAbove-trans j k es le h.1)

pub KeysBelow-append :
    (k : ℕ) (es fs : List (ℕ × ℕ)) → KeysBelow k es → KeysBelow k fs → KeysBelow k (es ++ fs)
KeysBelow-append k [] fs h g = g
KeysBelow-append k (e ∷ es) fs h g = (h.0, KeysBelow-append k es fs h.1 g)

-- An iterator past the first part returns the head of the rest.
pub above-append :
    (k : ℕ) (pre post : List (ℕ × ℕ))
    → KeysBelow (k + 1) pre
    → KeysAbove k post
    → above k (pre ++ post) ≡ head_of post
above-append k [] [] h g = refl
above-append k [] (e ∷ es) h g = ground (arith, g.0)
above-append k (e ∷ pre) post h g = ground (arith, h.0, above-append k pre post h.1 g)

pub remove-append :
    (k p : ℕ) (pre post : List (ℕ × ℕ))
    → KeysBelow k pre
    → remove k (pre ++ ((k, p) ∷ post)) ≡ pre ++ post
remove-append k p [] post h = ground arith
remove-append k p (e ∷ pre) post h = ground (arith, h.0, remove-append k p pre post h.1)

pub has-append :
    (k p : ℕ) (pre post : List (ℕ × ℕ)) → KeysBelow k pre → has k (pre ++ ((k, p) ∷ post)) ≡ true
has-append k p [] post h = ground arith
has-append k p (e ∷ pre) post h = ground (arith, h.0, has-append k p pre post h.1)

pub has-above : (k : ℕ) (es : List (ℕ × ℕ)) → KeysAbove k es → has k es ≡ false
has-above k [] h = refl
has-above k (e ∷ es) h = ground (arith, h.0, has-above k es h.1)

pub remove-above : (k : ℕ) (es : List (ℕ × ℕ)) → KeysAbove k es → remove k es ≡ es
remove-above k [] h = refl
remove-above k (e ∷ es) h = ground (arith, h.0, remove-above k es h.1)

pub put-append :
    (k p : ℕ) (pre post : List (ℕ × ℕ))
    → KeysBelow k pre
    → KeysAbove k post
    → put k p (pre ++ post) ≡ pre ++ ((k, p) ∷ post)
put-append k p [] [] h g = refl
put-append k p [] (e ∷ es) h g = ground (arith, g.0)
put-append k p (e ∷ pre) post h g = ground (arith, h.0, put-append k p pre post h.1 g)

pub last_in-append {ℓ} : {A : Type ℓ} (xs : List A) (y : A) → last_in (xs ++ (y ∷ [])) ≡ some y
last_in-append [] y = refl
last_in-append (x ∷ []) y = refl
last_in-append (x ∷ z ∷ xs) y = last_in-append (z ∷ xs) y

-- The last entry has this address.
abbrev pub LastIs : ℕ → List (ℕ × ℕ) → Type 0
LastIs p es = (k : ℕ) × (last_in es ≡ some (k, p))

pub LastIs-drop :
    (p : ℕ) (pre es : List (ℕ × ℕ)) (e : ℕ × ℕ)
    → e.1 ≢ p
    → LastIs p (pre ++ (e ∷ es))
    → LastIs p (pre ++ es)
LastIs-drop p [] [] e ne (k, h) = absurd (ne (cc))
LastIs-drop p [] (e' ∷ es) e ne h = h
LastIs-drop p (x ∷ []) [] e ne (k, h) = absurd (ne (cc))
LastIs-drop p (x ∷ []) (e' ∷ es) e ne h = h
LastIs-drop p (x ∷ y ∷ pre) es e ne h = LastIs-drop p (y ∷ pre) es e ne h

-- A new key for an entry.
pub LastIs-rekey :
    (p k k' q : ℕ) (pre es : List (ℕ × ℕ))
    → LastIs p (pre ++ ((k, q) ∷ es))
    → LastIs p (pre ++ ((k', q) ∷ es))
LastIs-rekey p k k' q [] [] (j, h) = (k', cc)
LastIs-rekey p k k' q [] (e' ∷ es) h = h
LastIs-rekey p k k' q (x ∷ []) es h = LastIs-rekey p k k' q [] es h
LastIs-rekey p k k' q (x ∷ y ∷ pre) es h = LastIs-rekey p k k' q (y ∷ pre) es h

pub last_in-some : (es : List (ℕ × ℕ)) → 0 < length es → (e : ℕ × ℕ) × (last_in es ≡ some e)
last_in-some [] h = absurd (omega arith)
last_in-some (x ∷ []) h = (x, refl)
last_in-some (x ∷ y ∷ es) h = last_in-some (y ∷ es) (omega arith)

pub LastIs-pos : (p : ℕ) (es : List (ℕ × ℕ)) → LastIs p es → 0 < length es
LastIs-pos p [] (k, h) = absurd (cc)
LastIs-pos p (e ∷ es) h = omega arith
