-- ===== src/Series/Stored.antt =====
-- Which samples a series stores.
use mathlib.Core.Path.{subst}
use mathlib.Core.List.{append_assoc, append-nil}
use redis_time_series.Common.{
  ℕ, ◌+◌, ◌≤◌, ◌<◌, ◌≡◌, ◌⊎◌, inl, inr, refl, sym, ap, ◌∙◌, false, Bool-cases, List, [], ◌∷◌, ◌++◌,
  length,
}
use redis_time_series.Generic.{Sample}
use redis_time_series.Ranges.{last_sample, in_range, outside}
use redis_time_series.Chunks.{ChunkFuncs}
use redis_time_series.Dictionary.{Dictionary, DictionaryLaws}
use redis_time_series.Dictionary.Entries.{LastIs}
use redis_time_series.Series.{Series}
use redis_time_series.Series.Rows.{flat, Apart, Row}

-- The timestamp and the value of the last sample, and zeros if there is none.
abbrev pub LastOf : List Sample → ℕ → ℕ → Type 0
LastOf [] t v = (t ≡ 0) × (v ≡ 0)
LastOf (x ∷ xs) t v = (t ≡ (last_sample x xs).timestamp) × (v ≡ (last_sample x xs).value)

-- One empty chunk, under the key 0; or a row of chunks that have samples.
abbrev pub Rowed :
    {C : Type 0} → (C → List Sample → Type 0) → (ℕ → C) → List (ℕ × ℕ) → List (List Sample) → Type 0
Rowed P memory es segs =
    ((flat segs ≡ []) × (p : ℕ) × (es ≡ (0, p) ∷ []) × P (memory p) [])
    ⊎ (Row P memory 0 es segs × (0 < length es))

-- The series stores the samples, in chunks that `P` holds of; it counts them, and knows the last one
-- and the chunk that has it.
pub record Stored (f : ChunkFuncs) (d : Dictionary) (size : ℕ) (D : DictionaryLaws d)
    (P : f.Chunk → List Sample → Type 0) (s : Series f.Chunk d.Dict) (xs : List Sample)
    : Type 0 where
  pub es : List (ℕ × ℕ)
  pub segs : List (List Sample)
  pub entries_are : D.entries s.chunks ≡ es
  pub rowed : Rowed P s.memory es segs
  pub samples : flat segs ≡ xs
  pub last_is : LastIs s.last_chunk es
  pub unused : (q : ℕ) → s.fresh ≤ q → Apart q es
  pub sized : s.chunk_size_bytes ≡ size
  pub total : s.total_samples ≡ length xs
  pub newest : LastOf xs s.last_timestamp s.last_value

pub last_sample-append :
    (init : List Sample) (x : Sample) (xs : List Sample) (t v : ℕ)
    → LastOf (x ∷ xs) t v
    → LastOf (init ++ (x ∷ xs)) t v
last_sample-append [] x xs t v h = h
last_sample-append (y ∷ []) x xs t v h = h
last_sample-append (y ∷ z ∷ init) x xs t v h = last_sample-append (z ∷ init) x xs t v h

-- The chunk of the last entry has the last samples.
pub last_held :
    {C : Type 0} (P : C → List Sample → Type 0) (memory : ℕ → C) (bound : ℕ) (es : List (ℕ × ℕ))
    (segs : List (List Sample)) (p : ℕ)
    → Row P memory bound es segs
    → LastIs p es
    → (x : Sample) × (xs : List Sample) × (init : List Sample) × P (memory p) (x ∷ xs)
      × (flat segs ≡ init ++ (x ∷ xs))
last_held P memory bound [] segs p h (k, e) = absurd (cc)
last_held P memory bound (e ∷ es) [] p h last = absurd h
last_held P memory bound (e ∷ es) ([] ∷ segs) p h last = absurd h
last_held P memory bound (e ∷ []) ((x ∷ xs) ∷ []) p h (k, last) =
    let same : e.1 ≡ p = cc in
    (x, xs, [], subst (λ q. P (memory q) (x ∷ xs)) same h.3, append-nil (x ∷ xs))
last_held P memory bound (e ∷ []) ((x ∷ xs) ∷ ys ∷ segs) p h (k, last) = absurd h.5
last_held P memory bound (e ∷ e' ∷ es) ((x ∷ xs) ∷ segs) p h last =
    let (y, ys, init, held, shape) =
      last_held P memory ((last_sample x xs).timestamp + 1) (e' ∷ es) segs p h.5 last in
    (
      y,
      ys,
      (x ∷ xs) ++ init,
      held,
      ap (λ t. (x ∷ xs) ++ t) shape ∙ sym (append_assoc (x ∷ xs) init (y ∷ ys)),
    )

-- The last sample stays the last one, if it is not in the range.
pub outside-last :
    (a b : ℕ) (x : Sample) (xs : List Sample)
    → in_range a b (last_sample x xs) ≡ false
    → (y : Sample) × (ys : List Sample) × (outside a b (x ∷ xs) ≡ y ∷ ys)
      × (last_sample y ys ≡ last_sample x xs)
outside-last a b x [] h = (x, [], rw h refl, refl)
outside-last a b x (z ∷ zs) h =
    let (y, ys, e, same) = outside-last a b z zs h in
    elim (Bool-cases (in_range a b x)) [
      | inl covered ↦ (y, ys, rw covered e, same)
      | inr left ↦ (x, y ∷ ys, rw left (ap (◌∷◌ x) e), same)
    ]

pub LastOf-outside :
    (a b : ℕ) (x : Sample) (xs : List Sample) (t v : ℕ)
    → LastOf (x ∷ xs) t v
    → in_range a b (last_sample x xs) ≡ false
    → LastOf (outside a b (x ∷ xs)) t v
LastOf-outside a b x xs t v h left =
    let (y, ys, e, same) = outside-last a b x xs left in
    rw e (
      h.0 ∙ ap (λ (s : Sample). s.timestamp) (sym same),
      h.1 ∙ ap (λ (s : Sample). s.value) (sym same),
    )
