-- ===== src/Uncompressed/Overflow.antt =====
-- `Uncompressed_UpsertSample` keeps the number of samples in a `short`: chunks of 2 ^ 15 samples and
-- more, which CHUNK_SIZE allows (src/query_language.c).
use mathlib.Core.Option
use mathlib.Core.Path.{subst}
use mathlib.Core.List.{append-nil}
use redis_time_series.Common.{
  u32, ltb, inl, inr, Bool-cases, ℕ, zero, suc, ◌+◌, ◌-◌, ◌/◌, ◌%◌, ◌^◌, ◌≤◌, ◌<◌, ◌≡◌, refl, sym,
  ap, ◌∙◌, lt→leb, Option, none, some, List, [], ◌∷◌, ◌++◌, length, arith,
}
use redis_time_series.Generic.{Sample, DuplicatePolicy, Doubles, cr_ok}
use redis_time_series.Ranges.{AtMost}
use redis_time_series.Uncompressed.{Memory, Chunk}
use redis_time_series.Uncompressed.Stores.{Stores}
use redis_time_series.Uncompressed.Upsert.{
  Upserted, short_bound, find_place, insert_at, after_search, upsert_sample,
}
use redis_time_series.Uncompressed.Upserting.{insert_at-Stores}

find_place-beyond :
    (xs : List Sample) (left ts i : ℕ) (sample : Option Sample)
    → AtMost (ts - 1) xs
    → 0 < ts
    → length xs < left
    → find_place left ts i xs sample ≡ none
unfolding find_place
find_place-beyond xs zero ts i sample h pos more = absurd (omega arith)
find_place-beyond [] (suc left) ts i sample h pos more = refl
find_place-beyond (x ∷ xs) (suc left) ts i sample (h, hs) pos more =
    let rest = find_place-beyond xs left ts (i + 1) (some x) hs pos (omega arith) in
    elim (Bool-cases (ltb (u32 i) (2 ^ 31))) [
      | inl fits ↦ rw (fits, lt→leb ts x.timestamp (omega arith)) rest
      | inr negative ↦ rw negative refl
    ]

module _ (m : Memory) (d : Doubles) (policy : DuplicatePolicy) (c : Chunk) (xs : List Sample)
    (h : Stores c xs) (s : Sample) where
  -- In a chunk of 2 ^ 16 samples, or a multiple of that, the `short` is zero and nothing is searched:
  -- the new sample becomes the first one, whatever its timestamp is.
  pub upsert_sample-first :
      length xs % 2 ^ 16 ≡ 0
      → c.size + 16 < 2 ^ 36
      → (r : Upserted) × (upsert_sample m d policy c s ≡ some r)
        × (r.result ≡ cr_ok)
        × Stores r.chunk (s ∷ xs)
  unfolding upsert_sample short_bound find_place after_search insert_at
  upsert_sample-first full room = (
    insert_at m c 0 s,
    ap (Option.map (after_search m d policy c s)) (
        subst (λ n. find_place n s.timestamp 0 c.samples none ≡ some (0, none)) (sym nothing) refl),
    refl,
    insert_at-Stores m s c [] xs h room,
  )
    where
      nothing : short_bound c.num_samples ≡ 0
      nothing = ground (arith, h.count)

  -- In a chunk of 2 ^ 15 to 2 ^ 16 - 1 samples with no free slot the bound is above 2 ^ 63: for a
  -- sample that is newer than all of them the search reads beyond the block.
  pub upsert_sample-beyond :
      2 ^ 15 ≤ length xs
      → length xs < 2 ^ 16
      → length xs ≡ c.size / 16
      → AtMost (s.timestamp - 1) xs
      → 0 < s.timestamp
      → upsert_sample m d policy c s ≡ none
  unfolding upsert_sample short_bound
  upsert_sample-beyond many few full older pos = ap (Option.map (after_search m d policy c s)) (
      subst (λ t. find_place (short_bound c.num_samples) s.timestamp 0 t none ≡ none) (sym all)
        (find_place-beyond xs (short_bound c.num_samples) s.timestamp 0 none older pos
          (ground (arith, h.count))))
    where
      no_free : (free : List Sample) → c.samples ≡ xs ++ free → length free ≡ 0 → c.samples ≡ xs
      no_free [] e z = e ∙ append-nil xs
      no_free (y ∷ ys) e z = absurd (omega arith)

      all : c.samples ≡ xs
      all = no_free h.free h.slots (omega (arith, h.room))
