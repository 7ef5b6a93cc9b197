-- ===== src/Uncompressed/Stores.antt =====
-- The samples that an uncompressed chunk stores, and what adding one does to them.
use mathlib.Core.List.{append_assoc}
use redis_time_series.Common.{
  ℕ, suc, ◌+◌, ◌/◌, ◌^◌, ◌<◌, ◌≡◌, refl, sym, ◌∙◌, List, [], ◌∷◌, ◌++◌, length, length-append, ◌==◌,
  ==_iff, ne→==, if◌then◌else◌, arith, set-append,
}
use redis_time_series.Generic.{Sample, ChunkResult, cr_ok, cr_err, cr_end}
use redis_time_series.Uncompressed.{Chunk, add_sample}

abbrev pub FirstIs : ℕ → List Sample → Type 0
FirstIs t [] = Unit {0}
FirstIs t (x ∷ xs) = t ≡ x.timestamp

-- The first slots hold `xs`, and the base timestamp is that of the first. The array has the slots
-- that `size` bytes make, fewer than an `unsigned int` counts.
pub record Stores (c : Chunk) (xs : List Sample) : Type 0 where
  pub free : List Sample
  pub slots : c.samples ≡ xs ++ free
  pub count : c.num_samples ≡ length xs
  pub room : length xs + length free ≡ c.size / 16
  pub first : FirstIs c.base_timestamp xs
  pub small : c.size < 2 ^ 36

pub FirstIs-append :
    (t : ℕ) (xs : List Sample) (s : Sample)
    → FirstIs t xs
    → FirstIs (if length xs == 0 then s.timestamp else t) (xs ++ s ∷ [])
FirstIs-append t [] s h = refl
FirstIs-append t (x ∷ xs) s h = rw (ne→== (suc (length xs)) 0 (omega arith)) h

-- CR_OK and the sample is the last; or CR_END, with no slot free and nothing changed.
abbrev pub AddOutcome : Chunk → List Sample → Sample → ChunkResult × Chunk → Type 0
AddOutcome c xs s (cr_ok, c') = Stores c' (xs ++ s ∷ []) × (c'.size ≡ c.size)
AddOutcome c xs s (cr_err, c') = ⊥
AddOutcome c xs s (cr_end, c') = (c' ≡ c) × (length xs ≡ c.size / 16)

-- In a free slot.
add_sample-free :
    (c : Chunk) (xs : List Sample) (s y : Sample) (ys : List Sample)
    → c.samples ≡ xs ++ y ∷ ys
    → c.num_samples ≡ length xs
    → length xs + length (y ∷ ys) ≡ c.size / 16
    → FirstIs c.base_timestamp xs
    → c.size < 2 ^ 36
    → AddOutcome c xs s (add_sample c s)
unfolding add_sample
add_sample-free c xs s y ys slots count room first small =
    rw (ne→== c.num_samples (c.size / 16) (omega arith)) (
      record {
        free = ys;
        slots = rw (slots, count) (set-append xs y ys s) ∙ sym (append_assoc xs (s ∷ []) ys);
        count = omega (arith, length-append {0} xs (s ∷ []));
        room = omega (arith, length-append {0} xs (s ∷ []));
        first = rw count (FirstIs-append c.base_timestamp xs s first);
        small = small;
      },
      refl,
    )

-- In a chunk with a free slot the sample becomes the last one. In a full chunk the result is CR_END
-- and nothing changes.
pub add_sample-Stores :
    (c : Chunk) (xs : List Sample) (s : Sample) → Stores c xs → AddOutcome c xs s (add_sample c s)
unfolding add_sample
add_sample-Stores c xs s h = by_free h.free h.slots h.room
  where
    by_free :
        (free : List Sample)
        → c.samples ≡ xs ++ free
        → length xs + length free ≡ c.size / 16
        → AddOutcome c xs s (add_sample c s)
    by_free [] slots room =
        rw ((==_iff c.num_samples (c.size / 16)).1 (omega (arith, h.count))) (refl, omega arith)
    by_free (y ∷ ys) slots room = add_sample-free c xs s y ys slots h.count room h.first h.small
