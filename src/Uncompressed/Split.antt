-- ===== src/Uncompressed/Split.antt =====
-- `Uncompressed_SplitChunk` and `Uncompressed_DelRange` against the list of samples.
use mathlib.Core.Path.{subst}
use mathlib.Core.List.{append_assoc, append-nil}
use redis_time_series.Common.{
  ℕ, zero, suc, ◌+◌, ◌-◌, ◌*◌, ◌/◌, ◌^◌, ◌≤◌, ◌<◌, ◌≡◌, refl, sym, ap, ◌∙◌, Bool-cases, inl, inr,
  List, [], ◌∷◌, ◌++◌, length, length-append, length-take, length-drop, take-append-drop, get_or,
  set, take, drop, arith, set-append, get_or-append, take-append,
}
use redis_time_series.Generic.{Sample, ChunkResult, cr_ok, cr_err, cr_end}
use redis_time_series.Ranges.{in_range, outside}
use redis_time_series.Uncompressed.{
  Memory, Chunk, add_sample, copy_samples, keep_samples, new_chunk, split_chunk, del_range,
  no_sample, sample_size,
}
use redis_time_series.Uncompressed.Stores.{Stores, FirstIs, AddOutcome, add_sample-Stores}

pub new_chunk-Stores : (m : Memory) (size : ℕ) → size < 2 ^ 36 → Stores (new_chunk m size) []
unfolding new_chunk
new_chunk-Stores m size small = record {
  free = m.malloc size;
  slots = refl;
  count = refl;
  room = omega (arith, m.malloc_length size);
  first = tt;
  small = small;
}

-- The sample goes in if there is room.
has_room :
    (o : ChunkResult × Chunk) (c : Chunk) (xs : List Sample) (s : Sample)
    → AddOutcome c xs s o
    → length xs < c.size / 16
    → Stores o.1 (xs ++ s ∷ []) × (o.1.size ≡ c.size)
has_room (cr_ok, c') c xs s h room = h
has_room (cr_err, c') c xs s h room = absurd h
has_room (cr_end, c') c xs s (same, full) room = absurd (omega arith)

copy_samples-Stores :
    (ys pre rest zs : List Sample) (i : ℕ) (src : List Sample) (dst : Chunk)
    → src ≡ pre ++ (ys ++ rest)
    → length pre ≡ i
    → Stores dst zs
    → length zs + length ys ≤ dst.size / 16
    → Stores (copy_samples (length ys) i src dst) (zs ++ ys)
unfolding copy_samples
copy_samples-Stores [] pre rest zs i src dst e n h room = rw append-nil h
copy_samples-Stores (y ∷ ys) pre rest zs i src dst e n h room =
    let found : get_or src i no_sample ≡ y =
      rw (e, ← n) (get_or-append pre y (ys ++ rest) no_sample) in
    let step = has_room (add_sample dst y) dst zs y (add_sample-Stores dst zs y h) (omega arith) in
    subst (λ t. Stores (copy_samples (length ys) (i + 1) src (add_sample dst t).1) (zs ++ y ∷ ys))
      (sym found)
      (subst (λ t. Stores (copy_samples (length ys) (i + 1) src (add_sample dst y).1) t)
        (append_assoc zs (y ∷ []) ys)
        (copy_samples-Stores ys (pre ++ y ∷ []) rest (zs ++ y ∷ []) (i + 1) src (add_sample dst y).1
          (e ∙ sym (append_assoc pre (y ∷ []) (ys ++ rest)))
          (omega (arith, n, length-append {0} pre (y ∷ []))) step.0
          (omega (arith, step.1, length-append {0} zs (y ∷ [])))))

FirstIs-take : (t k : ℕ) (xs : List Sample) → FirstIs t xs → FirstIs t (take k xs)
FirstIs-take t zero xs h = tt
FirstIs-take t (suc k) [] h = tt
FirstIs-take t (suc k) (x ∷ xs) h = h

module _ (m : Memory) (c : Chunk) (xs : List Sample) (h : Stores c xs) where
  -- The chunk keeps the first half of its samples, the larger one where they are odd in number, in a
  -- block of just their size, and the new chunk has the rest.
  pub split_chunk-Stores :
      let k = length xs - length xs / 2 in
      Stores (split_chunk m c).0 (take k xs)
      × Stores (split_chunk m c).1 (drop k xs)
      × ((split_chunk m c).0.size ≡ 16 * k)
  unfolding split_chunk new_chunk
  split_chunk-Stores = rw h.count (
    record {
      free = [];
      slots =
          subst (λ t. take k t ≡ take k xs ++ []) (sym parts)
            (subst (λ n. take n (take k xs ++ (drop k xs ++ h.free)) ≡ take k xs ++ []) kept
              (take-append (take k xs) (drop k xs ++ h.free) ∙ sym (append-nil (take k xs))));
      count = omega (arith, kept);
      room = omega (arith, kept);
      first = FirstIs-take c.base_timestamp k xs h.first;
      small = omega (arith, h.room, h.small);
    },
    subst
        (λ n.
          Stores (copy_samples n k c.samples (new_chunk m (length xs / 2 * sample_size)))
            (drop k xs))
        (omega (arith, length-drop k xs))
        (copy_samples-Stores (drop k xs) (take k xs) h.free [] k c.samples
          (new_chunk m (length xs / 2 * sample_size)) parts kept
          (new_chunk-Stores m (length xs / 2 * sample_size) (omega (arith, h.room, h.small)))
          (new_room)),
    omega arith,
  )
    where
      k : ℕ
      k = length xs - length xs / 2

      kept : length (take k xs) ≡ k
      kept = omega (arith, length-take k xs)

      parts : c.samples ≡ take k xs ++ (drop k xs ++ h.free)
      parts =
          h.slots
          ∙ ap (λ t. t ++ h.free) (sym (take-append-drop k xs))
          ∙ append_assoc (take k xs) (drop k xs) h.free

      new_room : 0 + length (drop k xs) ≤ (new_chunk m (length xs / 2 * sample_size)).size / 16
      new_room = omega (arith, length-drop k xs)

-- What the loop of the deletion leaves in the new block.
record Kept (r : List Sample × ℕ) (ys : List Sample) (total : ℕ) : Type 0 where
  pub free : List Sample
  pub slots : r.0 ≡ ys ++ free
  pub count : r.1 ≡ length ys
  pub room : length ys + length free ≡ total

keep_samples-Kept :
    (xs rest zs fs : List Sample) (a b n : ℕ) (new : List Sample)
    → new ≡ zs ++ fs
    → n ≡ length zs
    → length xs ≤ length fs
    → Kept
        (keep_samples (length xs) a b (xs ++ rest) new n)
        (zs ++ outside a b xs)
        (length zs + length fs)
unfolding keep_samples
keep_samples-Kept [] rest zs fs a b n new e count room = record {
  free = fs;
  slots = rw append-nil e;
  count = rw append-nil count;
  room = rw append-nil refl;
}
keep_samples-Kept (x ∷ xs) rest zs [] a b n new e count room = absurd (omega arith)
keep_samples-Kept (x ∷ xs) rest zs (f ∷ fs) a b n new e count room =
    elim (Bool-cases (in_range a b x)) [
      | inl del ↦ rw del (keep_samples-Kept xs rest zs (f ∷ fs) a b n new e count (omega arith))
      | inr keep ↦
          let more =
            keep_samples-Kept xs rest (zs ++ x ∷ []) fs a b (n + 1) (set new n x)
              (rw (e, count) (set-append zs f fs x) ∙ sym (append_assoc zs (x ∷ []) fs))
              (omega (arith, length-append {0} zs (x ∷ []))) (omega arith) in
          rw (keep, ← append_assoc zs (x ∷ []) (outside a b xs))
            (record {
              free = more.free;
              slots = more.slots;
              count = more.count;
              room = omega (arith, more.room, length-append {0} zs (x ∷ []));
            })
    ]

length-outside : (a b : ℕ) (xs : List Sample) → length (outside a b xs) ≤ length xs
length-outside a b [] = omega arith
length-outside a b (x ∷ xs) = ground (arith, length-outside a b xs)

FirstIs-slots :
    (ys free slots : List Sample)
    → slots ≡ ys ++ free
    → FirstIs (get_or slots 0 no_sample).timestamp ys
FirstIs-slots [] free slots e = tt
FirstIs-slots (y ∷ ys) free slots e = ap (λ t. (get_or t 0 no_sample).timestamp) e

-- `Uncompressed_DelRange` reports the number of samples in the range, and the chunk stores the
-- others, in order.
pub del_range-Stores :
    (m : Memory) (c : Chunk) (xs : List Sample) (a b : ℕ)
    → Stores c xs
    → ((del_range m c a b).0 + length (outside a b xs) ≡ length xs)
      × Stores (del_range m c a b).1 (outside a b xs)
unfolding del_range
del_range-Stores m c xs a b h =
    rw (h.slots, h.count)
      (
        omega (arith, k.count, length-outside a b xs),
        record {
          free = k.free;
          slots = k.slots;
          count = k.count;
          room = omega (arith, k.room, m.malloc_length c.size);
          first =
              FirstIs-slots (outside a b xs) k.free
                (keep_samples (length xs) a b (xs ++ h.free) (m.malloc c.size) 0).0 k.slots;
          small = h.small;
        },
      )
  where
    k :
        Kept
          (keep_samples (length xs) a b (xs ++ h.free) (m.malloc c.size) 0)
          (outside a b xs)
          (0 + length (m.malloc c.size))
    k =
        keep_samples-Kept xs h.free [] (m.malloc c.size) a b 0 (m.malloc c.size) refl refl
          (omega (arith, h.room, m.malloc_length c.size))
