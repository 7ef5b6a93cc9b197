-- ===== src/Uncompressed/Upserting.antt =====
-- `Uncompressed_UpsertSample` against the list of samples.
use mathlib.Core.Path.{subst}
use mathlib.Core.List.{append_assoc, append-nil}
use mathlib.Core.Option
use redis_time_series.Common.{
  lt→ltb, ℕ, ◌+◌, ◌/◌, ◌^◌, ◌<◌, ◌≡◌, ◌≢◌, refl, sym, ap, ◌∙◌, Bool-cases, inl, inr, Option, none,
  some, List, [], ◌∷◌, ◌++◌, length, length-append, leb, ltb, ◌==◌, ==_iff, ne→==, leb→lt,
  if◌then◌else◌, get_or, set, arith, u32,
}
use redis_time_series.Generic.{
  Sample, ChunkResult, cr_ok, cr_err, cr_end, DuplicatePolicy, dp_block, dp_first, dp_last, dp_min,
  dp_max, dp_sum, dp_invalid, dp_none, apply_policy, Doubles, handle_duplicate_sample, upsert_list,
  merged, behind,
}
use redis_time_series.Uncompressed.{Memory, Chunk, is_chunk_full, no_sample, chunk_get_sample}
use redis_time_series.Uncompressed.Stores.{Stores, FirstIs}
use redis_time_series.Uncompressed.Insert.{shifted, FirstIs-insert}
use redis_time_series.Uncompressed.Upsert.{
  Upserted, move_up, short_bound, find_place, update_value, upsert_chunk, insert_at, after_search,
  upsert_sample,
}

-- The write, into an array that has the free slot `y`.
written :
    (t size n : ℕ) (slots ys xs : List Sample) (y : Sample) (fs : List Sample) (s : Sample)
    → slots ≡ ys ++ xs ++ y ∷ fs
    → n ≡ length (ys ++ xs)
    → length (ys ++ xs) + length (y ∷ fs) ≡ size / 16
    → FirstIs t (ys ++ s ∷ xs)
    → size < 2 ^ 36
    → Stores
        (record {
          base_timestamp = t;
          samples =
              set (if ltb (length ys) n then move_up slots (length ys) n else slots) (length ys) s;
          num_samples = u32 (n + 1);
          size = size;
        })
        (ys ++ s ∷ xs)
written t size n slots ys xs y fs s e count room first small = record {
  free = fs;
  slots =
      rw (e, append_assoc ys xs (y ∷ fs))
        (shifted ys xs y fs s n (omega (arith, count, length-append {0} ys xs))
          ∙ sym (append_assoc ys (s ∷ xs) fs));
  count = omega (arith, count, length-append {0} ys xs, length-append {0} ys (s ∷ xs));
  room = omega (arith, room, length-append {0} ys xs, length-append {0} ys (s ∷ xs));
  first = first;
  small = small;
}

one_slot : (xs : List Sample) → length xs ≡ 1 → (y : Sample) × (xs ≡ y ∷ [])
one_slot [] e = absurd (omega arith)
one_slot (y ∷ []) e = (y, refl)
one_slot (y ∷ z ∷ xs) e = absurd (omega arith)

module _ (m : Memory) (s : Sample) where
  pub insert_at-Stores :
      (c : Chunk) (ys xs : List Sample)
      → Stores c (ys ++ xs)
      → c.size + 16 < 2 ^ 36
      → Stores (insert_at m c (length ys) s).chunk (ys ++ s ∷ xs)
  unfolding insert_at upsert_chunk is_chunk_full
  insert_at-Stores c ys xs h small = by_free h.free h.slots h.room
    where
      t : ℕ
      t = if length ys == 0 then s.timestamp else c.base_timestamp

      first : FirstIs t (ys ++ s ∷ xs)
      first = FirstIs-insert c.base_timestamp ys s xs h.first

      fresh : (y : Sample) × (m.malloc 16 ≡ y ∷ [])
      fresh = one_slot (m.malloc 16) (omega (arith, m.malloc_length 16))

      by_free :
          (free : List Sample)
          → c.samples ≡ ys ++ xs ++ free
          → length (ys ++ xs) + length free ≡ c.size / 16
          → Stores (insert_at m c (length ys) s).chunk (ys ++ s ∷ xs)
      by_free [] slots room =
          let longer : c.samples ++ m.malloc 16 ≡ ys ++ xs ++ fresh.0 ∷ [] =
            rw (slots, fresh.1, append-nil) refl in
          rw ((==_iff c.num_samples (c.size / 16)).1 (omega (arith, h.count))) (
            written t (c.size + 16) c.num_samples (c.samples ++ m.malloc 16) ys xs fresh.0 [] s
              longer h.count (omega arith) first small)
      by_free (y ∷ fs) slots room =
          rw (ne→== c.num_samples (c.size / 16) (omega (arith, h.count)))
            (written t c.size c.num_samples c.samples ys xs y fs s slots h.count room first h.small)

-- Where a sample has the timestamp: what `handleDuplicateSample` makes of the new one.
timestamp-apply_policy :
    (d : Doubles) (policy : DuplicatePolicy) (old new : Sample)
    → new.timestamp ≡ old.timestamp
    → (apply_policy d policy old new).1.timestamp ≡ old.timestamp
unfolding apply_policy
timestamp-apply_policy d dp_block old new e = e
timestamp-apply_policy d dp_first old new e = refl
timestamp-apply_policy d dp_last old new e = e
timestamp-apply_policy d dp_min old new e = ground (arith)
timestamp-apply_policy d dp_max old new e = ground (arith)
timestamp-apply_policy d dp_sum old new e = e
timestamp-apply_policy d dp_invalid old new e = e
timestamp-apply_policy d dp_none old new e = e

timestamp-handle_duplicate_sample :
    (d : Doubles) (policy : DuplicatePolicy) (old new : Sample)
    → new.timestamp ≡ old.timestamp
    → (handle_duplicate_sample d policy old new).1.timestamp ≡ old.timestamp
unfolding handle_duplicate_sample
timestamp-handle_duplicate_sample d policy old new e =
    ground (arith, timestamp-apply_policy d policy old new)

-- What the source leaves, by the outcome on lists: an error and the chunk itself, or success, the
-- number of new samples and a chunk that stores `ys` and then the list.
abbrev pub Outcome : Upserted → Chunk → List Sample → Option (ℕ × List Sample) → Type 0
Outcome r c ys none = (r.result ≡ cr_err) × (r.chunk ≡ c) × (r.size ≡ 0)
Outcome r c ys (some (k, zs)) = (r.result ≡ cr_ok) × (r.size ≡ k) × Stores r.chunk (ys ++ zs)

FirstIs-replace :
    (t : ℕ) (ys : List Sample) (x new : Sample) (xs : List Sample)
    → new.timestamp ≡ x.timestamp
    → FirstIs t (ys ++ x ∷ xs)
    → FirstIs t (ys ++ new ∷ xs)
FirstIs-replace t [] x new xs e h = h ∙ sym e
FirstIs-replace t (y ∷ ys) x new xs e h = h

-- The write of the value alone.
abbrev with_value : List Sample → ℕ → Sample → List Sample
with_value slots i new = set slots i (record (get_or slots i no_sample) { value = new.value })

with_value_lem :
    (ys : List Sample) (x new : Sample) (rest : List Sample)
    → new.timestamp ≡ x.timestamp
    → with_value (ys ++ x ∷ rest) (length ys) new ≡ ys ++ new ∷ rest
with_value_lem [] x new rest e =
    ap (λ t. record { timestamp = t; value = new.value } ∷ rest) (sym e)
with_value_lem (y ∷ ys) x new rest e = ap (◌∷◌ y) (with_value_lem ys x new rest e)

chunk_get_sample-fits :
    (c : Chunk) (i : ℕ) → i < 2 ^ 31 → chunk_get_sample c i ≡ get_or c.samples i no_sample
unfolding chunk_get_sample
chunk_get_sample-fits c i fits =
    let same : u32 i ≡ i = omega (arith, fits) in rw (same, lt→ltb i (2 ^ 31) fits) refl

update_value-Outcome :
    (c : Chunk) (ys : List Sample) (x : Sample) (xs : List Sample) (o : ChunkResult × Sample)
    → Stores c (ys ++ x ∷ xs)
    → o.1.timestamp ≡ x.timestamp
    → length ys < 2 ^ 31
    → Outcome (update_value c (length ys) o) c ys (merged xs o)
unfolding update_value
update_value-Outcome c ys x xs (cr_ok, new) h e fits = (
  refl,
  refl,
  record {
    free = h.free;
    slots =
        ap (λ old. set c.samples (length ys) (record old { value = new.value }))
          (chunk_get_sample-fits c (length ys) fits)
        ∙ ap (λ t. with_value t (length ys) new) (h.slots ∙ append_assoc ys (x ∷ xs) h.free)
        ∙ with_value_lem ys x new (xs ++ h.free) e
        ∙ sym (append_assoc ys (new ∷ xs) h.free);
    count = omega (arith, h.count, length-append {0} ys (x ∷ xs), length-append {0} ys (new ∷ xs));
    room = omega (arith, h.room, length-append {0} ys (x ∷ xs), length-append {0} ys (new ∷ xs));
    first = FirstIs-replace c.base_timestamp ys x new xs e h.first;
    small = h.small;
  },
)
update_value-Outcome c ys x xs (cr_err, new) h e fits = (refl, refl, refl)
update_value-Outcome c ys x xs (cr_end, new) h e fits = (refl, refl, refl)

-- The last sample that the search looked at does not have the timestamp.
abbrev Differs : ℕ → Option Sample → Type 0
Differs ts none = Unit {0}
Differs ts (some x) = ts ≢ x.timestamp

-- The search as a function of the samples that are left.
abbrev place : ℕ → ℕ → List Sample → Option Sample → ℕ × Option Sample
place ts i [] sample = (i, sample)
place ts i (x ∷ xs) sample =
    if leb ts x.timestamp then (i, some x) else place ts (i + 1) xs (some x)

find_place-place :
    (ts i : ℕ) (xs free : List Sample) (sample : Option Sample)
    → i + length xs < 2 ^ 31
    → find_place (length xs) ts i (xs ++ free) sample ≡ some (place ts i xs sample)
unfolding find_place
find_place-place ts i [] free sample small = refl
find_place-place ts i (x ∷ xs) free sample small =
    let same : u32 i ≡ i = omega (arith, small) in
    let fits = lt→ltb i (2 ^ 31) (omega (arith, small)) in
    elim (Bool-cases (leb ts x.timestamp)) [
      | inl e ↦ rw (same, fits, e) refl
      | inr e ↦
          rw (same, fits, e) (find_place-place ts (i + 1) xs free (some x) (omega (arith, small)))
    ]

Outcome-behind :
    (r : Upserted) (c : Chunk) (ys : List Sample) (x : Sample) (o : Option (ℕ × List Sample))
    → Outcome r c (ys ++ x ∷ []) o
    → Outcome r c ys (behind x o)
Outcome-behind r c ys x none h = h
Outcome-behind r c ys x (some (k, zs)) (a, b, h) =
    (a, b, subst (λ t. Stores r.chunk t) (append_assoc ys (x ∷ []) zs) h)

module _ (m : Memory) (d : Doubles) (policy : DuplicatePolicy) (c : Chunk) (s : Sample)
    (room : c.size + 16 < 2 ^ 36) where
  insert_at-Outcome :
      (ys xs : List Sample)
      → Stores c (ys ++ xs)
      → Outcome (insert_at m c (length ys) s) c ys (some (1, s ∷ xs))
  unfolding insert_at
  insert_at-Outcome ys xs h = (refl, refl, insert_at-Stores m s c ys xs h room)

  after_search-Outcome :
      (xs ys : List Sample) (i : ℕ) (last : Option Sample)
      → Stores c (ys ++ xs)
      → i ≡ length ys
      → Differs s.timestamp last
      → length ys + length xs < 2 ^ 15
      → Outcome
          (after_search m d policy c s (place s.timestamp i xs last))
          c
          ys
          (upsert_list d policy s xs)
  unfolding after_search
  after_search-Outcome [] ys i none h e new few = rw e (insert_at-Outcome ys [] h)
  after_search-Outcome [] ys i (some x) h e new few =
      rw (ne→== s.timestamp x.timestamp new, e) (insert_at-Outcome ys [] h)
  after_search-Outcome (x ∷ xs) ys i last h e new few =
      elim (Bool-cases (leb s.timestamp x.timestamp)) [
        | inl le ↦ rw le (elim (Bool-cases (s.timestamp == x.timestamp)) [
          | inl same ↦
              rw (same, e)
                (update_value-Outcome c ys x xs (handle_duplicate_sample d policy x s) h
                  (timestamp-handle_duplicate_sample d policy x s
                    ((==_iff s.timestamp x.timestamp).0 same))
                  (omega (arith, few)))
          | inr before ↦ rw (before, e) (insert_at-Outcome ys (x ∷ xs) h)
        ])
        | inr gt ↦ rw gt (
            Outcome-behind (after_search m d policy c s (place s.timestamp (i + 1) xs (some x))) c
              ys x (upsert_list d policy s xs)
              (after_search-Outcome xs (ys ++ x ∷ []) (i + 1) (some x)
                (subst (λ t. Stores c t) (sym (append_assoc ys (x ∷ []) xs)) h)
                (omega (arith, e, length-append {0} ys (x ∷ [])))
                (λ same. absurd (omega (arith, leb→lt s.timestamp x.timestamp gt, same)))
                (omega (arith, few, length-append {0} ys (x ∷ [])))))
      ]

  -- In a chunk of fewer than 2 ^ 15 samples, `Uncompressed_UpsertSample` reads no slot beyond the
  -- block and does to the samples what `upsert_list` does: where the policy refuses a sample at a
  -- timestamp that is there, it returns CR_ERR and the chunk is as it was; else the sample is in its
  -- place or merged with the one there, and `*size` is the number of samples that are new.
  pub upsert_sample-Outcome :
      (xs : List Sample)
      → Stores c xs
      → length xs < 2 ^ 15
      → (r : Upserted) × (upsert_sample m d policy c s ≡ some r)
        × Outcome r c [] (upsert_list d policy s xs)
  unfolding upsert_sample short_bound
  upsert_sample-Outcome xs h few = (
    after_search m d policy c s (place s.timestamp 0 xs none),
    ap (Option.map (after_search m d policy c s)) found,
    after_search-Outcome xs [] 0 none h refl tt (omega (arith, few)),
  )
    where
      bound : short_bound c.num_samples ≡ length xs
      bound = ground (arith, h.count)

      found :
          find_place (short_bound c.num_samples) s.timestamp 0 c.samples none
          ≡ some (place s.timestamp 0 xs none)
      found = rw h.slots (
          subst
            (λ n.
              find_place n s.timestamp 0 (xs ++ h.free) none ≡ some (place s.timestamp 0 xs none))
            (sym bound) (find_place-place s.timestamp 0 xs h.free none (omega (arith, few))))
