-- ===== src/Compressed/Collect.antt =====
-- The loops of `decompressChunk` and `decompressChunkReverse`, one by one.
use redis_time_series.Common.{
  ℕ, zero, suc, ◌+◌, ◌^◌, ◌≤◌, ◌<◌, ◌≡◌, refl, ap, ◌∙◌, true, false, Bool-cases, inl, inr, some,
  List, [], ◌∷◌, length, leb, ltb, lt→ltb, le→ltb, leb→le, leb→lt, le→leb, ◌==◌, u64, if◌then◌else◌,
  arith,
}
use redis_time_series.Generic.{Sample, ChunkResult, cr_ok, cr_end}
use redis_time_series.Ranges.{AtMost, AtLeast, AtLeast-trans, IsSorted, up_to}
use redis_time_series.Gorilla.{CompressedChunk, CompressedIterator}
use redis_time_series.Gorilla.Read.{get_next}
use redis_time_series.Gorilla.Samples.{step}
use redis_time_series.Gorilla.Iterating.{Reads, count-step}
use redis_time_series.Compressed.Decompress.{fill_all, left_overs, take_back, fours}

count-get_next :
    (c : CompressedChunk) (it it' : CompressedIterator) (old x : Sample)
    → get_next c it old ≡ (cr_ok, it', x)
    → c.count < 2 ^ 64
    → it'.count ≡ it.count + 1
unfolding get_next
count-get_next c it it' old x e small = elim (Bool-cases (leb c.count it.count)) [
  | inl over ↦
      let ends : cr_end ≡ cr_ok =
        ap (λ (r : ChunkResult × CompressedIterator × Sample). r.0) (rw over at e) in
      absurd (cc)
  | inr ok ↦
      let same : (get_next c it old).1.count ≡ it'.count =
        ap (λ (r : ChunkResult × CompressedIterator × Sample). r.1.count) e in
      let room : it.count + 1 < 2 ^ 64 = omega (arith, leb→lt c.count it.count ok) in
      elim (Bool-cases (it.count == 0)) [
        | inl z ↦
            let same' : u64 (it.count + 1) ≡ it'.count = rw (ok, z) at same in omega (arith, same')
        | inr z ↦
            let same' : (step c.bins it).count ≡ it'.count = rw (ok, z) at same in
            omega (arith, same', count-step c.bins it room)
      ]
]

-- The samples that the iterator still gives, with the count of those that it has given.
abbrev pub At : CompressedChunk → CompressedIterator → List Sample → Type 0
At c it xs = Reads c it xs × (it.count + length xs ≡ c.count)

pub At-next :
    (c : CompressedChunk) (it : CompressedIterator) (x : Sample) (xs : List Sample)
    → c.count < 2 ^ 64
    → At c it (x ∷ xs)
    → (it' : CompressedIterator) × ((old : Sample) → get_next c it old ≡ (cr_ok, it', x))
      × At c it' xs
At-next c it x xs small ((it', e, r), n) =
    (it', e, (r, omega (arith, count-get_next c it it' x x (e x) small)))

-- What was written, the last sample on top.
abbrev pub push_all : List Sample → List Sample → List Sample
push_all [] out = out
push_all (x ∷ xs) out = push_all xs (x ∷ out)

module _ (c : CompressedChunk) (small : c.count < 2 ^ 64) where
  pub fill_all-push_all :
      (xs out : List Sample) (it : CompressedIterator) (old : Sample) (f : ℕ)
      → At c it xs
      → length xs < f
      → fill_all f c (it, old) out ≡ some (push_all xs out)
  unfolding fill_all
  fill_all-push_all xs out it old zero a more = absurd (omega arith)
  fill_all-push_all [] out it old (suc f) (r, n) more =
      rw (le→ltb it.count c.count (omega arith)) refl
  fill_all-push_all (x ∷ xs) out it old (suc f) a more =
      let (it', e, a') = At-next c it x xs small a in
      rw (lt→ltb it.count c.count (omega (arith, a.1)), e old)
        (fill_all-push_all xs (x ∷ out) it' x f a' (omega arith))

  pub left_overs-push_all :
      (b : ℕ) (xs out : List Sample) (it : CompressedIterator) (old : Sample) (f : ℕ)
      → At c it xs
      → length xs < f
      → left_overs f c b (it, old) out ≡ some (push_all (up_to b xs) out)
  unfolding left_overs
  left_overs-push_all b xs out it old zero a more = absurd (omega arith)
  left_overs-push_all b [] out it old (suc f) (r, n) more =
      rw (le→ltb it.count c.count (omega arith)) refl
  left_overs-push_all b (x ∷ xs) out it old (suc f) a more =
      let (it', e, a') = At-next c it x xs small a in
      elim (Bool-cases (leb x.timestamp b)) [
        | inl le ↦
            rw
              (
                lt→ltb it.count c.count (omega (arith, a.1)),
                e old,
                le→ltb b x.timestamp (leb→le x.timestamp b le),
                le,
              )
              (left_overs-push_all b xs (x ∷ out) it' x f a' (omega arith))
        | inr gt ↦
            rw
              (
                lt→ltb it.count c.count (omega (arith, a.1)),
                e old,
                lt→ltb b x.timestamp (leb→lt x.timestamp b gt),
                gt,
              )
              refl
      ]

pub take_back-kept :
    (b : ℕ) (x : Sample) (out : List Sample) → x.timestamp ≤ b → take_back b (x ∷ out) ≡ x ∷ out
unfolding take_back
take_back-kept b x out le = rw (le→ltb b x.timestamp le) refl

take_back-above :
    (b : ℕ) (xs out : List Sample)
    → AtLeast (b + 1) xs
    → take_back b (push_all xs out) ≡ take_back b out
unfolding take_back
take_back-above b [] out h = refl
take_back-above b (x ∷ xs) out (h, hs) =
    take_back-above b xs (x ∷ out) hs ∙ rw (lt→ltb b x.timestamp (omega arith)) refl

pub take_back-push_all :
    (b : ℕ) (xs out : List Sample)
    → IsSorted xs
    → take_back b out ≡ out
    → take_back b (push_all xs out) ≡ push_all (up_to b xs) out
unfolding take_back
take_back-push_all b [] out s h = h
take_back-push_all b (x ∷ xs) out (least, s) h = elim (Bool-cases (leb x.timestamp b)) [
  | inl le ↦ rw le (
      take_back-push_all b xs (x ∷ out) s
        (rw (le→ltb b x.timestamp (leb→le x.timestamp b le)) refl))
  | inr gt ↦
      let first = leb→lt x.timestamp b gt in
      rw gt (
        take_back-above b xs (x ∷ out) (AtLeast-trans (b + 1) x.timestamp xs (omega arith) least)
        ∙ rw (lt→ltb b x.timestamp first) h)
]

pub up_to-all : (b : ℕ) (xs : List Sample) → AtMost b xs → up_to b xs ≡ xs
up_to-all b [] h = refl
up_to-all b (x ∷ xs) (h, hs) = rw (le→leb x.timestamp b h) (ap (◌∷◌ x) (up_to-all b xs hs))

-- One round of the loop that reads four.
pub fours-round :
    (c : CompressedChunk) (f n b : ℕ) (it it1 it2 it3 it4 : CompressedIterator)
    (old x1 x2 x3 x4 : Sample) (out : List Sample)
    → get_next c it old ≡ (cr_ok, it1, x1)
    → get_next c it1 x1 ≡ (cr_ok, it2, x2)
    → get_next c it2 x2 ≡ (cr_ok, it3, x3)
    → get_next c it3 x3 ≡ (cr_ok, it4, x4)
    → ltb it.count n ≡ true
    → fours (suc f) c n b (it, old) out ≡ (
        if ltb b x4.timestamp
        then some (true, (it4, x4), take_back b (x4 ∷ x3 ∷ x2 ∷ x1 ∷ out))
        else fours f c n b (it4, x4) (x4 ∷ x3 ∷ x2 ∷ x1 ∷ out))
unfolding fours
fours-round c f n b it it1 it2 it3 it4 old x1 x2 x3 x4 out e1 e2 e3 e4 lt =
    rw (lt, e1, e2, e3, e4) refl

pub fours-stop :
    (c : CompressedChunk) (f n b : ℕ) (it : CompressedIterator) (old : Sample) (out : List Sample)
    → ltb it.count n ≡ false
    → fours (suc f) c n b (it, old) out ≡ some (false, (it, old), out)
unfolding fours
fours-stop c f n b it old out stop = rw stop refl
