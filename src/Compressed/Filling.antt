-- ===== src/Compressed/Filling.antt =====
-- What `decompressChunk` and `decompressChunkReverse` write, from the search of the first sample on.
use redis_time_series.Common.{
  ℕ, zero, suc, ◌-◌, ◌^◌, ◌≤◌, ◌<◌, ◌≡◌, refl, sym, ap, ◌∙◌, false, Bool-cases, inl, inr, Option,
  some, List, [], ◌∷◌, length, leb, ltb, lt→ltb, le→ltb, ltb→le, leb→le, leb→lt, le→leb,
  if◌then◌else◌, if_both, arith,
}
use redis_time_series.Generic.{Sample, cr_ok}
use redis_time_series.Ranges.{AtMost, AtMost-trans, IsSorted, up_to, from_start}
use redis_time_series.Gorilla.{CompressedChunk, CompressedIterator}
use redis_time_series.Common.{◌>>=◌}
use redis_time_series.Compressed.{Cursor}
use redis_time_series.Compressed.Decompress.{
  skip_older, skip_older_reverse, take_back, fours, after_fours, fill,
}
use redis_time_series.Compressed.Collect.{
  At, At-next, push_all, fill_all-push_all, left_overs-push_all, take_back-push_all, take_back-kept,
  up_to-all, fours-round, fours-stop,
}

-- A sorted list whose fourth sample is past the range is so from there on.
up_to-four :
    (b : ℕ) (x1 x2 x3 x4 : Sample) (xs : List Sample)
    → leb x4.timestamp b ≡ false
    → up_to b (x1 ∷ x2 ∷ x3 ∷ x4 ∷ xs) ≡ up_to b (x1 ∷ x2 ∷ x3 ∷ x4 ∷ [])
up_to-four b x1 x2 x3 x4 xs gt = rw gt refl

module _ (c : CompressedChunk) (small : c.count < 2 ^ 64) (b : ℕ) where
  -- The loop does not start another round.
  stopped :
      (f n : ℕ) (xs out : List Sample) (it : CompressedIterator) (old : Sample)
      → At c it xs
      → ltb it.count n ≡ false
      → (fours (suc f) c n b (it, old) out >>= after_fours c b) ≡ some (push_all (up_to b xs) out)
  unfolding after_fours
  stopped f n xs out it old a stop =
      rw (fours-stop c f n b it old out stop)
        (left_overs-push_all c small b xs out it old (suc c.count) a (omega (arith, a.1)))

  fours-push_all :
      (f n : ℕ) (xs out : List Sample) (it : CompressedIterator) (old : Sample)
      → At c it xs
      → IsSorted xs
      → take_back b out ≡ out
      → length xs < f
      → n ≤ c.count - 4
      → (fours f c n b (it, old) out >>= after_fours c b) ≡ some (push_all (up_to b xs) out)
  unfolding after_fours
  fours-push_all zero n xs out it old a s kept fuel le = absurd (omega arith)
  fours-push_all (suc f) n [] out it old a s kept fuel le =
      stopped f n [] out it old a (le→ltb it.count n (omega (arith, a.1)))
  fours-push_all (suc f) n (x1 ∷ []) out it old a s kept fuel le =
      stopped f n (x1 ∷ []) out it old a (le→ltb it.count n (omega (arith, a.1)))
  fours-push_all (suc f) n (x1 ∷ x2 ∷ []) out it old a s kept fuel le =
      stopped f n (x1 ∷ x2 ∷ []) out it old a (le→ltb it.count n (omega (arith, a.1)))
  fours-push_all (suc f) n (x1 ∷ x2 ∷ x3 ∷ []) out it old a s kept fuel le =
      stopped f n (x1 ∷ x2 ∷ x3 ∷ []) out it old a (le→ltb it.count n (omega (arith, a.1)))
  fours-push_all (suc f) n (x1 ∷ x2 ∷ x3 ∷ x4 ∷ rest) out it old a s kept fuel le =
      let (it1, e1, a1) = At-next c it x1 (x2 ∷ x3 ∷ x4 ∷ rest) small a in
      let (it2, e2, a2) = At-next c it1 x2 (x3 ∷ x4 ∷ rest) small a1 in
      let (it3, e3, a3) = At-next c it2 x3 (x4 ∷ rest) small a2 in
      let (it4, e4, a4) = At-next c it3 x4 rest small a3 in
      elim (Bool-cases (ltb it.count n)) [
        | inr stop ↦ stopped f n (x1 ∷ x2 ∷ x3 ∷ x4 ∷ rest) out it old a stop
        | inl go ↦
            rw
              (fours-round c f n b it it1 it2 it3 it4 old x1 x2 x3 x4 out (e1 old) (e2 x1) (e3 x2)
                (e4 x3) go)
              (elim (Bool-cases (leb x4.timestamp b)) [
                | inl in_it ↦
                    let le4 = leb→le x4.timestamp b in_it in
                    rw
                      (
                        le→ltb b x4.timestamp le4,
                        le→leb x1.timestamp b (omega (arith, s.0.1.1.0)),
                        le→leb x2.timestamp b (omega (arith, s.1.0.1.0)),
                        le→leb x3.timestamp b (omega (arith, s.1.1.0.0)),
                        in_it,
                      )
                      (fours-push_all f n rest (x4 ∷ x3 ∷ x2 ∷ x1 ∷ out) it4 x4 a4 s.1.1.1.1
                        (take_back-kept b x4 (x3 ∷ x2 ∷ x1 ∷ out) le4) (omega arith) le)
                | inr past ↦ rw (lt→ltb b x4.timestamp (leb→lt x4.timestamp b past)) (
                    ap some (
                      take_back-push_all b (x1 ∷ x2 ∷ x3 ∷ x4 ∷ []) out
                        (
                          (s.0.0, (s.0.1.0, (s.0.1.1.0, tt))),
                          ((s.1.0.0, (s.1.0.1.0, tt)), ((s.1.1.0.0, tt), (tt, tt))),
                        )
                        kept
                      ∙ ap (λ t. push_all t out) (sym (up_to-four b x1 x2 x3 x4 rest past))))
              ])
      ]

  -- From the first sample of the range on, everything up to its end.
  pub fill-push_all :
      (x : Sample) (xs : List Sample) (it : CompressedIterator)
      → At c it xs
      → IsSorted xs
      → x.timestamp ≤ b
      → AtMost c.prev_timestamp xs
      → fill c b (it, x) (x ∷ []) ≡ some (push_all (up_to b xs) (x ∷ []))
  unfolding fill
  fill-push_all x xs it a s le most =
      if_both (λ t. t ≡ some (push_all (up_to b xs) (x ∷ []))) (ltb b c.prev_timestamp)
        (λ _.
          fours-push_all (suc c.count) (if leb 4 c.count then c.count - 4 else 0) xs (x ∷ []) it x a
            s (take_back-kept b x [] le) (omega (arith, a.1)) (ground arith))
        λ e.
          rw
            (up_to-all b xs (AtMost-trans c.prev_timestamp b xs (ltb→le b c.prev_timestamp e) most))
            (fill_all-push_all c small xs (x ∷ []) it x (suc c.count) a (omega (arith, a.1)))

-- The cursor is at the first sample of the list, if there is one, and the others come after it.
abbrev pub Found : CompressedChunk → Option Cursor → List Sample → Type 0
Found c r [] = Unit {0}
Found c r (y ∷ ys) = (it : CompressedIterator) × (r ≡ some (it, y)) × At c it ys

module _ (c : CompressedChunk) (small : c.count < 2 ^ 64) (a : ℕ) where
  pub skip_older-Found :
      (f : ℕ) (x : Sample) (xs : List Sample) (it : CompressedIterator)
      → At c it xs
      → length xs < f
      → Found c (skip_older f c a cr_ok (it, x)) (from_start a (x ∷ xs))
  unfolding skip_older
  skip_older-Found zero x xs it h more = absurd (omega arith)
  skip_older-Found (suc f) x [] it h more = elim (Bool-cases (leb a x.timestamp)) [
    | inl e ↦ rw (e, le→ltb x.timestamp a (leb→le a x.timestamp e)) (it, refl, h)
    | inr e ↦ rw e tt
  ]
  skip_older-Found (suc f) x (y ∷ ys) it h more = elim (Bool-cases (leb a x.timestamp)) [
    | inl e ↦ rw (e, le→ltb x.timestamp a (leb→le a x.timestamp e)) (it, refl, h)
    | inr e ↦
        let (it', e', h') = At-next c it y ys small h in
        rw (e, lt→ltb x.timestamp a (leb→lt a x.timestamp e), e' x)
          (skip_older-Found f y ys it' h' (omega arith))
  ]

  pub skip_older_reverse-Found :
      (f : ℕ) (x : Sample) (xs : List Sample) (it : CompressedIterator)
      → At c it xs
      → length xs < f
      → Found c (skip_older_reverse f c a (it, x)) (from_start a (x ∷ xs))
  unfolding skip_older_reverse
  skip_older_reverse-Found zero x xs it h more = absurd (omega arith)
  skip_older_reverse-Found (suc f) x [] it h more = elim (Bool-cases (leb a x.timestamp)) [
    | inl e ↦ rw (e, le→ltb x.timestamp a (leb→le a x.timestamp e)) (it, refl, h)
    | inr e ↦ rw e tt
  ]
  skip_older_reverse-Found (suc f) x (y ∷ ys) it h more = elim (Bool-cases (leb a x.timestamp)) [
    | inl e ↦ rw (e, le→ltb x.timestamp a (leb→le a x.timestamp e)) (it, refl, h)
    | inr e ↦
        let (it', e', h') = At-next c it y ys small h in
        rw
          (
            e,
            lt→ltb x.timestamp a (leb→lt a x.timestamp e),
            lt→ltb it.count c.count (omega (arith, h.1)),
            e' x,
          )
          (skip_older_reverse-Found f y ys it' h' (omega arith))
  ]
