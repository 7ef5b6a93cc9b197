-- ===== src/Series/Deleting.antt =====
-- The rounds of the loop of `SeriesDelRange`, put together.
use mathlib.Core.Path.{subst}
use redis_time_series.Common.{
  ℕ, zero, suc, ◌+◌, ◌≤◌, ◌<◌, ◌≡◌, inl, inr, refl, ap, Bool, true, false, not, ◌&&◌, Bool-cases,
  Option, some, List, [], ◌∷◌, ◌++◌, leb, ltb, ltb→lt, ltb→le, ◌==◌, ==_iff, length, length-append,
  add64, arith,
}
use redis_time_series.Generic.{Sample}
use redis_time_series.Ranges.{last_sample, outside}
use redis_time_series.Chunks.{ChunkFuncs, ChunkLaws, Deleted}
use redis_time_series.Dictionary.{Dictionary, DictionaryLaws}
use redis_time_series.Series.{Series, drop_chunk, purge_chunk, del_entry, del_loop}
use redis_time_series.Series.Rows.{flat}
use redis_time_series.Series.Outside.{outside_some}
use redis_time_series.Series.Rounds.{
  del_entry-later, del_entry-earlier, del_entry-whole, del_entry-part, del_loop-halted,
  del_loop-going, del_loop-end,
}
use redis_time_series.Series.Passing.{stopped, skipped, dropped}
use redis_time_series.Series.Partly.{Rest, Outcome, next, left_some, left_none}
use redis_time_series.Series.Loop.{Going, next_entry, go_on, drop_on, others, key_low, keys_before}

whole_parts :
    (a b x z : ℕ) (t : Bool)
    → (leb a x && leb z b && not t) ≡ true
    → (a ≤ x) × (z ≤ b) × (t ≡ false)
whole_parts a b x z t h = (ground arith, ground arith, ground arith)

part_only :
    (a b x z : ℕ) (t : Bool) → a ≤ x → z ≤ b → (leb a x && leb z b && not t) ≡ false → t ≡ true
part_only a b x z t low high h = ground arith

length_nil : (xs : List Sample) → length xs ≡ 0 → xs ≡ []
length_nil [] e = refl
length_nil (x ∷ xs) e = absurd (omega arith)

module _ (f : ChunkFuncs) (d : Dictionary) (size : ℕ) (L : ChunkLaws f size) (D : DictionaryLaws d)
    (a b : ℕ) where
  module _ (s : Series f.Chunk d.Dict) (pre es : List (ℕ × ℕ)) (k p : ℕ) (x : Sample)
      (xs : List Sample) (segs : List (List Sample)) (at : Option ℕ) (bound deleted kept fuel : ℕ)
      (h : Going f d size L D a b s pre ((k, p) ∷ es) ((x ∷ xs) ∷ segs) at bound deleted kept)
      (rest : Rest f d size L D a b fuel es segs) where
    -- The chunk that stands at the iterator's place.
    round :
        0 < fuel
        → Outcome f d size L D a b s pre es k p x xs segs at bound deleted kept fuel h rest
            (del_loop f d (suc fuel) a b s at deleted)
    round fuelled =
        let c = s.memory p in
        let held = h.row.3.0 in
        let count = L.num_of_sample c (x ∷ xs) held in
        let first = L.first_timestamp c x xs held in
        let last = L.last_timestamp c x xs held in
        let z = (last_sample x xs).timestamp in
        let n = length xs in
        let only = add64 (suc n) deleted == s.total_samples in
        elim (Bool-cases (ltb b x.timestamp)) [
          | inl newer ↦
              rw
                (del_loop-halted f d fuel a b s at deleted (some (k, p))
                  (next f d size L D a b s pre es k p x xs segs at bound deleted kept fuel h rest) s
                  deleted
                  (del_entry-later f d a b s deleted k p n x.timestamp z count first last
                    (ltb→lt b x.timestamp newer)))
                (stopped f d size L D a b s pre es k p x xs segs bound deleted h.row h.entries_now
                  h.last_is (ltb→lt b x.timestamp newer))
          | inr begun ↦
              let starts = ltb→le b x.timestamp begun in
              elim (Bool-cases (ltb z a)) [
                | inl older ↦
                    rw
                      (del_loop-going f d fuel a b s at deleted (some (k, p))
                        (next f d size L D a b s pre es k p x xs segs at bound deleted kept fuel h
                          rest)
                        s k deleted
                        (del_entry-earlier f d a b s deleted k p n x.timestamp z count first last
                          starts (ltb→lt z a older)))
                      (skipped f d size L D a b s pre es k p x xs segs bound deleted h.row
                        (del_loop f d fuel a b s (some k) deleted) (ltb→lt z a older)
                        (rest s (pre ++ ((k, p) ∷ [])) (some k) (z + 1) deleted (kept + suc n) (
                          go_on f d size L D a b s pre es k p x xs segs at bound deleted kept h s k
                            deleted (suc n) h.entries_now (λ q ne. refl)
                            (keys_before f d size L D a b s pre es k p x xs segs at bound deleted
                              kept h)
                            (key_low f d size L D a b s pre es k p x xs segs at bound deleted kept
                              h)
                            refl refl (omega arith) refl)))
                | inr reaches ↦
                    let ends = ltb→le z a reaches in
                    elim (Bool-cases (leb a x.timestamp && leb z b && not only)) [
                      | inl whole ↦
                          let (low, high, more) = whole_parts a b x.timestamp z only whole in
                          let sum : add64 deleted (suc n) ≡ deleted + suc n =
                            omega
                              (arith, h.total, h.small, length-append {0} (x ∷ xs) (flat segs)) in
                          rw
                            (
                              del_loop-going f d fuel a b s at deleted (some (k, p))
                                  (next f d size L D a b s pre es k p x xs segs at bound deleted
                                    kept fuel h rest)
                                  (drop_chunk f d s k p) k (add64 deleted (suc n))
                                  (del_entry-whole f d a b s deleted k p n x.timestamp z count first
                                    last starts ends whole),
                              sum,
                            )
                            (dropped f d size L D a b s pre es k p x xs segs bound deleted h.row
                              (del_loop f d fuel a b (drop_chunk f d s k p) (some k)
                                (deleted + suc n))
                              low high
                              (rest (drop_chunk f d s k p) pre (some k) (z + 1) (deleted + suc n)
                                kept
                                (drop_on f d size L D a b s pre es k p x xs segs at bound deleted
                                  kept h
                                  (others f d size L D a b s pre es k p x xs segs at bound deleted
                                    kept h more))))
                      | inr part ↦
                          let g = L.del_range-Deleted c (x ∷ xs) a b held h.row.3.1 in
                          by_left g (outside a b (x ∷ xs)) refl part (
                            del_entry-part f d a b s deleted k p n x.timestamp z count first last
                              starts ends part)
                    ]
              ]
        ]
      where
        by_left :
            (g : Deleted L.Holds (x ∷ xs) a b (f.del_range (s.memory p) a b)) (ys : List Sample)
            → outside a b (x ∷ xs) ≡ ys
            → (leb a x.timestamp
                && leb (last_sample x xs).timestamp b
                && not (add64 (suc (length xs)) deleted == s.total_samples))
              ≡ false
            → del_entry f d a b s deleted (some (k, p)) ≡ purge_chunk f d a b s k p deleted
            → Outcome f d size L D a b s pre es k p x xs segs at bound deleted kept fuel h rest
                (del_loop f d (suc fuel) a b s at deleted)
        by_left g [] e part step =
            let covered = outside_some a b x xs e in
            let only : add64 (suc (length xs)) deleted ≡ s.total_samples =
              (==_iff (add64 (suc (length xs)) deleted) s.total_samples).0 (
                part_only a b x.timestamp (last_sample x xs).timestamp
                  (add64 (suc (length xs)) deleted == s.total_samples) covered.0 covered.1 part) in
            let all = length-append {0} (x ∷ xs) (flat segs) in
            left_none f d size L D a b s pre es k p x xs segs at bound deleted kept fuel h rest
              g.count g.chunk g.returned step e (subst (L.Holds g.chunk) e g.left)
              (omega (arith, g.all, ap length e)) (omega (arith, only, h.total, h.small, all))
              (length_nil (flat segs) (omega (arith, only, h.total, h.small, all))) fuelled
        by_left g (y ∷ ys) e part step =
            left_some f d size L D a b s pre es k p x xs segs at bound deleted kept fuel h rest
              g.count g.chunk g.returned step y ys e (subst (L.Holds g.chunk) e g.left)
              (omega (arith, g.all, ap length e))

  pub del_loop-Purged :
      (fuel : ℕ) (es : List (ℕ × ℕ)) (segs : List (List Sample))
      → length es < fuel
      → Rest f d size L D a b fuel es segs
  del_loop-Purged zero es segs enough s pre at bound deleted kept h = absurd (omega arith)
  del_loop-Purged (suc fuel) [] [] enough s pre at bound deleted kept h = record {
    final = s;
    gone = deleted;
    post = [];
    kept = [];
    returned =
        del_loop-end f d (suc fuel) a b s at deleted (omega arith)
          (next_entry f d size L D a b s pre [] [] at bound deleted kept h);
    shape = refl;
    entries_final = h.entries_now;
    row = inl tt;
    samples = refl;
    counted = refl;
    same = λ q e. refl;
    apart = λ q e. e;
    last_is = h.last_is;
  }
  del_loop-Purged (suc fuel) [] (xs ∷ segs) enough s pre at bound deleted kept h = absurd h.row
  del_loop-Purged (suc fuel) (e ∷ es) [] enough s pre at bound deleted kept h = absurd h.row
  del_loop-Purged (suc fuel) (e ∷ es) ([] ∷ segs) enough s pre at bound deleted kept h =
      absurd h.row
  del_loop-Purged (suc fuel) (e ∷ es) ((x ∷ xs) ∷ segs) enough s pre at bound deleted kept h =
      round s pre es e.0 e.1 x xs segs at bound deleted kept fuel h
        (del_loop-Purged fuel es segs (omega arith)) (omega arith)
