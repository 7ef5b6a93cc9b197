-- ===== src/Gorilla/AppendDelta.antt =====
-- What `appendInteger` writes: a code that `readInteger` reads back as the double delta.
use native.Mathlib.Nat.{mod-lt}
use redis_time_series.Common.{ℕ, ◌+◌, ◌*◌, ◌^◌, ◌≤◌, ◌<◌, ◌≡◌, refl, inl, inr, Bool-cases, arith}
use redis_time_series.Common.{
  leb→le, leb→lt, leb, ==_iff, ◌==◌, if_both, pow_pos, and_mask, sub64, true,
}
use redis_time_series.Generic.{cr_ok, cr_err, cr_end}
use redis_time_series.Gorilla.{CompressedChunk}
use redis_time_series.Gorilla.Bins.{int2bin, bin2int, bin_in_range}
use redis_time_series.Gorilla.Append.{Outcome, put, checkspace, set_delta, append_integer}
use redis_time_series.Gorilla.Signed.{bin2int-int2bin}
use redis_time_series.Gorilla.Packed.{
  Packed, Extends, put-Extends, Added-trans, is_space_available_lem,
}
use redis_time_series.Gorilla.ReadDelta.{
  ReadsDelta, reads_zero, reads_l1, reads_l2, reads_l3, reads_l4, reads_l5, reads_word,
}

-- `c'` is `c` with a readable code of `dd` added, and the timestamps that follow from `ts`. The
-- room that is left is enough for the shortest value.
pub record DeltaAdded (c : CompressedChunk) (dd cur ts : ℕ) (c' : CompressedChunk) : Type 0 where
  pub code : ℕ
  pub width : ℕ
  pub extends : Extends c code width c'
  pub reads : ReadsDelta dd code width
  pub nonempty : 0 < width
  pub narrow : width ≤ 70
  pub one_more : c'.idx + 1 ≤ 8 * c'.size
  pub frame : c' ≡ set_delta cur ts (record c { bins = c'.bins; idx = c'.idx })

-- `appendInteger` fails only where 71 bits do not fit, and then does nothing.
abbrev pub DeltaOutcome : CompressedChunk → ℕ → ℕ → ℕ → Outcome → Type 0
DeltaOutcome c dd cur ts (cr_ok, c') = DeltaAdded c dd cur ts c'
DeltaOutcome c dd cur ts (cr_err, c') = (c' ≡ c) × (8 * c.size < c.idx + 71)
DeltaOutcome c dd cur ts (cr_end, c') = ⊥

module _ (c : CompressedChunk) (p : Packed c) (dd cur ts : ℕ) where
  zero_outcome :
      ReadsDelta dd 0 1
      → DeltaOutcome c dd cur ts (checkspace c 2 (cr_ok, set_delta cur ts (put c 0 1)))
  unfolding put
  zero_outcome reads = elim (Bool-cases (leb (c.idx + 2) (8 * c.size))) [
    | inl e ↦ rw (is_space_available_lem c 2 p, e) (ok (leb→le _ _ e))
    | inr e ↦ rw (is_space_available_lem c 2 p, e) (refl, omega (arith, leb→lt _ _ e))
  ]
    where
      ok : c.idx + 2 ≤ 8 * c.size → DeltaAdded c dd cur ts (set_delta cur ts (put c 0 1))
      ok h =
          let x = put-Extends c 0 1 p (omega arith) (omega arith) (omega arith) (omega arith) in
          record {
            code = 0;
            width = 1;
            extends = x;
            reads = reads;
            nonempty = omega arith;
            narrow = omega arith;
            one_more = omega (arith, x.idx_moved, x.same_size);
            frame = refl;
          }

  bucket_outcome :
      (tag m v l k : ℕ)
      → tag < 2 ^ m
      → v < 2 ^ l
      → 0 < m
      → m ≤ 6
      → 0 < l
      → l ≤ 64
      → m + l + 1 ≡ k
      → ReadsDelta dd (tag + 2 ^ m * v) (m + l)
      → DeltaOutcome c dd cur ts (checkspace c k (cr_ok, set_delta cur ts (put (put c tag m) v l)))
  unfolding put
  bucket_outcome tag m v l k ht hv pm sm pl sl ek reads =
      elim (Bool-cases (leb (c.idx + k) (8 * c.size))) [
        | inl e ↦ rw (is_space_available_lem c k p, e) (ok (leb→le _ _ e))
        | inr e ↦ rw (is_space_available_lem c k p, e) (refl, omega (arith, leb→lt _ _ e))
      ]
    where
      ok :
          c.idx + k ≤ 8 * c.size → DeltaAdded c dd cur ts (set_delta cur ts (put (put c tag m) v l))
      ok h =
          let x = put-Extends c tag m p ht pm (omega arith) (omega arith) in
          let y =
            put-Extends (put c tag m) v l x.packed hv pl sl
              (omega (arith, x.idx_moved, x.same_size)) in
          record {
            code = tag + 2 ^ m * v;
            width = m + l;
            extends = Added-trans x y;
            reads = reads;
            nonempty = omega arith;
            narrow = omega arith;
            one_more = omega (arith, x.idx_moved, x.same_size, y.idx_moved, y.same_size);
            frame = refl;
          }

  word_outcome :
      dd < 2 ^ 64
      → DeltaOutcome c dd cur ts
          (checkspace c 71 (cr_ok, set_delta cur ts (put (put c 63 6) dd 64)))
  word_outcome hd =
      bucket_outcome 63 6 dd 64 71 (omega arith) hd (omega arith) (omega arith) (omega arith)
        (omega arith) (omega arith) (reads_word dd hd)

int2bin-lt : (x l : ℕ) → int2bin x l < 2 ^ l
unfolding int2bin
int2bin-lt x l = rw (and_mask l x) (mod-lt x (pow_pos l))

-- The branch of a bucket: the tag of `m` bits, then `l` bits of the delta, which is in their range.
module _ (c : CompressedChunk) (p : Packed c) (dd cur ts : ℕ) (word : dd < 2 ^ 64) where
  range_outcome :
      (tag m l k : ℕ)
      → ((v : ℕ) → v < 2 ^ l → bin2int v l ≡ dd → ReadsDelta dd (tag + 2 ^ m * v) (m + l))
      → (tag < 2 ^ m) × (0 < m) × (m ≤ 6) × (0 < l) × (l ≤ 63) × (m + l + 1 ≡ k)
      → bin_in_range dd l ≡ true
      → DeltaOutcome c dd cur ts
          (checkspace c k (cr_ok, set_delta cur ts (put (put c tag m) (int2bin dd l) l)))
  range_outcome tag m l k reads (ht, pm, sm, pl, sl, ek) e =
      bucket_outcome c p dd cur ts tag m (int2bin dd l) l k ht (int2bin-lt dd l) pm sm pl
        (omega arith) ek
        (reads (int2bin dd l) (int2bin-lt dd l) (bin2int-int2bin dd l word pl sl e))

-- What each branch of `appendInteger` comes to.
pub append_integer-DeltaOutcome :
    (c : CompressedChunk) (ts : ℕ)
    → Packed c
    → let cur = sub64 ts c.prev_timestamp in
      DeltaOutcome c (sub64 cur c.prev_timestamp_delta) cur ts (append_integer c ts)
unfolding append_integer
append_integer-DeltaOutcome c ts p =
    if_both goal (dd == 0) (λ e. zero_outcome c p dd cur ts (rw ((==_iff dd 0).0 e) reads_zero))
      λ _. if_both goal (bin_in_range dd 5) (bucket 1 2 5 8 (reads_l1 dd) (omega arith)) λ _.
        if_both goal (bin_in_range dd 8) (bucket 3 3 8 12 (reads_l2 dd) (omega arith)) λ _.
          if_both goal (bin_in_range dd 11) (bucket 7 4 11 16 (reads_l3 dd) (omega arith)) λ _.
            if_both goal (bin_in_range dd 15) (bucket 15 5 15 21 (reads_l4 dd) (omega arith)) λ _.
              if_both goal (bin_in_range dd 32) (bucket 31 6 32 39 (reads_l5 dd) (omega arith))
                λ _. word_outcome c p dd cur ts word
  where
    cur : ℕ
    cur = sub64 ts c.prev_timestamp

    dd : ℕ
    dd = sub64 cur c.prev_timestamp_delta

    word : dd < 2 ^ 64
    word = omega arith

    goal : Outcome → Type 0
    goal = DeltaOutcome c dd cur ts

    bucket :
        (tag m l k : ℕ)
        → ((v : ℕ) → v < 2 ^ l → bin2int v l ≡ dd → ReadsDelta dd (tag + 2 ^ m * v) (m + l))
        → (tag < 2 ^ m) × (0 < m) × (m ≤ 6) × (0 < l) × (l ≤ 63) × (m + l + 1 ≡ k)
        → bin_in_range dd l ≡ true
        → goal (checkspace c k (cr_ok, set_delta cur ts (put (put c tag m) (int2bin dd l) l)))
    bucket = range_outcome c p dd cur ts word
