-- ===== src/BucketStart.antt =====
-- Where the bucket of a timestamp starts (`CalcBucketStart`, `BucketStartNormalize`, src/tsdb.h).
mod Tests
use native.Mathlib.Nat.{add-mul-mod_self_left, div-add-mod, mod-lt, mod-eq_of_lt, mod_self}
use redis_time_series.Common.{
  ℕ, zero, suc, ◌+◌, ◌-◌, ◌*◌, ◌/◌, ◌%◌, ◌^◌, ◌≤◌, ◌<◌, ◌≡◌, ◌⊎◌, inl, inr, refl, sym, ap, ◌∙◌,
  Bool, true, false, ltb, if◌then◌else◌, Bool-cases, ltb→lt, ltb→le, lt→ltb, ◌==◌, ==_iff, ne→==,
  le→ltb, add64, sub64, arith,
}

-- The word is not negative as an int64_t.
abbrev pub is_positive : ℕ → Bool
is_positive x = ltb x (2 ^ 63)

abbrev pub magnitude : ℕ → ℕ
magnitude x = if is_positive x then x else 2 ^ 64 - x

-- `x % n` on int64_t: the remainder has the sign of `x`.
unfoldable pub remainder : ℕ → ℕ → ℕ
remainder x n = let r = magnitude x % magnitude n in if is_positive x then r else sub64 0 r

unfoldable pub modulo : ℕ → ℕ → ℕ
modulo x n = remainder (add64 (remainder x n) n) n

unfoldable pub calc_bucket_start : ℕ → ℕ → ℕ → ℕ
calc_bucket_start ts bucket_duration timestamp_alignment =
    sub64 ts (modulo (sub64 ts timestamp_alignment) bucket_duration)

unfoldable pub bucket_start_normalize : ℕ → ℕ
bucket_start_normalize bucket_ts = if is_positive bucket_ts then bucket_ts else 0

-- The start of the bucket: `before` is how far the timestamp is into it.
pub record BucketStart (ts n alignment start : ℕ) : Type 0 where
  pub before : ℕ
  pub in_bucket : before < n
  pub aligned : (alignment + before) % n ≡ ts % n
  pub start_is : start ≡ ts - before

small_mod : (r n : ℕ) → r < n → r % n ≡ r
small_mod r n h = mod-eq_of_lt h

remainder-positive : (x n : ℕ) → x < 2 ^ 63 → n < 2 ^ 63 → remainder x n ≡ x % n
unfolding remainder
remainder-positive x n h g = rw (lt→ltb x (2 ^ 63) h, lt→ltb n (2 ^ 63) g) refl

remainder-negative :
    (y n : ℕ) → 0 < y → y ≤ 2 ^ 63 → n < 2 ^ 63 → remainder (2 ^ 64 - y) n ≡ sub64 0 (y % n)
unfolding remainder
remainder-negative y n pos h g =
    rw (le→ltb (2 ^ 64 - y) (2 ^ 63) (omega arith), lt→ltb n (2 ^ 63) g, back y (omega arith)) refl
  where
    back : (y : ℕ) → y ≤ 2 ^ 64 → 2 ^ 64 - (2 ^ 64 - y) ≡ y
    back y h = omega arith

-- The C idiom for a remainder that is not negative, on a number that is not.
modulo-positive : (x n : ℕ) → x < 2 ^ 63 → 0 < n → n ≤ 2 ^ 62 → modulo x n ≡ x % n
unfolding modulo
modulo-positive x n h pos le =
    let r = mod-lt x pos in
    let sum : add64 (x % n) n ≡ x % n + n * 1 = omega (arith, r, le) in
    rw
      (
        remainder-positive x n h (omega arith),
        sum,
        remainder-positive (x % n + n * 1) n (omega (arith, r, le)) (omega arith),
        add-mul-mod_self_left (x % n) n 1,
      )
      (small_mod (x % n) n r)

-- On a negative one.
modulo-negative :
    (y n : ℕ) → 0 < y → y ≤ 2 ^ 63 → 0 < n → n ≤ 2 ^ 62 → modulo (2 ^ 64 - y) n ≡ (n - y % n) % n
unfolding modulo
modulo-negative y n pos h npos le =
    let r = mod-lt y npos in
    let sum : add64 (sub64 0 (y % n)) n ≡ n - y % n = omega (arith, r, le) in
    rw (remainder-negative y n pos h (omega arith), sum)
      (remainder-positive (n - y % n) n (omega arith) (omega arith))

-- Adding a multiple does not matter.
same_rest : (t k n x : ℕ) → x ≡ t + n * k → x % n ≡ t % n
same_rest t k n x e = ap (λ z. z % n) e ∙ add-mul-mod_self_left t n k

normalized : (ts m : ℕ) → ts < 2 ^ 63 → m < 2 ^ 62 → bucket_start_normalize (sub64 ts m) ≡ ts - m
unfolding bucket_start_normalize
normalized ts m h g = elim (Bool-cases (ltb ts m)) [
  | inl less ↦
      let lt = ltb→lt ts m less in
      rw (le→ltb (sub64 ts m) (2 ^ 63) (omega (arith, lt, h, g))) (omega (arith, lt))
  | inr more ↦
      let le = ltb→le ts m more in
      let e : sub64 ts m ≡ ts - m = omega (arith, le, h) in
      rw (e, lt→ltb (ts - m) (2 ^ 63) (omega (arith, h))) refl
]

-- The bucket of a timestamp that is not before the alignment.
later_aligned : (ts n a : ℕ) → a ≤ ts → (a + (ts - a) % n) % n ≡ ts % n
later_aligned ts n a le =
    sym
      (same_rest (a + (ts - a) % n) ((ts - a) / n) n ts (omega (arith, le, div-add-mod (ts - a) n)))

split_product : (n q : ℕ) → n * (q + 1) ≡ n * q + n
split_product n q = grind arith

rest_of_none : (n r : ℕ) → r ≡ 0 → (n - r) % n ≡ 0
rest_of_none n r z = let e : n - r ≡ n = omega (arith, z) in rw e (mod_self n)

split : (ts n a q r : ℕ) → r < n → n * q + r ≡ a - ts → ts < a → a + (n - r) ≡ ts + n * (q + 1)
split ts n a q r h e lt = omega (arith, h, e, lt, split_product n q)

earlier_aligned : (ts n a : ℕ) → 0 < n → ts < a → (a + (n - (a - ts) % n) % n) % n ≡ ts % n
earlier_aligned ts n a pos lt =
    let q = (a - ts) / n in
    let r = mod-lt (a - ts) pos in
    let parts = div-add-mod (a - ts) n in
    elim (Bool-cases ((a - ts) % n == 0)) [
      | inl whole ↦
          let z = (==_iff ((a - ts) % n) 0).0 whole in
          let e : (n - (a - ts) % n) % n ≡ 0 = rest_of_none n ((a - ts) % n) z in
          rw e (same_rest ts q n (a + 0) (omega (arith, z, parts, lt)))
      | inr rest ↦
          let ne : 0 < (a - ts) % n = ground (arith, rest) in
          rw (small_mod (n - (a - ts) % n) n (omega (arith, ne, r))) (
            same_rest ts (q + 1) n (a + (n - (a - ts) % n))
              (split ts n a q ((a - ts) % n) r parts lt))
    ]

-- For a timestamp and an alignment below 2 ^ 63, and a duration from 1 to 2 ^ 62: the bucket starts
-- less than its duration before the timestamp, at a whole number of durations from the alignment; a
-- bucket that would start before 0 starts at 0.
pub calc_bucket_start-BucketStart :
    (ts n alignment : ℕ)
    → ts < 2 ^ 63
    → alignment < 2 ^ 63
    → 0 < n
    → n ≤ 2 ^ 62
    → BucketStart ts n alignment (bucket_start_normalize (calc_bucket_start ts n alignment))
unfolding calc_bucket_start
calc_bucket_start-BucketStart ts n alignment h g pos le = elim (Bool-cases (ltb ts alignment)) [
  | inl less ↦
      let lt = ltb→lt ts alignment less in
      let e : sub64 ts alignment ≡ 2 ^ 64 - (alignment - ts) = omega (arith, lt, h, g) in
      let m = (n - (alignment - ts) % n) % n in
      let same = modulo-negative (alignment - ts) n (omega (arith, lt)) (omega (arith, g)) pos le in
      let in_bucket = mod-lt (n - (alignment - ts) % n) pos in
      record {
        before = m;
        in_bucket = in_bucket;
        aligned = earlier_aligned ts n alignment pos lt;
        start_is = rw (e, same) (normalized ts m h (omega (arith, in_bucket, le)));
      }
  | inr more ↦
      let ge = ltb→le ts alignment more in
      let e : sub64 ts alignment ≡ ts - alignment = omega (arith, ge, h) in
      let m = (ts - alignment) % n in
      let in_bucket = mod-lt (ts - alignment) pos in
      record {
        before = m;
        in_bucket = in_bucket;
        aligned = later_aligned ts n alignment ge;
        start_is =
            rw (e, modulo-positive (ts - alignment) n (omega (arith, h)) pos le)
              (normalized ts m h (omega (arith, in_bucket, le)));
      }
]
