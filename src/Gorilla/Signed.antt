-- ===== src/Gorilla/Signed.antt =====
-- Two's complement in `l` bits: `int2bin`, `bin2int` and the range test.
use native.Mathlib.Nat.{mod-eq_of_lt, div-eq_of_lt, div-eq_of_lt-le, mul-add-mod_self_left, pow-suc}
use redis_time_series.Common.{
  ℕ, ◌+◌, ◌-◌, ◌*◌, ◌/◌, ◌%◌, ◌^◌, ◌≤◌, ◌<◌, ◌≡◌, ◌∙◌, ap, ◌⊎◌, inl, inr,
}
use redis_time_series.Common.{
  zero, suc, bit_and, true, false, arith, and_mask, and_bit, pow_split, pow_mono, pow_pos, sym,
  ne→==,
}
use redis_time_series.Common.{◌==◌, ==_iff}
use redis_time_series.Gorilla.Bins.{int2bin, bin2int, bin_in_range}

-- The words that `Bin_InRange` lets through: below `p`, or at most `p` below 2 ^ 64.
range_cases :
    (x l : ℕ)
    → x < 2 ^ 64
    → 0 < 2 ^ (l - 1)
    → 2 ^ (l - 1) ≤ 2 ^ 62
    → bin_in_range x l ≡ true
    → (x < 2 ^ (l - 1)) ⊎ (2 ^ 64 ≤ x + 2 ^ (l - 1))
unfolding bin_in_range
range_cases x l hx pos small e = ground arith

-- The sign bit of a number of `m + 1` bits.
sign_of_small : (m x : ℕ) → x < 2 ^ m → (bit_and x (2 ^ m) == 0) ≡ true
sign_of_small m x h =
    (==_iff _ 0).1 (omega (arith, and_bit m x, ap (λ (t : ℕ). t % 2 * 2 ^ m) (div-eq_of_lt h)))

sign_of_large : (m x : ℕ) → 2 ^ m ≤ x → x < 2 * 2 ^ m → (bit_and x (2 ^ m) == 0) ≡ false
sign_of_large m x lo hi =
    ne→== _ 0 (omega (arith, and_bit m x, pow_pos m, ap (λ (t : ℕ). t % 2 * 2 ^ m) one))
  where
    one : x / 2 ^ m ≡ 1
    one = div-eq_of_lt-le {k = 1} (2 ^ m) (omega arith) (omega arith)

-- The remainder of a number in the last `p` below a multiple of `p`.
top_mod : (p q x w : ℕ) → p * suc q ≡ w → x < w → w ≤ x + p → x % p ≡ x + p - w
top_mod p q x w e hx top =
    ap (λ t. t % p) (omega (arith, e))
    ∙ mul-add-mod_self_left p q (x + p - w)
    ∙ mod-eq_of_lt (omega arith)

-- The low `m + 1` bits of a small negative word.
negative_mod :
    (m x : ℕ)
    → m < 63
    → x < 2 ^ 64
    → 2 ^ 64 ≤ x + 2 ^ suc m
    → x % 2 ^ suc m ≡ x + 2 ^ suc m - 2 ^ 64
negative_mod m x small hx neg = top_mod (2 ^ suc m) (2 ^ (63 - m) - 1) x (2 ^ 64) split hx neg
  where
    split : 2 ^ suc m * suc (2 ^ (63 - m) - 1) ≡ 2 ^ 64
    split =
        ap (λ (t : ℕ). 2 ^ suc m * t) (omega (arith, pow_pos (63 - m)))
        ∙ sym (pow_split (suc m) (63 - m) 64 (omega arith))

-- In its range a number survives `int2bin` and `bin2int`, at every width.
pub bin2int-int2bin :
    (x l : ℕ) → x < 2 ^ 64 → 0 < l → l ≤ 63 → bin_in_range x l ≡ true → bin2int (int2bin x l) l ≡ x
unfolding bin2int int2bin
bin2int-int2bin x zero hx pos small e = absurd (omega arith)
bin2int-int2bin x (suc m) hx pos small e = elim cases [
  | inl lo ↦
      let kept : bit_and x (2 ^ suc m - 1) ≡ x =
        and_mask (suc m) x ∙ mod-eq_of_lt (omega (arith, pow-suc 2 m)) in
      rw (kept, sub-one_suc, sign_of_small m x lo)
  | inr hi ↦
      let kept : bit_and x (2 ^ suc m - 1) ≡ x + 2 ^ suc m - 2 ^ 64 =
        and_mask (suc m) x ∙ negative_mod m x (omega arith) hx (omega (arith, pow-suc 2 m)) in
      rw
        (
          kept,
          sub-one_suc,
          sign_of_large m (x + 2 ^ suc m - 2 ^ 64) (omega (arith, pow-suc 2 m))
              (omega (arith, pow-suc 2 m)),
        )
        (omega arith)
]
  where
    sub-one_suc : suc m - 1 ≡ m
    sub-one_suc = omega arith

    cases : (x < 2 ^ m) ⊎ (2 ^ 64 ≤ x + 2 ^ m)
    cases =
        rw sub-one_suc at
          (range_cases x (suc m) hx (pow_pos (suc m - 1)) (pow_mono (suc m - 1) 62 (omega arith)) e)
