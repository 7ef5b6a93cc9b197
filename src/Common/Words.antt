-- ===== src/Common/Words.antt =====
-- Machine words as native numbers: casts, subtraction, signed order, and the compiler's counts of
-- leading and trailing zeros.
use Prim.Native.Nat.{ℕ, zero, suc, ◌+◌, ◌-◌, ◌/◌, ◌%◌, ◌^◌, ◌≤◌, ◌<◌}
use mathlib.Core.Path.{◌≡◌}
use mathlib.Core.Logic.{◌≢◌, inl, inr}
use mathlib.Core.Bool.{Bool}
use native.Mathlib.Nat.{pow-suc, pow-succ'}
use native.Mathlib.Omega.{arith}
use redis_time_series.Common.Tests.{leb, ◌==◌, if◌then◌else◌, Bool-cases, ==_iff}
use redis_time_series.Common.Powers.{mod-mul}

abbrev pub u64 : ℕ → ℕ
u64 n = n % 2 ^ 64

abbrev pub u32 : ℕ → ℕ
u32 n = n % 2 ^ 32

abbrev pub u8 : ℕ → ℕ
u8 n = n % 2 ^ 8

-- a - b on 64-bit words: 2 ^ 64 is added first since `-` stops at 0.
abbrev pub sub64 : ℕ → ℕ → ℕ
sub64 a b = (a + 2 ^ 64 - b) % 2 ^ 64

abbrev pub add64 : ℕ → ℕ → ℕ
add64 a b = (a + b) % 2 ^ 64

-- `a <= b` on two words read as `int64_t`: both are moved up by 2 ^ 63.
abbrev pub signed_leb : ℕ → ℕ → Bool
signed_leb a b = leb (u64 (a + 2 ^ 63)) (u64 (b + 2 ^ 63))

-- The number of digits of `x` up to its highest one, and that of the zeros below its lowest one,
-- among its first `n` digits.
bit_length : ℕ → ℕ → ℕ
bit_length zero x = 0
bit_length (suc n) x = let rest = suc (bit_length n (x / 2)) in if x == 0 then 0 else rest

low_zeros : ℕ → ℕ → ℕ
low_zeros zero x = 0
low_zeros (suc n) x = let rest = suc (low_zeros n (x / 2)) in if x % 2 == 0 then rest else 0

-- `__builtin_clzll` and `__builtin_ctzll`, which the source calls at `x != 0` only.
unfoldable pub leading_zeros64 : ℕ → ℕ
unfolding bit_length
leading_zeros64 x = 64 - bit_length 64 x

unfoldable pub trailing_zeros64 : ℕ → ℕ
unfolding low_zeros
trailing_zeros64 x = low_zeros 64 x

bit_length-le : (n x : ℕ) → bit_length n x ≤ n
unfolding bit_length
bit_length-le zero x = omega arith
bit_length-le (suc n) x = ground (arith, bit_length-le n (x / 2))

lt-bit_length : (n x : ℕ) → x < 2 ^ n → x < 2 ^ bit_length n x
unfolding bit_length
lt-bit_length zero x h = h
lt-bit_length (suc n) x h = elim (Bool-cases (x == 0)) [
  | inl e ↦ rw e (omega (arith, (==_iff x 0).0 e))
  | inr e ↦ rw e (
      omega (
        arith,
        pow-suc 2 n,
        pow-suc 2 (bit_length n (x / 2)),
        lt-bit_length n (x / 2) (omega (arith, pow-suc 2 n)),
      ))
]

low_zeros-lt : (n x : ℕ) → x < 2 ^ n → x ≢ 0 → low_zeros n x < bit_length n x
unfolding bit_length low_zeros
low_zeros-lt zero x h p = absurd (omega arith)
low_zeros-lt (suc n) x h p = ground (arith, pow-suc 2 n, low_zeros-lt n (x / 2))

low_zeros-mod : (n x : ℕ) → x % 2 ^ low_zeros n x ≡ 0
unfolding low_zeros
low_zeros-mod zero x = omega arith
low_zeros-mod (suc n) x = elim (Bool-cases (x % 2 == 0)) [
  | inl e ↦
      rw (e, pow-succ' 2 (low_zeros n (x / 2)), mod-mul x 2 (2 ^ low_zeros n (x / 2)))
        (omega (arith, (==_iff (x % 2) 0).0 e, low_zeros-mod n (x / 2)))
  | inr e ↦ rw e (omega arith)
]

module _ {x : ℕ} (word : x < 2 ^ 64) where
  pub leading-add-trailing : x ≢ 0 → leading_zeros64 x + trailing_zeros64 x < 64
  unfolding leading_zeros64 trailing_zeros64
  leading-add-trailing p = omega (arith, low_zeros-lt 64 x word p, bit_length-le 64 x)

  pub lt-leading_zeros64 : x < 2 ^ (64 - leading_zeros64 x)
  unfolding leading_zeros64
  lt-leading_zeros64 = rw cancelled (lt-bit_length 64 x word)
    where
      cancelled : 64 - (64 - bit_length 64 x) ≡ bit_length 64 x
      cancelled = omega (arith, bit_length-le 64 x)

pub mod-trailing_zeros64 : (x : ℕ) → x % 2 ^ trailing_zeros64 x ≡ 0
unfolding trailing_zeros64
mod-trailing_zeros64 x = low_zeros-mod 64 x
