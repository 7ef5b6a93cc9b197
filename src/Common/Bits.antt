-- ===== src/Common/Bits.antt =====
-- `|`, `&` and `^` on binary digits, as arithmetic: an equation for the lowest digit, then the laws
-- of fields and masks of any width.
use Prim.Native.Nat.{ℕ, zero, suc, ◌+◌, ◌-◌, ◌*◌, ◌/◌, ◌%◌, ◌^◌, ◌≤◌, ◌<◌, min, max, differ}
use Prim.Native.Nat.{digits, bit_and, bit_or, bit_xor}
use Prim.Native.Nat.{bit_and-bitwise, bit_or-bitwise, bit_xor-bitwise}
use mathlib.Core.Path.{◌≡◌, refl, ap}
use native.Mathlib.Nat.{pow-suc, pow-succ', div-div-eq-div-mul}
use redis_time_series.Common.Powers.{mod-mul, pow_pos}
use native.Mathlib.Omega.{arith}

-- Any count of digits that covers the first number gives the same result.
digits_any :
    (z : ℕ → ℕ) (f : ℕ → ℕ → ℕ) (n m a b : ℕ) → a ≤ n → a ≤ m → digits z f n a b ≡ digits z f m a b
digits_any z f n m zero b p q = ended n m
  where
    ended : (n m : ℕ) → digits z f n zero b ≡ digits z f m zero b
    ended zero zero = refl
    ended zero (suc m) = refl
    ended (suc n) zero = refl
    ended (suc n) (suc m) = refl
digits_any z f zero m (suc a) b p q = absurd (omega arith)
digits_any z f (suc n) zero (suc a) b p q = absurd (omega arith)
digits_any z f (suc n) (suc m) (suc a) b p q =
    ap (λ t. t * 2 + f (suc a % 2) (b % 2))
      (digits_any z f n m (suc a / 2) (b / 2) (omega arith) (omega arith))

pub or_step : (a b : ℕ) → bit_or a b ≡ bit_or (a / 2) (b / 2) * 2 + max (a % 2) (b % 2)
or_step zero b = simp bit_or-bitwise (omega arith)
or_step (suc a) b = simp bit_or-bitwise (
    ap (λ t. t * 2 + max (suc a % 2) (b % 2))
      (digits_any (λ y. y) max a (suc a / 2) (suc a / 2) (b / 2) (omega arith) (omega arith)))

pub and_step : (a b : ℕ) → bit_and a b ≡ bit_and (a / 2) (b / 2) * 2 + min (a % 2) (b % 2)
and_step zero b = simp bit_and-bitwise (omega arith)
and_step (suc a) b = simp bit_and-bitwise (
    ap (λ t. t * 2 + min (suc a % 2) (b % 2))
      (digits_any (λ y. 0) min a (suc a / 2) (suc a / 2) (b / 2) (omega arith) (omega arith)))

pub xor_step : (a b : ℕ) → bit_xor a b ≡ bit_xor (a / 2) (b / 2) * 2 + differ (a % 2) (b % 2)
xor_step zero b = simp bit_xor-bitwise (omega arith)
xor_step (suc a) b = simp bit_xor-bitwise (
    ap (λ t. t * 2 + differ (suc a % 2) (b % 2))
      (digits_any (λ y. y) differ a (suc a / 2) (suc a / 2) (b / 2) (omega arith) (omega arith)))

pub zero-or : (b : ℕ) → bit_or 0 b ≡ b
zero-or b = bit_or-bitwise 0 b

zero-and : (b : ℕ) → bit_and 0 b ≡ 0
zero-and b = bit_and-bitwise 0 b

and_zero_fuel : (n a : ℕ) → a ≤ n → bit_and a 0 ≡ 0
and_zero_fuel n zero h = refl
and_zero_fuel zero (suc a) h = absurd (omega arith)
and_zero_fuel (suc n) (suc a) h =
    omega (arith, and_step (suc a) 0, and_zero_fuel n (suc a / 2) (omega arith))

pub and-zero : (a : ℕ) → bit_and a 0 ≡ 0
and-zero a = and_zero_fuel a a (omega arith)

double : (d k : ℕ) → d * 2 ^ suc k ≡ 2 * (d * 2 ^ k)
double d k = omega (arith, ap (λ (t : ℕ). d * t) (pow-suc 2 k))

-- A field that is put above a number of `k` bits is added to it.
pub or_above : (k x d : ℕ) → x < 2 ^ k → bit_or x (d * 2 ^ k) ≡ x + d * 2 ^ k
or_above zero zero d h = omega (arith, zero-or (d * 2 ^ 0))
or_above zero (suc x) d h = absurd (omega arith)
or_above (suc k) x d h = ground (
  arith,
  or_step x (d * 2 ^ suc k),
  double d k,
  pow-suc 2 k,
  or_above k (x / 2) d (omega (arith, pow-suc 2 k)),
)

-- A mask of `k` low ones takes the remainder.
pub and_mask : (k a : ℕ) → bit_and a (2 ^ k - 1) ≡ a % 2 ^ k
and_mask zero a = omega (arith, and-zero a)
and_mask (suc k) a =
    rw (pow-succ' 2 k, mod-mul a 2 (2 ^ k), and_step a (2 * 2 ^ k - 1), halved, and_mask k (a / 2))
      (omega (arith, pow_pos k))
  where
    halved : (2 * 2 ^ k - 1) / 2 ≡ 2 ^ k - 1
    halved = omega (arith, pow_pos k)

-- A test of one bit.
pub and_bit : (k a : ℕ) → bit_and a (2 ^ k) ≡ a / 2 ^ k % 2 * 2 ^ k
and_bit zero a = omega (arith, and_step a 1, and-zero (a / 2))
and_bit (suc k) a =
    rw
      (
        pow-succ' 2 k,
        and_step a (2 * 2 ^ k),
        halved,
        and_bit k (a / 2),
        ← div-div-eq-div-mul a 2 (2 ^ k),
      )
      (omega arith)
  where
    halved : 2 * 2 ^ k / 2 ≡ 2 ^ k
    halved = omega arith
