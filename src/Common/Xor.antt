-- ===== src/Common/Xor.antt =====
-- `^` undoes itself, stays within a width, and is zero at equal numbers alone.
use Prim.Native.Nat.{ℕ, zero, suc, ◌+◌, ◌/◌, ◌%◌, ◌^◌, ◌≤◌, ◌<◌, differ, bit_xor}
use Prim.Native.Nat.{bit_xor-bitwise}
use mathlib.Core.Path.{◌≡◌, refl, ap, ◌∙◌, sym}
use mathlib.Core.Logic.{◌⊎◌, inl, inr}
use native.Mathlib.Nat.{pow-suc}
use native.Mathlib.Omega.{arith}
use redis_time_series.Common.Bits.{xor_step}

pub zero-xor : (b : ℕ) → bit_xor 0 b ≡ b
zero-xor b = bit_xor-bitwise 0 b

-- The exclusive or of two digits is a digit, and undoes itself.
digit : (a : ℕ) → (a % 2 ≡ 0) ⊎ (a % 2 ≡ 1)
digit a = omega arith

differ_digits :
    (a b : ℕ) → (differ (a % 2) (b % 2) < 2) × (differ (differ (a % 2) (b % 2)) (b % 2) ≡ a % 2)
differ_digits a b = elim (digit a) [
  | inl p ↦ elim (digit b) [
    | inl q ↦ rw (p, q) (omega arith, refl)
    | inr q ↦ rw (p, q) (omega arith, refl)
  ]
  | inr p ↦ elim (digit b) [
    | inl q ↦ rw (p, q) (omega arith, refl)
    | inr q ↦ rw (p, q) (omega arith, refl)
  ]
]

-- One step of `a ^ b ^ b`.
xor_cancel_step :
    (a b : ℕ) → bit_xor (bit_xor (a / 2) (b / 2)) (b / 2) ≡ a / 2 → bit_xor (bit_xor a b) b ≡ a
xor_cancel_step a b ih =
    rw (xor_step (bit_xor a b) b, upper, lower, ih) (omega (arith, differ_digits a b))
  where
    upper : bit_xor a b / 2 ≡ bit_xor (a / 2) (b / 2)
    upper = omega (arith, xor_step a b, differ_digits a b)

    lower : bit_xor a b % 2 ≡ differ (a % 2) (b % 2)
    lower = omega (arith, xor_step a b, differ_digits a b)

xor_cancel_fuel : (n a b : ℕ) → a ≤ n → b ≤ n → bit_xor (bit_xor a b) b ≡ a
xor_cancel_fuel zero zero zero p q = refl
xor_cancel_fuel zero zero (suc b) p q = absurd (omega arith)
xor_cancel_fuel zero (suc a) b p q = absurd (omega arith)
xor_cancel_fuel (suc n) a b p q =
    xor_cancel_step a b (xor_cancel_fuel n (a / 2) (b / 2) (omega arith) (omega arith))

pub xor_cancel : (a b : ℕ) → bit_xor (bit_xor a b) b ≡ a
xor_cancel a b = xor_cancel_fuel (a + b) a b (omega arith) (omega arith)

pub xor-eq-zero : (a b : ℕ) → bit_xor a b ≡ 0 → a ≡ b
xor-eq-zero a b e = sym (xor_cancel a b) ∙ ap (λ t. bit_xor t b) e ∙ zero-xor b

pub xor-lt : (k a b : ℕ) → a < 2 ^ k → b < 2 ^ k → bit_xor a b < 2 ^ k
xor-lt zero zero zero p q = omega arith
xor-lt zero zero (suc b) p q = absurd (omega arith)
xor-lt zero (suc a) b p q = absurd (omega arith)
xor-lt (suc k) a b p q = omega (
  arith,
  xor_step a b,
  differ_digits a b,
  pow-suc 2 k,
  xor-lt k (a / 2) (b / 2) (omega (arith, pow-suc 2 k)) (omega (arith, pow-suc 2 k)),
)
