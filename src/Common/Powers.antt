-- ===== src/Common/Powers.antt =====
-- Powers of two, and the division laws by which a field is cut out of a number.
use Prim.Native.Nat.{ℕ, zero, suc, ◌+◌, ◌-◌, ◌*◌, ◌/◌, ◌%◌, ◌^◌, ◌≤◌, ◌<◌}
use mathlib.Core.Path.{◌≡◌, ap, ◌∙◌, sym}
use native.Mathlib.Nat.{div-lt_iff_lt-mul, mul-mod_left, mul-div_cancel}
use native.Mathlib.Nat.{pow-suc, one-le-pow, div-div-eq-div-mul, pow-le-pow_right}
use native.Mathlib.Nat.{div-add-mod, mod-add-div, mod-lt, add-mul-div_left, add-mul-mod_self_left}
use native.Mathlib.Nat.{div-eq_of_lt, mod-eq_of_lt, add-suc, add-zero, mul-one, mul_assoc}
use native.Mathlib.Omega.{arith}

pub pow-add : (a b : ℕ) → 2 ^ (a + b) ≡ 2 ^ a * 2 ^ b
pow-add a zero = rw add-zero (sym (mul-one (2 ^ a)))
pow-add a (suc b) = rw (add-suc, pow-suc, pow-suc, pow-add a b) (mul_assoc _ _ _)

pub pow_pos : (k : ℕ) → 0 < 2 ^ k
pow_pos k = one-le-pow k 2 (omega arith)

pub pow_mono : (a b : ℕ) → a ≤ b → 2 ^ a ≤ 2 ^ b
pow_mono a b h = pow-le-pow_right (omega arith) h

-- A power split at a field boundary.
pub pow_split : (a b c : ℕ) → a + b ≡ c → 2 ^ c ≡ 2 ^ a * 2 ^ b
pow_split a b c e = rw (← e) (pow-add a b)

pub div-div_pow : (x a b : ℕ) → x / 2 ^ a / 2 ^ b ≡ x / 2 ^ (a + b)
div-div_pow x a b = div-div-eq-div-mul x (2 ^ a) (2 ^ b) ∙ ap (λ t. x / t) (sym (pow-add a b))

-- The remainder by a product, digit by digit.
pub mod-mul : (x a b : ℕ) → x % (a * b) ≡ x % a + a * (x / a % b)
mod-mul x a b = omega (
  arith,
  mod-add-div x (a * b),
  ap (λ t. a * b * t) (div-div-eq-div-mul x a b),
  div-add-mod x a,
  ap (λ t. a * t) (div-add-mod (x / a) b),
)

-- A number below `a` and a multiple of `a`.
pub add-mul-div : (a lo hi : ℕ) → lo < a → (lo + a * hi) / a ≡ hi
add-mul-div a lo hi h = add-mul-div_left lo hi (omega arith) ∙ omega (arith, div-eq_of_lt h)

pub add-mul-mod : (a lo hi : ℕ) → lo < a → (lo + a * hi) % a ≡ lo
add-mul-mod a lo hi h = add-mul-mod_self_left lo a hi ∙ mod-eq_of_lt h

-- A field of the low part is a field of the whole.
pub mod-mul-div : (x a b : ℕ) → 0 < a → x % (a * b) / a ≡ x / a % b
mod-mul-div x a b ha = rw (mod-mul x a b) (add-mul-div a (x % a) (x / a % b) (mod-lt x ha))

pub mod-mul-mod : (x a b : ℕ) → 0 < a → x % (a * b) % a ≡ x % a
mod-mul-mod x a b ha = rw (mod-mul x a b) (add-mul-mod a (x % a) (x / a % b) (mod-lt x ha))

-- A field of `m` bits above `k` bits fits in `w` bits.
pub field-lt : (k m w x d : ℕ) → x < 2 ^ k → d < 2 ^ m → k + m ≤ w → x + d * 2 ^ k < 2 ^ w
field-lt k m w x d hx hd fits =
    omega (arith, pow_mono (k + m) w fits, pow-add k m, grown (2 ^ m) hd)
  where
    grown : (t : ℕ) → d < t → d * 2 ^ k + 2 ^ k ≤ 2 ^ k * t
    grown t h = grind arith

-- The high part of a number of `k + m` bits.
pub div_pow-lt : (k m x : ℕ) → x < 2 ^ (k + m) → x / 2 ^ k < 2 ^ m
div_pow-lt k m x h = (div-lt_iff_lt-mul (pow_pos k)).1 (omega (arith, pow-add k m))

-- What a left shift keeps of a number.
pub mul-mod-mul : (x a b : ℕ) → 0 < a → x * a % (a * b) ≡ x % b * a
mul-mod-mul x a b ha = omega (
  arith,
  mod-mul (x * a) a b,
  mul-mod_left x a,
  mul-div_cancel x ha,
  ap (λ t. a * (t % b)) (mul-div_cancel x ha),
)

-- Cutting a word off does not touch a field inside it.
pub mod-div-mod : (n w l len : ℕ) → l + len ≤ w → n % 2 ^ w / 2 ^ l % 2 ^ len ≡ n / 2 ^ l % 2 ^ len
mod-div-mod n w l len h =
    rw (pow_split l (w - l) w (omega arith), mod-mul-div n (2 ^ l) (2 ^ (w - l)) (pow_pos l))
      (rw (pow_split len (w - l - len) (w - l) (omega arith))
        (mod-mul-mod (n / 2 ^ l) (2 ^ len) (2 ^ (w - l - len)) (pow_pos len)))

pub mod_pow-mod : (n w len : ℕ) → len ≤ w → n % 2 ^ w % 2 ^ len ≡ n % 2 ^ len
mod_pow-mod n w len h =
    rw (pow_split len (w - len) w (omega arith))
      (mod-mul-mod n (2 ^ len) (2 ^ (w - len)) (pow_pos len))
