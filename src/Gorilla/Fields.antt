-- ===== src/Gorilla/Fields.antt =====
-- Two fields that were appended one after the other, found again in any longer stream.
use native.Mathlib.Nat.{mod-eq_of_lt}
use redis_time_series.Common.{ℕ, ◌+◌, ◌*◌, ◌/◌, ◌%◌, ◌^◌, ◌≡◌, ap, ◌∙◌, sym, List, arith}
use redis_time_series.Common.{mod_pow-mod, mod-div-mod, add-mul-mod, add-mul-div, div-div_pow}
use redis_time_series.Gorilla.Stream.{stream}
use redis_time_series.Gorilla.Packed.{IsPacked, Added, Added-trans}

-- The array of a longer stream: its two fields past `idx`.
module _ (bins : List ℕ) (b0 b1 b2 : List ℕ) (s0 s1 s2 i0 i1 i2 x m y n : ℕ) (p : IsPacked b0 s0 i0)
    (a : Added b0 s0 i0 x m b1 s1 i1) (b : Added b1 s1 i1 y n b2 s2 i2)
    (goes_on : stream bins % 2 ^ i2 ≡ stream b2) where
  both : Added b0 s0 i0 (x + 2 ^ m * y) (m + n) b2 s2 i2
  both = Added-trans a b

  pub before : stream bins % 2 ^ i0 ≡ stream b0
  before =
      sym (mod_pow-mod (stream bins) i2 i0 (omega (arith, a.idx_moved, b.idx_moved)))
      ∙ ap (λ t. t % 2 ^ i0) (goes_on ∙ both.stream_grown ∙ omega arith)
      ∙ add-mul-mod (2 ^ i0) (stream b0) (x + 2 ^ m * y) p.clean

  past : stream bins / 2 ^ i0 % 2 ^ (m + n) ≡ x + 2 ^ m * y
  past =
      sym (mod-div-mod (stream bins) i2 i0 (m + n) (omega (arith, both.idx_moved)))
      ∙ ap (λ t. t / 2 ^ i0 % 2 ^ (m + n)) (goes_on ∙ both.stream_grown ∙ omega arith)
      ∙ ap (λ t. t % 2 ^ (m + n)) (add-mul-div (2 ^ i0) (stream b0) (x + 2 ^ m * y) p.clean)
      ∙ mod-eq_of_lt both.code_lt

  pub first_field : stream bins / 2 ^ i0 % 2 ^ m ≡ x
  first_field =
      sym (mod_pow-mod (stream bins / 2 ^ i0) (m + n) m (omega arith))
      ∙ ap (λ t. t % 2 ^ m) past
      ∙ add-mul-mod (2 ^ m) x y a.code_lt

  pub second_field : stream bins / 2 ^ (i0 + m) % 2 ^ n ≡ y
  second_field =
      ap (λ t. t % 2 ^ n) (sym (div-div_pow (stream bins) i0 m))
      ∙ sym (mod-div-mod (stream bins / 2 ^ i0) (m + n) m n (omega arith))
      ∙ ap (λ t. t / 2 ^ m % 2 ^ n) past
      ∙ ap (λ t. t % 2 ^ n) (add-mul-div (2 ^ m) x y a.code_lt)
      ∙ mod-eq_of_lt b.code_lt
