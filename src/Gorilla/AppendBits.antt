-- ===== src/Gorilla/AppendBits.antt =====
-- What `appendBits` does to the stream: a field is added just past its end.
use mathlib.Core.Path.{subst}
use native.Mathlib.Nat.{mod-lt, mod-eq_of_lt, div-add-mod}
use redis_time_series.Common.{ℕ, suc, ◌+◌, ◌-◌, ◌*◌, ◌/◌, ◌%◌, ◌^◌, ◌≤◌, ◌<◌, ◌≡◌, sym, ap, ◌∙◌}
use redis_time_series.Common.{List, inl, inr, Bool-cases, leb→le, leb→lt, arith, leb, u64}
use redis_time_series.Common.{length, get_or, length-set, get_or-set_ne, bit_or, and_mask, or_above}
use redis_time_series.Common.{
  pow-add, pow_pos, pow_mono, pow_split, field-lt, div_pow-lt, mul-mod-mul,
}
use redis_time_series.Gorilla.Bins.{append_bits, lsb, or_bin}
use redis_time_series.Gorilla.Stream.{stream, IsWords, stream-set, IsWords-set, get_or-lt}

-- The bins after a write: still words, as many, and `v` more at the stream's bit `b`.
pub record Grows (b v : ℕ) (ws ws' : List ℕ) : Type 0 where
  pub words : IsWords ws'
  pub same_length : length ws' ≡ length ws
  pub grown : stream ws' ≡ stream ws + v * 2 ^ b

-- A value that is put above the `l` bits in use of bin `i`.
or_bin-Grows :
    (ws : List ℕ) (i l m d : ℕ)
    → IsWords ws
    → i < length ws
    → get_or ws i 0 < 2 ^ l
    → d < 2 ^ m
    → l + m ≤ 64
    → Grows (64 * i + l) d ws (or_bin ws i (d * 2 ^ l))
or_bin-Grows ws i l m d h inside low hd fits = record {
  words = rw (or_above l (get_or ws i 0) d low) (
      IsWords-set ws i (get_or ws i 0 + d * 2 ^ l) h
        (field-lt l m 64 (get_or ws i 0) d low hd fits));
  same_length = length-set ws i (bit_or (get_or ws i 0) (d * 2 ^ l));
  grown =
      rw (or_above l (get_or ws i 0) d low, stream-set ws i (d * 2 ^ l) inside, pow-add (64 * i) l)
        (omega arith);
}

append_within :
    (ws : List ℕ) (i l d len : ℕ)
    → IsWords ws
    → i < length ws
    → get_or ws i 0 < 2 ^ l
    → d < 2 ^ len
    → l + len ≤ 64
    → Grows (64 * i + l) d ws (or_bin ws i (u64 (lsb d len * 2 ^ l)))
append_within ws i l d len h inside low hd fits =
    rw (and_mask len d, mod-eq_of_lt hd, kept) (or_bin-Grows ws i l len d h inside low hd fits)
  where
    kept : u64 (d * 2 ^ l) ≡ d * 2 ^ l
    kept = omega (arith, field-lt l len 64 0 d (pow_pos l) hd fits)

-- The low part of the value fills bin `i`, and the rest opens the empty bin after it.
append_across :
    (ws : List ℕ) (i l a d m : ℕ)
    → IsWords ws
    → suc i < length ws
    → stream ws < 2 ^ (64 * i + l)
    → l + a ≡ 64
    → m ≤ l
    → d < 2 ^ (a + m)
    → Grows (64 * i + l) d ws (or_bin (or_bin ws i (u64 (d * 2 ^ l))) (i + 1) (lsb (d / 2 ^ a) l))
append_across ws i l a d m h inside clean e fits hd =
    rw (low_part, high_part)
      (record {
        words = second.words;
        same_length = second.same_length ∙ first.same_length;
        grown = omega (
          arith,
          first.grown,
          second.grown,
          ap (λ (t : ℕ). d / 2 ^ a * t) (pow_split a (64 * i + l) (64 * (i + 1) + 0) (omega arith)),
          ap (λ (t : ℕ). t * 2 ^ (64 * i + l)) (div-add-mod d (2 ^ a)),
        );
      })
  where
    low_part : u64 (d * 2 ^ l) ≡ d % 2 ^ a * 2 ^ l
    low_part = rw (pow_split l a 64 e) (mul-mod-mul d (2 ^ l) (2 ^ a) (pow_pos l))

    high-lt : d / 2 ^ a < 2 ^ l
    high-lt = omega (arith, div_pow-lt a m d hd, pow_mono m l fits)

    high_part : lsb (d / 2 ^ a) l ≡ d / 2 ^ a * 2 ^ 0
    high_part = and_mask l (d / 2 ^ a) ∙ omega (arith, mod-eq_of_lt high-lt)

    first : Grows (64 * i + l) (d % 2 ^ a) ws (or_bin ws i (d % 2 ^ a * 2 ^ l))
    first =
        or_bin-Grows ws i l a (d % 2 ^ a) h (omega arith) (get_or-lt ws i l clean (omega arith))
          (mod-lt d (pow_pos a)) (omega arith)

    empty : get_or (or_bin ws i (d % 2 ^ a * 2 ^ l)) (i + 1) 0 < 2 ^ 0
    empty =
        rw (get_or-set_ne ws i (i + 1) (bit_or (get_or ws i 0) (d % 2 ^ a * 2 ^ l)) 0 (omega arith))
          (get_or-lt ws (i + 1) 0
            (omega (arith, clean, pow_mono (64 * i + l) (64 * (i + 1) + 0) (omega arith)))
            (omega arith))

    second :
        Grows
          (64 * (i + 1) + 0)
          (d / 2 ^ a)
          (or_bin ws i (d % 2 ^ a * 2 ^ l))
          (or_bin (or_bin ws i (d % 2 ^ a * 2 ^ l)) (i + 1) (d / 2 ^ a * 2 ^ 0))
    second =
        or_bin-Grows (or_bin ws i (d % 2 ^ a * 2 ^ l)) (i + 1) 0 l (d / 2 ^ a) first.words
          (omega (arith, first.same_length)) empty high-lt (omega arith)

-- `appendBits` at the end of the stream adds its value there, within one bin or across two.
pub append_bits-Grows :
    (ws : List ℕ) (b d len : ℕ)
    → IsWords ws
    → stream ws < 2 ^ b
    → d < 2 ^ len
    → 0 < len
    → len ≤ 64
    → b + len ≤ 64 * length ws
    → Grows b d ws (append_bits ws b d len)
unfolding append_bits
append_bits-Grows ws b d len h clean hd some_bits fits room =
    elim (Bool-cases (leb len (64 - b % 64))) [
      | inl e ↦ rw e (
          at_bit (
            append_within ws (b / 64) (b % 64) d len h (omega arith)
              (get_or-lt ws (b / 64) (b % 64) clean' (omega arith)) hd
              (omega (arith, leb→le _ _ e))))
      | inr e ↦ rw e (
          at_bit (
            append_across ws (b / 64) (b % 64) (64 - b % 64) d (len - (64 - b % 64)) h
              (omega (arith, leb→lt _ _ e)) clean' (omega arith) (omega arith)
              (wide (omega (arith, leb→lt _ _ e)))))
    ]
  where
    position : 64 * (b / 64) + b % 64 ≡ b
    position = omega arith

    clean' : stream ws < 2 ^ (64 * (b / 64) + b % 64)
    clean' = subst (λ t. stream ws < 2 ^ t) (sym position) clean

    at_bit : {ws' : List ℕ} → Grows (64 * (b / 64) + b % 64) d ws ws' → Grows b d ws ws'
    at_bit {ws'} g = subst (λ t. Grows t d ws ws') position g

    wide : {k : ℕ} → len ≡ k → d < 2 ^ k
    wide e = subst (λ t. d < 2 ^ t) e hd
