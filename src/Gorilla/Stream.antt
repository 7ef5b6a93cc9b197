-- ===== src/Gorilla/Stream.antt =====
-- The array of bins as one number, its bits in order: what `appendBits` and `readBits` do to it.
use mathlib.Core.Path.{ap₂}
use native.Mathlib.Nat.{div-div-eq-div-mul, zero-div, mod-lt}
use redis_time_series.Common.{ℕ, zero, suc, ◌+◌, ◌-◌, ◌*◌, ◌/◌, ◌%◌, ◌^◌, ◌≤◌, ◌<◌, ◌≡◌, ap}
use redis_time_series.Common.{◌∙◌, List, [], ◌∷◌, inl, inr, Bool-cases, leb→le, leb→lt, arith, leb}
use redis_time_series.Common.{length, get_or, set, bit_or, and_mask, or_above}
use redis_time_series.Common.{pow-add, pow_pos, pow_split, div-div_pow, mod-mul}
use redis_time_series.Common.{field-lt, u64, mod-div-mod, mod_pow-mod}
use redis_time_series.Gorilla.Bins.{read_bits, lsb}

unfoldable pub stream : List ℕ → ℕ
stream [] = 0
stream (w ∷ ws) = w + 2 ^ 64 * stream ws

abbrev pub IsWords : List ℕ → Type 0
IsWords [] = Unit {0}
IsWords (w ∷ ws) = (w < 2 ^ 64) × IsWords ws

pow_next_bin : (i : ℕ) → 2 ^ (64 * suc i) ≡ 2 ^ 64 * 2 ^ (64 * i)
pow_next_bin i = pow_split 64 (64 * i) (64 * suc i) (omega arith)

-- Bin `i` is the field of 64 bits at `64 * i`.
pub get_or-stream :
    (ws : List ℕ) (i : ℕ) → IsWords ws → get_or ws i 0 ≡ stream ws / 2 ^ (64 * i) % 2 ^ 64
unfolding stream
get_or-stream [] i h = omega (arith, zero-div (2 ^ (64 * i)))
get_or-stream (w ∷ ws) zero h = omega arith
get_or-stream (w ∷ ws) (suc i) (hw, h) = rw (
  pow_next_bin i,
  ← div-div-eq-div-mul (w + 2 ^ 64 * stream ws) (2 ^ 64) (2 ^ (64 * i)),
  get_or-stream ws i h,
  dropped,
)
  where
    dropped : (w + 2 ^ 64 * stream ws) / 2 ^ 64 ≡ stream ws
    dropped = omega arith

pub stream-set :
    (ws : List ℕ) (i v : ℕ)
    → i < length ws
    → stream (set ws i (get_or ws i 0 + v)) ≡ stream ws + v * 2 ^ (64 * i)
unfolding stream
stream-set [] i v h = absurd (omega arith)
stream-set (w ∷ ws) zero v h = omega arith
stream-set (w ∷ ws) (suc i) v h =
    omega (arith, stream-set ws i v (omega arith), ap (λ (t : ℕ). v * t) (pow_next_bin i))

pub stream-lt : (ws : List ℕ) → IsWords ws → stream ws < 2 ^ (64 * length ws)
unfolding stream
stream-lt [] h = omega arith
stream-lt (w ∷ ws) (hw, h) = omega (arith, stream-lt ws h, pow_next_bin (length ws))

pub IsWords-set : (ws : List ℕ) (i v : ℕ) → IsWords ws → v < 2 ^ 64 → IsWords (set ws i v)
IsWords-set [] i v h hv = tt
IsWords-set (w ∷ ws) zero v (hw, h) hv = (hv, h)
IsWords-set (w ∷ ws) (suc i) v (hw, h) hv = (hw, IsWords-set ws i v h hv)

-- A stream of `64 * i + l` bits has at most `l` bits in bin `i`.
pub get_or-lt :
    (ws : List ℕ) (i l : ℕ) → stream ws < 2 ^ (64 * i + l) → l ≤ 64 → get_or ws i 0 < 2 ^ l
unfolding stream
get_or-lt [] i l h fits = pow_pos l
get_or-lt (w ∷ ws) zero l h fits =
    let at_zero : 64 * 0 + l ≡ l = omega arith in
    let h' : w + 2 ^ 64 * stream ws < 2 ^ l = rw at_zero at h in omega arith
get_or-lt (w ∷ ws) (suc i) l h fits =
    get_or-lt ws i l (omega (arith, pow_split 64 (64 * i + l) (64 * suc i + l) (omega arith))) fits

-- A field inside bin `i`, and one that goes on into the next bin.
read_within :
    (ws : List ℕ) (i l len : ℕ)
    → IsWords ws
    → l + len ≤ 64
    → lsb (get_or ws i 0 / 2 ^ l) len ≡ stream ws / 2 ^ (64 * i + l) % 2 ^ len
read_within ws i l len h fits =
    rw
      (
        and_mask len (get_or ws i 0 / 2 ^ l),
        get_or-stream ws i h,
        ← div-div_pow (stream ws) (64 * i) l,
      )
      (mod-div-mod (stream ws / 2 ^ (64 * i)) 64 l len fits)

read_across :
    (ws : List ℕ) (i l a m : ℕ)
    → IsWords ws
    → l + a ≡ 64
    → m ≤ l
    → bit_or (lsb (get_or ws i 0 / 2 ^ l) a) (u64 (lsb (get_or ws (i + 1) 0) m * 2 ^ a))
      ≡ stream ws / 2 ^ (64 * i + l) % 2 ^ (a + m)
read_across ws i l a m h e fits =
    rw (read_within ws i l a h (omega arith), upper, kept)
      (or_above a (stream ws / 2 ^ (64 * i + l) % 2 ^ a) (x / 2 ^ a % 2 ^ m) (mod-lt x (pow_pos a))
        ∙ joined)
  where
    x : ℕ
    x = stream ws / 2 ^ (64 * i + l)

    upper : lsb (get_or ws (i + 1) 0) m ≡ x / 2 ^ a % 2 ^ m
    upper =
        rw
          (
            and_mask m (get_or ws (i + 1) 0),
            get_or-stream ws (i + 1) h,
            div-div_pow (stream ws) (64 * i + l) a,
          )
          (mod_pow-mod (stream ws / 2 ^ (64 * (i + 1))) 64 m (omega arith)
            ∙ ap (λ t. stream ws / 2 ^ t % 2 ^ m) (omega arith))

    kept : u64 (x / 2 ^ a % 2 ^ m * 2 ^ a) ≡ x / 2 ^ a % 2 ^ m * 2 ^ a
    kept = omega (
      arith,
      field-lt a m 64 0 (x / 2 ^ a % 2 ^ m) (pow_pos a) (mod-lt (x / 2 ^ a) (pow_pos m))
          (omega arith),
    )

    joined : x % 2 ^ a + x / 2 ^ a % 2 ^ m * 2 ^ a ≡ x % 2 ^ (a + m)
    joined = rw (pow-add a m, mod-mul x (2 ^ a) (2 ^ m)) (omega arith)

-- `readBits` reads a field of the stream.
pub read_bits-stream :
    (ws : List ℕ) (s len : ℕ)
    → IsWords ws
    → len ≤ 64
    → read_bits ws s len ≡ stream ws / 2 ^ s % 2 ^ len
unfolding read_bits
read_bits-stream ws s len h fits = elim (Bool-cases (leb len (64 - s % 64))) [
  | inl e ↦ rw e (
      read_within ws (s / 64) (s % 64) len h (omega (arith, leb→le _ _ e))
      ∙ ap (λ t. stream ws / 2 ^ t % 2 ^ len) (omega arith))
  | inr e ↦ rw e (
      read_across ws (s / 64) (s % 64) (64 - s % 64) (len - (64 - s % 64)) h (omega arith)
        (omega arith)
      ∙ ap₂ (λ t k. stream ws / 2 ^ t % 2 ^ k) (omega arith) (omega (arith, leb→lt _ _ e)))
]
