-- ===== src/Gorilla/ZeroBits.antt =====
-- `zero_bits` takes back what was appended since its first bit.
use mathlib.Core.Path.{subst}
use native.Mathlib.Nat.{mod-eq_of_lt}
use redis_time_series.Common.{
  ℕ, zero, suc, ◌+◌, ◌-◌, ◌*◌, ◌/◌, ◌%◌, ◌^◌, ◌≤◌, ◌<◌, ◌≡◌, ◌≢◌, refl, ◌∙◌, sym, ap,
}
use redis_time_series.Common.{
  List, ◌⊎◌, inl, inr, Bool-cases, arith, ==_iff, ◌==◌, min, bit_and, and_mask,
}
use redis_time_series.Common.{
  length, get_or, set, length-set, get_or-set_self, get_or-set_ne, get_or-set_zero,
}
use redis_time_series.Common.{get_or_ext, mod-div-mod, mod_pow-mod, pow_mono, add-mul-mod, sub64}
use redis_time_series.Gorilla.Bins.{zero_bits, zero_bins, bitmask}
use redis_time_series.Gorilla.Stream.{stream, get_or-stream, get_or-lt, stream-lt}
use redis_time_series.Gorilla.Packed.{IsPacked, Added}

length-zero_bins : (left i : ℕ) (bins : List ℕ) → length (zero_bins left i bins) ≡ length bins
unfolding zero_bins
length-zero_bins zero i bins = refl
length-zero_bins (suc left) i bins =
    length-zero_bins left (i + 1) (set bins i 0) ∙ length-set bins i 0

zero_bins_outside :
    (left i : ℕ) (bins : List ℕ) (j : ℕ)
    → (j < i) ⊎ (i + left ≤ j)
    → get_or (zero_bins left i bins) j 0 ≡ get_or bins j 0
unfolding zero_bins
zero_bins_outside zero i bins j h = refl
zero_bins_outside (suc left) i bins j h =
    zero_bins_outside left (i + 1) (set bins i 0) j (omega arith)
    ∙ get_or-set_ne bins i j 0 0 (omega arith)

zero_bins_inside :
    (left i : ℕ) (bins : List ℕ) (j : ℕ)
    → i ≤ j
    → j < i + left
    → get_or (zero_bins left i bins) j 0 ≡ 0
unfolding zero_bins
zero_bins_inside zero i bins j lo hi = absurd (omega arith)
zero_bins_inside (suc left) i bins j lo hi = elim (Bool-cases (j == i)) [
  | inl e ↦
      zero_bins_outside left (i + 1) (set bins i 0) j (omega (arith, (==_iff j i).0 e))
      ∙ rw ((==_iff j i).0 e) (get_or-set_zero bins i)
  | inr e ↦ zero_bins_inside left (i + 1) (set bins i 0) j (ground arith) (omega arith)
]

-- The array `bins'` has `n` more bits than `bins`, from bit `s` on.
module _ {bins bins' : List ℕ} {size size' s e code n : ℕ} (p : IsPacked bins size s)
    (a : Added bins size s code n bins' size' e) where
  low_part : stream bins' % 2 ^ s ≡ stream bins
  low_part =
      rw a.stream_grown
        (ap (λ t. t % 2 ^ s) (omega arith) ∙ add-mul-mod (2 ^ s) (stream bins) code p.clean)

  -- A field below `s` is the same in both.
  below : (i l : ℕ) → i + l ≤ s → stream bins' / 2 ^ i % 2 ^ l ≡ stream bins / 2 ^ i % 2 ^ l
  below i l h = sym (mod-div-mod (stream bins') s i l h) ∙ ap (λ t. t / 2 ^ i % 2 ^ l) low_part

  full_bin : (j : ℕ) → 64 * j + 64 ≤ s → get_or bins' j 0 ≡ get_or bins j 0
  full_bin j h =
      get_or-stream bins' j a.packed.words
      ∙ below (64 * j) 64 h
      ∙ sym (get_or-stream bins j p.words)

  split_bin :
      (j l : ℕ) → 64 * j + l ≡ s → l < 64 → bit_and (get_or bins' j 0) (bitmask l) ≡ get_or bins j 0
  split_bin j l h small =
      and_mask l (get_or bins' j 0)
      ∙ ap (λ t. t % 2 ^ l) (get_or-stream bins' j a.packed.words)
      ∙ mod_pow-mod (stream bins' / 2 ^ (64 * j)) 64 l (omega arith)
      ∙ below (64 * j) l (omega arith)
      ∙ sym (mod_pow-mod (stream bins / 2 ^ (64 * j)) 64 l (omega arith))
      ∙ ap (λ t. t % 2 ^ l) (sym (get_or-stream bins j p.words))
      ∙ mod-eq_of_lt (
          get_or-lt bins j l (omega (arith, p.clean, pow_mono s (64 * j + l) (omega arith)))
            (omega arith))

  -- A bin past the end of a stream.
  empty_bin : (j : ℕ) → s ≤ 64 * j → get_or bins j 0 ≡ 0
  empty_bin j h = omega (
    arith,
    get_or-lt bins j 0 (omega (arith, p.clean, pow_mono s (64 * j + 0) (omega arith)))
        (omega arith),
  )

  empty_bin' : (j : ℕ) → (e ≤ 64 * j) ⊎ (length bins' ≤ j) → get_or bins' j 0 ≡ 0
  empty_bin' j (inl h) = omega (
    arith,
    get_or-lt bins' j 0 (omega (arith, a.packed.clean, pow_mono e (64 * j + 0) (omega arith)))
        (omega arith),
  )
  empty_bin' j (inr h) = omega (
    arith,
    get_or-lt bins' j 0
        (omega (
          arith,
          stream-lt bins' a.packed.words,
          pow_mono (64 * length bins') (64 * j + 0) (omega arith),
        ))
        (omega arith),
  )

  same_length : length bins' ≡ length bins
  same_length = omega (arith, p.sized, a.packed.sized, a.same_size)

  -- The array with its first bin masked.
  masked : List ℕ
  masked = set bins' (s / 64) (bit_and (get_or bins' (s / 64) 0) (bitmask (s % 64)))

  last_bin : ℕ
  last_bin = min (e / 8) (sub64 size' 1) / 8

  zeroed : List ℕ
  unfolding masked last_bin
  zeroed = zero_bins (last_bin - s / 64) (s / 64 + 1) masked

  masked_ne : (j : ℕ) → s / 64 ≢ j → get_or masked j 0 ≡ get_or bins' j 0
  unfolding masked
  masked_ne j h = get_or-set_ne bins' (s / 64) j _ 0 h

  masked_self : s < e → get_or masked (s / 64) 0 ≡ get_or bins (s / 64) 0
  unfolding masked
  masked_self moved =
      get_or-set_self bins' (s / 64) _ 0 (omega (arith, moved, a.packed.room, a.packed.sized))
      ∙ split_bin (s / 64) (s % 64) (omega arith) (omega arith)

  past_last : (j : ℕ) → s < e → last_bin < j → (e ≤ 64 * j) ⊎ (length bins' ≤ j)
  unfolding last_bin
  past_last j moved h = ground (arith, a.packed.room, a.packed.sized, a.packed.small)

  where_is :
      (j : ℕ)
      → ((j < s / 64) ⊎ (s / 64 ≡ j))
        ⊎ ((s / 64 < j) × (j ≤ last_bin) ⊎ (s / 64 < j) × (last_bin < j))
  where_is j = omega arith

  -- Each bin is as it was.
  zeroed_bin : s < e → (j : ℕ) → get_or zeroed j 0 ≡ get_or bins j 0
  unfolding zeroed
  zeroed_bin moved j = elim (where_is j) [
    | inl (inl h) ↦
        zero_bins_outside (last_bin - s / 64) (s / 64 + 1) masked j (omega arith)
        ∙ masked_ne j (omega arith)
        ∙ full_bin j (omega arith)
    | inl (inr h) ↦
        zero_bins_outside (last_bin - s / 64) (s / 64 + 1) masked j (omega arith)
        ∙ rw (← h) (masked_self moved)
    | inr (inl (lo, hi)) ↦
        zero_bins_inside (last_bin - s / 64) (s / 64 + 1) masked j (omega arith) (omega arith)
        ∙ sym (empty_bin j (omega arith))
    | inr (inr (lo, hi)) ↦
        zero_bins_outside (last_bin - s / 64) (s / 64 + 1) masked j (omega arith)
        ∙ masked_ne j (omega arith)
        ∙ empty_bin' j (past_last j moved hi)
        ∙ sym (empty_bin j (omega arith))
  ]

  length-zeroed : length zeroed ≡ length bins
  unfolding zeroed masked
  length-zeroed =
      length-zero_bins (last_bin - s / 64) (s / 64 + 1) masked
      ∙ length-set bins' (s / 64) (bit_and (get_or bins' (s / 64) 0) (bitmask (s % 64)))
      ∙ same_length

  -- Where nothing was appended, `zero_bits` does nothing; else it takes the appended bits away.
  pub zero_bits_restores : zero_bits bins' size' s e ≡ bins
  unfolding zero_bits zeroed
  zero_bits_restores = elim (Bool-cases (s == e)) [
    | inl same ↦ rw same (get_or_ext bins' bins same_length (unmoved ((==_iff s e).0 same)))
    | inr moved ↦
        rw moved (get_or_ext zeroed bins length-zeroed (zeroed_bin (ground (arith, a.idx_moved))))
  ]
    where
      unmoved : s ≡ e → (j : ℕ) → get_or bins' j 0 ≡ get_or bins j 0
      unmoved h j =
          get_or-stream bins' j a.packed.words
          ∙ ap (λ t. t / 2 ^ (64 * j) % 2 ^ 64) same_stream
          ∙ sym (get_or-stream bins j p.words)
        where
          no_bits : n ≡ 0
          no_bits = omega (arith, a.idx_moved)

          no_code : code < 2 ^ 0
          no_code = subst (λ t. code < 2 ^ t) no_bits a.code_lt

          no_value : code ≡ 0
          no_value = omega (arith, no_code)

          same_stream : stream bins' ≡ stream bins
          same_stream = omega (arith, a.stream_grown, ap (λ (t : ℕ). t * 2 ^ s) no_value)
