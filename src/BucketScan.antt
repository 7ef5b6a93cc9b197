-- ===== src/BucketScan.antt =====
-- Where a bucket ends in a chunk that was read (`findLastIndexbeforeTS`, src/filter_iterator.c). The
-- indices are int64_t, and a chunk has fewer than 2 ^ 32 samples, so that none of them overflows.
mod Tests
use redis_time_series.Common.{
  ℕ, zero, suc, ◌+◌, ◌-◌, ◌/◌, ◌≤◌, ◌<◌, ◌≡◌, refl, Bool, true, false, Option, none, some, List,
  length, get_or, ltb, leb, if◌then◌else◌, if_both, inl, inr, Bool-cases, ltb→lt, ltb→le, leb→le,
  leb→lt, arith,
}

-- The loop of the binary search; `none` is running out of rounds.
unfoldable pub halve : List ℕ → ℕ → ℕ → ℕ → ℕ → Option ℕ
halve timestamps timestamp zero l h = none
halve timestamps timestamp (suc rounds) l h =
    let m = (l + h) / 2 in
    let before = ltb (get_or timestamps m 0) timestamp in
    let rest =
      halve timestamps timestamp rounds (if before then m else l) (if before then h else m) in
    if ltb l (h - 1) then rest else some l

-- The index -1, or an index into the chunk.
pub data Index : Type 0 where
  minus_one : Index
  index : ℕ → Index

abbrev found : Option ℕ → Option Index
found none = none
found (some i) = some (index i)

-- `none` is a failed assertion.
unfoldable pub find_last_index_before_ts : List ℕ → ℕ → ℕ → Option Index
find_last_index_before_ts timestamps timestamp si =
    let h = length timestamps - 1 in
    if leb timestamp (get_or timestamps si 0)
    then some minus_one
    else if ltb (get_or timestamps h 0) timestamp
    then some (index h)
    else if ltb si h
    then found (halve timestamps timestamp (length timestamps) si h)
    else none

pub IsAscending : List ℕ → Type 0
IsAscending ts = (i j : ℕ) → i ≤ j → j < length ts → get_or ts i 0 ≤ get_or ts j 0

-- The samples from `si` to the index are before the timestamp, those behind it are not.
pub data LastBefore (ts : List ℕ) (timestamp si : ℕ) : Option Index → Type 0 where
  not_one : timestamp ≤ get_or ts si 0 → LastBefore ts timestamp si (some minus_one)
  up_to_index :
      (r : ℕ)
      → si ≤ r
      → r < length ts
      → ((i : ℕ) → i ≤ r → get_or ts i 0 < timestamp)
      → ((i : ℕ) → r < i → i < length ts → timestamp ≤ get_or ts i 0)
      → LastBefore ts timestamp si (some (index r))

module _ (ts : List ℕ) (timestamp si : ℕ) (sorted : IsAscending ts) where
  halve-LastBefore :
      (rounds l h : ℕ)
      → si ≤ l
      → l < h
      → h < length ts
      → h - l ≤ rounds
      → get_or ts l 0 < timestamp
      → timestamp ≤ get_or ts h 0
      → LastBefore ts timestamp si (found (halve ts timestamp rounds l h))
  unfolding halve IsAscending
  halve-LastBefore zero l h a b c enough low high = absurd (omega arith)
  halve-LastBefore (suc rounds) l h a b c enough low high = elim (Bool-cases (ltb l (h - 1))) [
    | inr stop ↦
        let next : h ≤ l + 1 = omega (arith, ltb→le l (h - 1) stop) in
        rw stop (
          up_to_index l a (omega arith)
            (λ i le. let s = sorted i l le (omega arith) in omega (arith, s))
            (λ i lt lt'. let s = sorted h i (omega arith) lt' in omega (arith, s)))
    | inl go ↦
        let m = (l + h) / 2 in
        let more : l < h - 1 = ltb→lt l (h - 1) go in
        let lo : l < m = omega arith in
        let hi : m < h = omega arith in
        rw go (elim (Bool-cases (ltb (get_or ts m 0) timestamp)) [
          | inl below ↦ rw below (
              halve-LastBefore rounds m h (omega arith) hi c (omega arith)
                (ltb→lt (get_or ts m 0) timestamp below) high)
          | inr above ↦ rw above (
              halve-LastBefore rounds l m a lo (omega arith) (omega arith) low
                (ltb→le (get_or ts m 0) timestamp above))
        ])
  ]

  -- In a column of ascending timestamps, for an index within it, the search ends and no assertion
  -- fails. The result is -1 where the sample at the index is not before the timestamp; else it is an
  -- index from there on, up to which all samples are before the timestamp and behind which none is.
  pub find_last_index_before_ts-LastBefore :
      si < length ts → LastBefore ts timestamp si (find_last_index_before_ts ts timestamp si)
  unfolding find_last_index_before_ts IsAscending
  find_last_index_before_ts-LastBefore within =
      let h = length ts - 1 in
      elim (Bool-cases (leb timestamp (get_or ts si 0))) [
        | inl late ↦ rw late (not_one (leb→le timestamp (get_or ts si 0) late))
        | inr early ↦
            let low : get_or ts si 0 < timestamp = leb→lt timestamp (get_or ts si 0) early in
            rw early (elim (Bool-cases (ltb (get_or ts h 0) timestamp)) [
              | inl all ↦ rw all (
                  up_to_index h (omega arith) (omega arith)
                    (λ i le.
                      let s = sorted i h le (omega arith) in
                      omega (arith, s, ltb→lt (get_or ts h 0) timestamp all))
                    (λ i lt lt'. absurd (omega arith)))
              | inr some_late ↦
                  let high : timestamp ≤ get_or ts h 0 =
                    ltb→le (get_or ts h 0) timestamp some_late in
                  rw some_late (elim (Bool-cases (ltb si h)) [
                    | inl lt ↦ rw lt (
                        halve-LastBefore (length ts) si h (omega arith) (ltb→lt si h lt)
                          (omega arith) (omega arith) low high)
                    | inr ge ↦ let s = sorted h si (ltb→le si h ge) within in absurd (omega arith)
                  ])
            ])
      ]
