-- ===== src/Gorilla/ReadDelta.antt =====
-- What `readInteger` does with each of the seven codes of a double delta.
use mathlib.Core.Path.{ap₂}
use redis_time_series.Common.{
  ℕ, zero, suc, ◌+◌, ◌*◌, ◌/◌, ◌%◌, ◌^◌, ◌≤◌, ◌<◌, ◌≡◌, ap, ◌∙◌, sym, List,
}
use redis_time_series.Common.{
  true, false, arith, get_or, and_bit, div-div_pow, mod-div-mod, u64, add64,
}
use redis_time_series.Common.{◌==◌, ==_iff, ne→==, pow_pos}
use redis_time_series.Gorilla.{CompressedIterator}
use redis_time_series.Gorilla.Bins.{bins_bitoff, read_bits, bin2int}
use redis_time_series.Gorilla.Read.{next_delta, read_integer, read_delta, read_word}
use redis_time_series.Gorilla.Stream.{stream, IsWords, get_or-stream, read_bits-stream}

scaled_zero : (t p : ℕ) → 0 < p → (t * p == 0) ≡ (t == 0)
scaled_zero zero p h = (==_iff _ 0).1 (omega arith)
scaled_zero (suc t) p h = ne→== _ 0 (omega arith) ∙ sym (ne→== (suc t) 0 (omega arith))

-- `Bins_bitoff` tests one bit of the stream.
pub bins_bitoff-stream :
    (bins : List ℕ) (b : ℕ) → IsWords bins → bins_bitoff bins b ≡ (stream bins / 2 ^ b % 2 == 0)
unfolding bins_bitoff
bins_bitoff-stream bins b h =
    rw
      (
        and_bit (b % 64) (get_or bins (b / 64) 0),
        scaled_zero (get_or bins (b / 64) 0 / 2 ^ (b % 64) % 2) (2 ^ (b % 64)) (pow_pos (b % 64)),
      )
      (ap (λ t. t == 0) same_bit)
  where
    same_bit : get_or bins (b / 64) 0 / 2 ^ (b % 64) % 2 ≡ stream bins / 2 ^ b % 2
    same_bit = rw (get_or-stream bins (b / 64) h) (
        mod-div-mod (stream bins / 2 ^ (64 * (b / 64))) 64 (b % 64) 1 (omega arith)
        ∙ ap (λ t. t % 2) (div-div_pow (stream bins) (64 * (b / 64)) (b % 64))
        ∙ ap (λ t. stream bins / 2 ^ t % 2) (omega arith))

-- Position `j` is `k` bits past `start`.
module _ (bins : List ℕ) (start k j : ℕ) (h : IsWords bins) (at : j ≡ start + k) where
  field_at : (l : ℕ) → stream bins / 2 ^ j % 2 ^ l ≡ stream bins / 2 ^ start / 2 ^ k % 2 ^ l
  field_at l =
      ap (λ t. stream bins / 2 ^ t % 2 ^ l) at
      ∙ ap (λ t. t % 2 ^ l) (sym (div-div_pow (stream bins) start k))

  pub off_at : stream bins / 2 ^ start / 2 ^ k % 2 ≡ 0 → bins_bitoff bins j ≡ true
  off_at e = bins_bitoff-stream bins j h ∙ (==_iff _ 0).1 (field_at 1 ∙ e)

  pub on_at : stream bins / 2 ^ start / 2 ^ k % 2 ≡ 1 → bins_bitoff bins j ≡ false
  on_at e = bins_bitoff-stream bins j h ∙ ne→== _ 0 (omega (arith, field_at 1, e))

  pub bits_at : (l : ℕ) → l ≤ 64 → read_bits bins j l ≡ stream bins / 2 ^ start / 2 ^ k % 2 ^ l
  bits_at l fits = read_bits-stream bins j l h fits ∙ field_at l

-- The code moves the iterator by `n` bits and its delta by `dd`.
abbrev pub ReadsDelta : ℕ → ℕ → ℕ → Type 0
ReadsDelta dd code n =
    (bins : List ℕ) (it : CompressedIterator)
    → IsWords bins
    → it.idx + n < 2 ^ 64
    → it.prev_delta < 2 ^ 64
    → stream bins / 2 ^ it.idx % 2 ^ n ≡ code
    → next_delta bins it ≡ record it { idx = it.idx + n; prev_delta = add64 it.prev_delta dd }

moved :
    (it : CompressedIterator) {i j d e : ℕ}
    → i ≡ j
    → d ≡ e
    → ◌≡◌ {A = CompressedIterator}
        (record it { idx = i; prev_delta = d })
        (record it { idx = j; prev_delta = e })
moved it p q = ap₂ (λ i d. record it { idx = i; prev_delta = d }) p q

-- The value of a bucket of `l` bits that stands `k` bits past the iterator.
delta_at :
    (bins : List ℕ) (it : CompressedIterator) (k j l p dd : ℕ)
    → IsWords bins
    → j ≡ it.idx + k
    → l ≤ 64
    → stream bins / 2 ^ it.idx / 2 ^ k % 2 ^ l ≡ p
    → bin2int p l ≡ dd
    → add64 it.prev_delta (bin2int (read_bits bins j l) l) ≡ add64 it.prev_delta dd
delta_at bins it k j l p dd h at fits e back =
    ap (λ t. add64 it.prev_delta t)
      (ap (λ t. bin2int t l) (bits_at bins it.idx k j h at l fits ∙ e) ∙ back)

pub reads_zero : ReadsDelta 0 0 1
unfolding next_delta
reads_zero bins it h fits pd e =
    rw (off_at bins it.idx 0 it.idx h (omega arith) (omega arith))
      (moved it (omega arith) (omega arith))

pub reads_l1 : (dd p : ℕ) → p < 2 ^ 5 → bin2int p 5 ≡ dd → ReadsDelta dd (1 + 2 ^ 2 * p) 7
unfolding next_delta read_integer read_delta
reads_l1 dd p hp back bins it h fits pd e =
    rw
      (
        on_at bins it.idx 0 (it.idx) h (omega arith) (omega arith),
        off_at bins it.idx 1 (u64 (it.idx + 1)) h (omega arith) (omega arith),
      )
      (moved it (omega arith)
        (delta_at bins it 2 _ 5 p dd h (omega arith) (omega arith) (omega arith) back))

pub reads_l2 : (dd p : ℕ) → p < 2 ^ 8 → bin2int p 8 ≡ dd → ReadsDelta dd (3 + 2 ^ 3 * p) 11
unfolding next_delta read_integer read_delta
reads_l2 dd p hp back bins it h fits pd e =
    rw
      (
        on_at bins it.idx 0 (it.idx) h (omega arith) (omega arith),
        on_at bins it.idx 1 (u64 (it.idx + 1)) h (omega arith) (omega arith),
        off_at bins it.idx 2 (u64 (u64 (it.idx + 1) + 1)) h (omega arith) (omega arith),
      )
      (moved it (omega arith)
        (delta_at bins it 3 _ 8 p dd h (omega arith) (omega arith) (omega arith) back))

pub reads_l3 : (dd p : ℕ) → p < 2 ^ 11 → bin2int p 11 ≡ dd → ReadsDelta dd (7 + 2 ^ 4 * p) 15
unfolding next_delta read_integer read_delta
reads_l3 dd p hp back bins it h fits pd e =
    rw
      (
        on_at bins it.idx 0 (it.idx) h (omega arith) (omega arith),
        on_at bins it.idx 1 (u64 (it.idx + 1)) h (omega arith) (omega arith),
        on_at bins it.idx 2 (u64 (u64 (it.idx + 1) + 1)) h (omega arith) (omega arith),
        off_at bins it.idx 3 (u64 (u64 (u64 (it.idx + 1) + 1) + 1)) h (omega arith) (omega arith),
      )
      (moved it (omega arith)
        (delta_at bins it 4 _ 11 p dd h (omega arith) (omega arith) (omega arith) back))

pub reads_l4 : (dd p : ℕ) → p < 2 ^ 15 → bin2int p 15 ≡ dd → ReadsDelta dd (15 + 2 ^ 5 * p) 20
unfolding next_delta read_integer read_delta
reads_l4 dd p hp back bins it h fits pd e =
    rw
      (
        on_at bins it.idx 0 (it.idx) h (omega arith) (omega arith),
        on_at bins it.idx 1 (u64 (it.idx + 1)) h (omega arith) (omega arith),
        on_at bins it.idx 2 (u64 (u64 (it.idx + 1) + 1)) h (omega arith) (omega arith),
        on_at bins it.idx 3 (u64 (u64 (u64 (it.idx + 1) + 1) + 1)) h (omega arith) (omega arith),
        off_at bins it.idx 4 (u64 (u64 (u64 (u64 (it.idx + 1) + 1) + 1) + 1)) h (omega arith)
            (omega arith),
      )
      (moved it (omega arith)
        (delta_at bins it 5 _ 15 p dd h (omega arith) (omega arith) (omega arith) back))

pub reads_l5 : (dd p : ℕ) → p < 2 ^ 32 → bin2int p 32 ≡ dd → ReadsDelta dd (31 + 2 ^ 6 * p) 38
unfolding next_delta read_integer read_delta
reads_l5 dd p hp back bins it h fits pd e =
    rw
      (
        on_at bins it.idx 0 (it.idx) h (omega arith) (omega arith),
        on_at bins it.idx 1 (u64 (it.idx + 1)) h (omega arith) (omega arith),
        on_at bins it.idx 2 (u64 (u64 (it.idx + 1) + 1)) h (omega arith) (omega arith),
        on_at bins it.idx 3 (u64 (u64 (u64 (it.idx + 1) + 1) + 1)) h (omega arith) (omega arith),
        on_at bins it.idx 4 (u64 (u64 (u64 (u64 (it.idx + 1) + 1) + 1) + 1)) h (omega arith)
            (omega arith),
        off_at bins it.idx 5 (u64 (u64 (u64 (u64 (u64 (it.idx + 1) + 1) + 1) + 1) + 1)) h
            (omega arith) (omega arith),
      )
      (moved it (omega arith)
        (delta_at bins it 6 _ 32 p dd h (omega arith) (omega arith) (omega arith) back))

pub reads_word : (dd : ℕ) → dd < 2 ^ 64 → ReadsDelta dd (63 + 2 ^ 6 * dd) 70
unfolding next_delta read_integer read_word
reads_word dd hp bins it h fits pd e =
    rw
      (
        on_at bins it.idx 0 (it.idx) h (omega arith) (omega arith),
        on_at bins it.idx 1 (u64 (it.idx + 1)) h (omega arith) (omega arith),
        on_at bins it.idx 2 (u64 (u64 (it.idx + 1) + 1)) h (omega arith) (omega arith),
        on_at bins it.idx 3 (u64 (u64 (u64 (it.idx + 1) + 1) + 1)) h (omega arith) (omega arith),
        on_at bins it.idx 4 (u64 (u64 (u64 (u64 (it.idx + 1) + 1) + 1) + 1)) h (omega arith)
            (omega arith),
        on_at bins it.idx 5 (u64 (u64 (u64 (u64 (u64 (it.idx + 1) + 1) + 1) + 1) + 1)) h
            (omega arith) (omega arith),
      )
      (moved it (omega arith) (
        ap (λ t. add64 it.prev_delta t)
          (bits_at bins it.idx 6 _ h (omega arith) 64 (omega arith) ∙ omega arith)))
