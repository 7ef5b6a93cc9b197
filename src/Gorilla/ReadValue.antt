-- ===== src/Gorilla/ReadValue.antt =====
-- What `readFloat` does with each of the three codes of a value.
use native.Mathlib.Nat.{div-add-mod}
use redis_time_series.Common.{ℕ, ◌+◌, ◌-◌, ◌*◌, ◌/◌, ◌%◌, ◌^◌, ◌≤◌, ◌<◌, ◌≡◌, ap, ◌∙◌, List}
use redis_time_series.Common.{arith, bit_xor, xor_cancel, pow-add, u64, add-mul-mod}
use redis_time_series.Gorilla.{CompressedIterator}
use redis_time_series.Gorilla.Bins.{read_bits}
use redis_time_series.Gorilla.Read.{next_value, read_float, read_block, read_block_info}
use redis_time_series.Gorilla.Stream.{stream, IsWords}
use redis_time_series.Gorilla.ReadDelta.{off_at, on_at, bits_at}

-- The iterator after a value whose block has `bs` bits above `t` zeros.
abbrev pub with_value : CompressedIterator → ℕ → ℕ → ℕ → ℕ → ℕ → CompressedIterator
with_value it n v l t bs = record it {
  idx = it.idx + n;
  prev_value = v;
  leading = l;
  trailing = t;
  block_size = bs;
}

-- The code moves the iterator by `n` bits and its value to `v`, and sets its block.
abbrev pub ReadsValue : CompressedIterator → ℕ → ℕ → ℕ → ℕ → ℕ → ℕ → Type 0
ReadsValue it v l t bs code n =
    (bins : List ℕ)
    → IsWords bins
    → it.idx + n < 2 ^ 64
    → stream bins / 2 ^ it.idx % 2 ^ n ≡ code
    → next_value bins it ≡ with_value it n v l t bs

-- A number that ends in `code`, with a tail of `bs` bits and more split off.
whole :
    (r k bs code : ℕ) → r % 2 ^ (k + bs) ≡ code → r ≡ code + 2 ^ k * (2 ^ bs * (r / 2 ^ (k + bs)))
whole r k bs code e =
    omega
      (arith, div-add-mod r (2 ^ (k + bs)), ap (λ (t : ℕ). t * (r / 2 ^ (k + bs))) (pow-add k bs))

pub reads_same :
    (it : CompressedIterator) → ReadsValue it it.prev_value it.leading it.trailing it.block_size 0 1
unfolding next_value
reads_same it bins h fits e =
    rw (off_at bins it.idx 0 it.idx h (omega arith) (omega arith))
      (ap (λ i. record it { idx = i }) (omega arith))

-- A block of significant digits, put back in its place, gives the value.
block_lem :
    (bins : List ℕ) (it : CompressedIterator) (start k v x p rest : ℕ)
    → IsWords bins
    → it.idx ≡ start + k
    → it.idx + it.block_size < 2 ^ 64
    → it.block_size ≤ 64
    → x ≡ bit_xor v it.prev_value
    → x < 2 ^ 64
    → p * 2 ^ it.trailing ≡ x
    → p < 2 ^ it.block_size
    → stream bins / 2 ^ start / 2 ^ k ≡ p + 2 ^ it.block_size * rest
    → read_block bins it ≡ record it { idx = it.idx + it.block_size; prev_value = v }
unfolding read_block
block_lem bins it start k v x p rest h at fits wide ex hx ep hp e =
    rw (read, ep, kept, ex, xor_cancel v it.prev_value)
      (ap (λ i. record it { idx = i; prev_value = v }) (omega arith))
  where
    read : read_bits bins it.idx it.block_size ≡ p
    read =
        bits_at bins start k it.idx h at it.block_size wide
        ∙ ap (λ t. t % 2 ^ it.block_size) e
        ∙ add-mul-mod (2 ^ it.block_size) p rest hp

    kept : u64 x ≡ x
    kept = omega arith

-- The block within the previous one's limits.
pub reads_reuse :
    (it : CompressedIterator) (v x p : ℕ)
    → it.block_size ≤ 64
    → x ≡ bit_xor v it.prev_value
    → x < 2 ^ 64
    → p * 2 ^ it.trailing ≡ x
    → p < 2 ^ it.block_size
    → ReadsValue it v it.leading it.trailing it.block_size
        (1 + 2 ^ 1 * (0 + 2 ^ 1 * p))
        (2 + it.block_size)
unfolding next_value read_float
reads_reuse it v x p wide ex hx ep hp bins h fits e =
    rw
      (
        on_at bins it.idx 0 it.idx h (omega arith) (omega (arith, r)),
        off_at bins it.idx 1 (u64 (it.idx + 1)) h (omega arith) (omega (arith, r)),
      )
      (block_lem bins (record it { idx = u64 (u64 (it.idx + 1) + 1) }) it.idx 2 v x p
          (stream bins / 2 ^ it.idx / 2 ^ (2 + it.block_size)) h (omega arith) (omega arith) wide ex
          hx ep hp (omega (arith, r))
        ∙ ap (λ i. record it { idx = i; prev_value = v }) (omega arith))
  where
    r :
        stream bins / 2 ^ it.idx
        ≡ 1
          + 2 ^ 1 * (0 + 2 ^ 1 * p)
          + 2 ^ 2 * (2 ^ it.block_size * (stream bins / 2 ^ it.idx / 2 ^ (2 + it.block_size)))
    r = whole (stream bins / 2 ^ it.idx) 2 it.block_size (1 + 2 ^ 1 * (0 + 2 ^ 1 * p)) e

-- The eleven bits of a block's limits.
read_block_info_lem :
    (bins : List ℕ) (it : CompressedIterator) (start k l t bs : ℕ)
    → IsWords bins
    → it.idx ≡ start + k
    → it.idx + 11 < 2 ^ 64
    → l + t + bs ≡ 64
    → 0 < bs
    → l < 32
    → stream bins / 2 ^ start / 2 ^ k % 2 ^ 5 ≡ l
    → stream bins / 2 ^ start / 2 ^ (k + 5) % 2 ^ 6 ≡ bs - 1
    → read_block_info bins it
      ≡ record it { idx = it.idx + 11; leading = l; trailing = t; block_size = bs }
unfolding read_block_info
read_block_info_lem bins it start k l t bs h at fits sum pos small el eb =
    rw
      (
        bits_at bins start k it.idx h at 5 (omega arith) ∙ el,
        bits_at bins start (k + 5) (u64 (it.idx + 5)) h (omega arith) 6 (omega arith) ∙ eb,
      )
      (fields (omega arith) (omega arith) (omega arith) (omega arith))
  where
    fields :
        {i a b c : ℕ}
        → i ≡ it.idx + 11
        → a ≡ l
        → b ≡ t
        → c ≡ bs
        → ◌≡◌ {A = CompressedIterator}
            (record it { idx = i; leading = a; trailing = b; block_size = c })
            (record it { idx = it.idx + 11; leading = l; trailing = t; block_size = bs })
    fields p q r s = λ i. record it { idx = p i; leading = q i; trailing = r i; block_size = s i }

-- A block with limits of its own.
pub reads_fresh :
    (it : CompressedIterator) (v x p l t bs : ℕ)
    → l + t + bs ≡ 64
    → 0 < bs
    → l < 32
    → x ≡ bit_xor v it.prev_value
    → x < 2 ^ 64
    → p * 2 ^ t ≡ x
    → p < 2 ^ bs
    → ReadsValue it v l t bs
        (1 + 2 ^ 1 * (1 + 2 ^ 1 * (l + 2 ^ 5 * (bs - 1 + 2 ^ 6 * p))))
        (13 + bs)
unfolding next_value read_float
reads_fresh it v x p l t bs sum pos small ex hx ep hp bins h fits e =
    rw
      (
        on_at bins it.idx 0 it.idx h (omega arith) (omega (arith, r)),
        on_at bins it.idx 1 (u64 (it.idx + 1)) h (omega arith) (omega (arith, r)),
        info,
      )
      (block_lem bins inner it.idx 13 v x p (stream bins / 2 ^ it.idx / 2 ^ (13 + bs)) h
          (omega arith) (omega arith) (omega arith) ex hx ep hp (omega (arith, r))
        ∙ ap
            (λ i. record it { idx = i; prev_value = v; leading = l; trailing = t; block_size = bs })
            (omega arith))
  where
    r :
        stream bins / 2 ^ it.idx
        ≡ 1
          + 2 ^ 1 * (1 + 2 ^ 1 * (l + 2 ^ 5 * (bs - 1 + 2 ^ 6 * p)))
          + 2 ^ 13 * (2 ^ bs * (stream bins / 2 ^ it.idx / 2 ^ (13 + bs)))
    r =
        whole (stream bins / 2 ^ it.idx) 13 bs
          (1 + 2 ^ 1 * (1 + 2 ^ 1 * (l + 2 ^ 5 * (bs - 1 + 2 ^ 6 * p)))) e

    outer : CompressedIterator
    outer = record it { idx = u64 (u64 (it.idx + 1) + 1) }

    inner : CompressedIterator
    inner = record outer { idx = outer.idx + 11; leading = l; trailing = t; block_size = bs }

    info : read_block_info bins outer ≡ inner
    info =
        read_block_info_lem bins outer it.idx 2 l t bs h (omega arith) (omega arith) sum pos small
          (omega (arith, r)) (omega (arith, r))
