-- ===== src/Gorilla/AppendValue.antt =====
-- What `appendFloat` writes: a code that `readFloat` reads back as the value.
use native.Mathlib.Nat.{div-add-mod', zero-mod}
use redis_time_series.Common.{ℕ, ◌+◌, ◌-◌, ◌*◌, ◌/◌, ◌%◌, ◌^◌, ◌≤◌, ◌<◌, ◌≡◌, ◌≢◌, ◌∙◌, ap, sym}
use redis_time_series.Common.{arith, mod_pow-mod, pow_mono, div_pow-lt}
use redis_time_series.Common.{
  leading_zeros64, trailing_zeros64, leading-add-trailing, lt-leading_zeros64, mod-trailing_zeros64,
}
use redis_time_series.Generic.{cr_ok, cr_err, cr_end}
use redis_time_series.Gorilla.{CompressedChunk, CompressedIterator}
use redis_time_series.Gorilla.Append.{Outcome, put, block_of, leading_of}
use redis_time_series.Gorilla.Packed.{Packed, Extends, put-Extends}
use redis_time_series.Gorilla.ReadValue.{ReadsValue, reads_same}

-- The digits of the block that the limits leave.
abbrev pub block_bits : CompressedChunk → ℕ
block_bits c = 64 - c.prev_leading - c.prev_trailing

-- An iterator that has just read the chunk's last value.
abbrev pub at_value : CompressedIterator → CompressedChunk → CompressedIterator
at_value it c = record it {
  prev_value = c.prev_value;
  leading = c.prev_leading;
  trailing = c.prev_trailing;
  block_size = block_bits c;
}

pub record ValueAdded (c : CompressedChunk) (v : ℕ) (c' : CompressedChunk) : Type 0 where
  pub code : ℕ
  pub width : ℕ
  pub extends : Extends c code width c'
  pub reads :
      (it : CompressedIterator)
      → ReadsValue (at_value it c) v c'.prev_leading c'.prev_trailing (block_bits c') code width
  pub nonempty : 0 < width
  pub narrow : width ≤ 77
  pub limits : c'.prev_leading + c'.prev_trailing ≤ 64
  pub frame : c' ≡ record c {
    bins = c'.bins;
    idx = c'.idx;
    prev_value = v;
    prev_leading = c'.prev_leading;
    prev_trailing = c'.prev_trailing;
  }

-- `appendFloat` fails only where 77 bits do not fit; its control bit is written by then.
abbrev pub ValueOutcome : CompressedChunk → ℕ → Outcome → Type 0
ValueOutcome c v (cr_ok, c') = ValueAdded c v c'
ValueOutcome c v (cr_err, c') =
    Extends c 1 1 c' × (c' ≡ record c { bins = c'.bins; idx = c'.idx }) × (8 * c.size < c.idx + 77)
ValueOutcome c v (cr_end, c') = ⊥

-- Between zeros that the value has, nothing is cut off, and the block is as wide as they leave.
pub block_fits :
    (x l t : ℕ)
    → x < 2 ^ 64
    → x ≢ 0
    → l ≤ leading_zeros64 x
    → t ≤ trailing_zeros64 x
    → (x / 2 ^ t * 2 ^ t ≡ x) × (x / 2 ^ t < 2 ^ (64 - l - t))
block_fits x l t hx nonzero hl ht = (whole, div_pow-lt t (64 - l - t) x fits)
  where
    divides : x % 2 ^ t ≡ 0
    divides =
        sym (mod_pow-mod x (trailing_zeros64 x) t ht)
        ∙ ap (λ s. s % 2 ^ t) (mod-trailing_zeros64 x)
        ∙ zero-mod (2 ^ t)

    whole : x / 2 ^ t * 2 ^ t ≡ x
    whole = omega (arith, div-add-mod' x (2 ^ t), divides)

    fits : x < 2 ^ (t + (64 - l - t))
    fits = omega (
      arith,
      lt-leading_zeros64 hx,
      pow_mono (64 - leading_zeros64 x) (t + (64 - l - t))
          (omega (arith, leading-add-trailing hx nonzero)),
    )

pub leading_of-le : (x : ℕ) → (leading_of x < 32) × (leading_of x ≤ leading_zeros64 x)
leading_of-le x = ground arith

pub block_of_lem : (l t : ℕ) → l + t ≤ 64 → block_of l t ≡ 64 - l - t
block_of_lem l t h = omega arith

-- The value is the one before it.
pub same_outcome :
    (c : CompressedChunk) (v : ℕ)
    → Packed c
    → c.idx + 1 ≤ 8 * c.size
    → c.prev_leading + c.prev_trailing ≤ 64
    → v ≡ c.prev_value
    → ValueOutcome c v (cr_ok, put c 0 1)
unfolding put
same_outcome c v p room limits e = record {
  code = 0;
  width = 1;
  extends = put-Extends c 0 1 p (omega arith) (omega arith) (omega arith) room;
  reads = λ it. rw e (reads_same (at_value it c));
  nonempty = omega arith;
  narrow = omega arith;
  limits = limits;
  frame = ap (λ t. record (put c 0 1) { prev_value = t }) (sym e);
}
