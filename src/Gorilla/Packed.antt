-- ===== src/Gorilla/Packed.antt =====
-- The invariant of a chunk's bit array, and what a step of the encoder adds to it.
use mathlib.Core.Path.{subst}
use redis_time_series.Common.{ℕ, ◌+◌, ◌*◌, ◌%◌, ◌^◌, ◌≤◌, ◌<◌, ◌≡◌, refl, ap, ◌∙◌, List, arith, leb}
use redis_time_series.Common.{length, field-lt, pow-add}
use redis_time_series.Gorilla.{CompressedChunk}
use redis_time_series.Gorilla.Append.{put, is_space_available}
use redis_time_series.Gorilla.Bins.{append_bits}
use redis_time_series.Gorilla.Stream.{stream, IsWords}
use redis_time_series.Gorilla.AppendBits.{Grows, append_bits-Grows}

-- `size` is the length in bytes of an array of whole bins, `idx` lies in it, and every bit from
-- `idx` on is zero.
pub record IsPacked (bins : List ℕ) (size idx : ℕ) : Type 0 where
  pub words : IsWords bins
  pub sized : 8 * length bins ≡ size
  pub small : 8 * size < 2 ^ 64
  pub room : idx ≤ 8 * size
  pub clean : stream bins < 2 ^ idx

abbrev pub Packed : CompressedChunk → Type 0
Packed c = IsPacked c.bins c.size c.idx

-- `n` bits that read `code` are added at `idx`.
pub record Added (bins : List ℕ) (size idx code n : ℕ) (bins' : List ℕ) (size' idx' : ℕ)
    : Type 0 where
  pub packed : IsPacked bins' size' idx'
  pub same_size : size' ≡ size
  pub idx_moved : idx' ≡ idx + n
  pub code_lt : code < 2 ^ n
  pub stream_grown : stream bins' ≡ stream bins + code * 2 ^ idx

abbrev pub Extends : CompressedChunk → ℕ → ℕ → CompressedChunk → Type 0
Extends c code n c' = Added c.bins c.size c.idx code n c'.bins c'.size c'.idx

pub put-Extends :
    (c : CompressedChunk) (d len : ℕ)
    → Packed c
    → d < 2 ^ len
    → 0 < len
    → len ≤ 64
    → c.idx + len ≤ 8 * c.size
    → Extends c d len (put c d len)
unfolding put
put-Extends c d len p hd some_bits fits room = record {
  packed = record {
    words = g.words;
    sized = omega (arith, g.same_length, p.sized);
    small = p.small;
    room = omega (arith, p.small);
    clean =
        rw (moved, g.grown)
          (field-lt c.idx len (c.idx + len) (stream c.bins) d p.clean hd (omega arith));
  };
  same_size = refl;
  idx_moved = omega (arith, p.small);
  code_lt = hd;
  stream_grown = g.grown;
}
  where
    moved : (c.idx + len) % 2 ^ 64 ≡ c.idx + len
    moved = omega (arith, p.small)

    g : Grows c.idx d c.bins (append_bits c.bins c.idx d len)
    g =
        append_bits-Grows c.bins c.idx d len p.words p.clean hd some_bits fits
          (omega (arith, p.sized))

-- Two fields, one after the other.
pub Added-trans :
    {b0 b1 b2 : List ℕ} {s0 s1 s2 i0 i1 i2 x m y n : ℕ}
    → Added b0 s0 i0 x m b1 s1 i1
    → Added b1 s1 i1 y n b2 s2 i2
    → Added b0 s0 i0 (x + 2 ^ m * y) (m + n) b2 s2 i2
Added-trans {i0} {i1} {x} {m} {y} {n} e f = record {
  packed = f.packed;
  same_size = f.same_size ∙ e.same_size;
  idx_moved = omega (arith, e.idx_moved, f.idx_moved);
  code_lt = omega (arith, field-lt m n (m + n) x y e.code_lt f.code_lt (omega arith));
  stream_grown = omega (
    arith,
    e.stream_grown,
    f.stream_grown,
    ap (λ (t : ℕ). y * 2 ^ t) e.idx_moved,
    ap (λ (t : ℕ). y * t) (pow-add i0 m),
  );
}

pub Added-width :
    {b0 b1 : List ℕ} {s0 s1 i0 i1 x m n : ℕ}
    → m ≡ n
    → Added b0 s0 i0 x m b1 s1 i1
    → Added b0 s0 i0 x n b1 s1 i1
Added-width {b0} {b1} {s0} {s1} {i0} {i1} {x} e a = subst (λ t. Added b0 s0 i0 x t b1 s1 i1) e a

-- `isSpaceAvailable` compares with the bits that are left.
pub is_space_available_lem :
    (c : CompressedChunk) (k : ℕ) → Packed c → is_space_available c k ≡ leb (c.idx + k) (8 * c.size)
unfolding is_space_available
is_space_available_lem c k p = ground (arith, p.room, p.small)
