-- ===== src/Gorilla/BitsRoundTrip.antt =====
-- A field that `appendBits` writes is the field that `readBits` reads (src/gorilla.c).
use native.Mathlib.Nat.{mod-eq_of_lt}
use redis_time_series.Common.{
  ℕ, ◌+◌, ◌*◌, ◌/◌, ◌%◌, ◌^◌, ◌≤◌, ◌<◌, ◌≡◌, ◌∙◌, ap, List, length, arith,
}
use redis_time_series.Common.{refl, field-lt, add-mul-div, sym, add-mul-mod, mod-div-mod}
use redis_time_series.Gorilla.Bins.{append_bits, read_bits, zero_bits}
use redis_time_series.Gorilla.Stream.{stream, IsWords, read_bits-stream}
use redis_time_series.Gorilla.AppendBits.{Grows, append_bits-Grows}
use redis_time_series.Gorilla.Packed.{IsPacked, Added}
use redis_time_series.Gorilla.ZeroBits.{zero_bits_restores}

-- At the end of the bits in use, a value of at most 64 bits that fits its width is read back as it
-- was written, also across two bins, and any field of at most 64 bits below it reads as before.
pub read_bits-append_bits :
    (ws : List ℕ) (b d len s n : ℕ)
    → IsWords ws
    → stream ws < 2 ^ b
    → d < 2 ^ len
    → 0 < len
    → len ≤ 64
    → b + len ≤ 64 * length ws
    → s + n ≤ b
    → n ≤ 64
    → (read_bits (append_bits ws b d len) b len ≡ d)
      × (read_bits (append_bits ws b d len) s n ≡ read_bits ws s n)
read_bits-append_bits ws b d len s n h clean hd pos fits room below small = (
  read_bits-stream (append_bits ws b d len) b len g.words fits
      ∙ ap (λ t. t / 2 ^ b % 2 ^ len) grown
      ∙ ap (λ t. t % 2 ^ len) (add-mul-div (2 ^ b) (stream ws) d clean)
      ∙ mod-eq_of_lt hd,
  read_bits-stream (append_bits ws b d len) s n g.words small
      ∙ sym (mod-div-mod (stream (append_bits ws b d len)) b s n below)
      ∙ ap (λ t. t / 2 ^ s % 2 ^ n)
          (ap (λ t. t % 2 ^ b) grown ∙ add-mul-mod (2 ^ b) (stream ws) d clean)
      ∙ sym (read_bits-stream ws s n h small),
)
  where
    g : Grows b d ws (append_bits ws b d len)
    g = append_bits-Grows ws b d len h clean hd pos fits room

    grown : stream (append_bits ws b d len) ≡ stream ws + 2 ^ b * d
    grown = omega (arith, g.grown)

-- `zero_bits` from the old end to the new one takes an appended field of at most 64 bits away: the
-- array is again what it was.
pub zero_bits-append_bits :
    (ws : List ℕ) (b d len : ℕ)
    → IsWords ws
    → stream ws < 2 ^ b
    → d < 2 ^ len
    → 0 < len
    → len ≤ 64
    → b + len ≤ 64 * length ws
    → 64 * length ws < 2 ^ 64
    → zero_bits (append_bits ws b d len) (8 * length ws) b (b + len) ≡ ws
zero_bits-append_bits ws b d len h clean hd pos fits room small =
    zero_bits_restores {n = len} before after
  where
    g : Grows b d ws (append_bits ws b d len)
    g = append_bits-Grows ws b d len h clean hd pos fits room

    before : IsPacked ws (8 * length ws) b
    before = record {
      words = h;
      sized = refl;
      small = omega arith;
      room = omega arith;
      clean = clean;
    }

    after : Added ws (8 * length ws) b d len (append_bits ws b d len) (8 * length ws) (b + len)
    after = record {
      packed = record {
        words = g.words;
        sized = omega (arith, g.same_length);
        small = omega arith;
        room = omega arith;
        clean = rw g.grown (field-lt b len (b + len) (stream ws) d clean hd (omega arith));
      };
      same_size = refl;
      idx_moved = refl;
      code_lt = hd;
      stream_grown = g.grown;
    }
