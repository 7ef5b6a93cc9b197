-- ===== src/Gorilla/AppendBlock.antt =====
-- The two ways in which `appendFloat` writes a block, and the function as a whole.
use redis_time_series.Common.{ℕ, ◌+◌, ◌-◌, ◌*◌, ◌/◌, ◌^◌, ◌≤◌, ◌<◌, ◌≡◌, ◌≢◌, refl}
use redis_time_series.Common.{
  inl, inr, Bool, Bool-cases, arith, leb→le, leb→lt, leb, ==_iff, ◌==◌, if_both, true, false,
}
use redis_time_series.Common.{
  bit_xor, xor-eq-zero, xor-lt, ◌&&◌, trailing_zeros64, leading-add-trailing,
}
use redis_time_series.Generic.{cr_ok}
use redis_time_series.Gorilla.{CompressedChunk}
use redis_time_series.Gorilla.Append.{put, checkspace, append_float, append_block, leading_of}
use redis_time_series.Gorilla.Packed.{
  Packed, Extends, put-Extends, Added-trans, Added-width, is_space_available_lem,
}
use redis_time_series.Gorilla.ReadValue.{reads_reuse, reads_fresh}
use redis_time_series.Gorilla.AppendValue.{
  ValueAdded, ValueOutcome, block_bits, at_value, block_fits, leading_of-le, block_of_lem,
  same_outcome,
}

both_le : (a b d e : ℕ) (q : Bool) → (leb a b && (leb d e && q)) ≡ true → (a ≤ b) × (d ≤ e)
both_le a b d e q h = ground arith

-- The chunk `c` has had its control bit written.
module _ (c : CompressedChunk) (v x : ℕ) (p : Packed c) (room : c.idx + 1 ≤ 8 * c.size)
    (limits : c.prev_leading + c.prev_trailing ≤ 64) (ex : x ≡ bit_xor v c.prev_value)
    (hx : x < 2 ^ 64) (nonzero : x ≢ 0) where
  control : Extends c 1 1 (put c 1 1)
  control = put-Extends c 1 1 p (omega arith) (omega arith) (omega arith) room

  -- `CHECKSPACE` for a block of at most 76 bits.
  checked :
      (k : ℕ) (c' : CompressedChunk)
      → k ≤ 76
      → (c.idx + 1 + k ≤ 8 * c.size → ValueAdded c v c')
      → ValueOutcome c v (checkspace (put c 1 1) k (cr_ok, c'))
  unfolding put
  checked k c' small added = elim (Bool-cases (leb ((put c 1 1).idx + k) (8 * (put c 1 1).size))) [
    | inl e ↦
        rw (is_space_available_lem (put c 1 1) k control.packed, e)
          (added (omega (arith, leb→le _ _ e, control.idx_moved, control.same_size)))
    | inr e ↦
        rw (is_space_available_lem (put c 1 1) k control.packed, e)
          (control, refl, omega (arith, leb→lt _ _ e, control.idx_moved, control.same_size))
  ]

  -- Two control bits and the block, between the previous limits.
  reuse_outcome :
      0 < block_bits c
      → x / 2 ^ c.prev_trailing * 2 ^ c.prev_trailing ≡ x
      → x / 2 ^ c.prev_trailing < 2 ^ block_bits c
      → ValueOutcome c v (
          checkspace (put c 1 1) (block_bits c + 1) (
            cr_ok,
            record (put (put (put c 1 1) 0 1) (x / 2 ^ c.prev_trailing) (block_bits c)) {
              prev_value = v;
            },
          ))
  unfolding put
  reuse_outcome pos back fits = checked (block_bits c + 1) _ (omega arith) λ enough.
      let a = control in
      let b =
        put-Extends (put c 1 1) 0 1 a.packed (omega arith) (omega arith) (omega arith)
          (omega (arith, a.idx_moved, a.same_size)) in
      let d =
        put-Extends (put (put c 1 1) 0 1) (x / 2 ^ c.prev_trailing) (block_bits c) b.packed fits pos
          (omega arith) (omega (arith, a.idx_moved, a.same_size, b.idx_moved, b.same_size)) in
      record {
        code = 1 + 2 ^ 1 * (0 + 2 ^ 1 * (x / 2 ^ c.prev_trailing));
        width = 2 + block_bits c;
        extends = Added-width (omega arith) (Added-trans a (Added-trans b d));
        reads = λ it.
            reads_reuse (at_value it c) v x (x / 2 ^ c.prev_trailing) (omega arith) ex hx back fits;
        nonempty = omega arith;
        narrow = omega arith;
        limits = limits;
        frame = refl;
      }

  -- Two control bits, the limits and the block.
  fresh_outcome :
      (l t : ℕ)
      → l < 32
      → l + t < 64
      → x / 2 ^ t * 2 ^ t ≡ x
      → x / 2 ^ t < 2 ^ (64 - l - t)
      → ValueOutcome c v (
          checkspace (put c 1 1) (5 + 6 + (64 - l - t) + 1) (
            cr_ok,
            record (put
                (put (put (put (put c 1 1) 1 1) l 5) (64 - l - t - 1) 6)
                (x / 2 ^ t)
                (64 - l - t)) { prev_leading = l; prev_trailing = t; prev_value = v },
          ))
  unfolding put
  fresh_outcome l t small sum back fits =
      checked (5 + 6 + (64 - l - t) + 1) _ (omega arith) λ enough.
        let a = control in
        let b =
          put-Extends (put c 1 1) 1 1 a.packed (omega arith) (omega arith) (omega arith)
            (omega (arith, a.idx_moved, a.same_size)) in
        let d =
          put-Extends (put (put c 1 1) 1 1) l 5 b.packed (omega arith) (omega arith) (omega arith)
            (omega (arith, a.idx_moved, a.same_size, b.idx_moved, b.same_size)) in
        let e =
          put-Extends (put (put (put c 1 1) 1 1) l 5) (64 - l - t - 1) 6 d.packed (omega arith)
            (omega arith) (omega arith)
            (omega (
              arith, a.idx_moved, a.same_size, b.idx_moved, b.same_size, d.idx_moved, d.same_size,
            )) in
        let f =
          put-Extends (put (put (put (put c 1 1) 1 1) l 5) (64 - l - t - 1) 6) (x / 2 ^ t)
            (64 - l - t) e.packed fits (omega arith) (omega arith)
            (omega (
              arith, a.idx_moved, a.same_size, b.idx_moved, b.same_size, d.idx_moved, d.same_size,
              e.idx_moved, e.same_size,
            )) in
        record {
          code = 1 + 2 ^ 1 * (1 + 2 ^ 1 * (l + 2 ^ 5 * (64 - l - t - 1 + 2 ^ 6 * (x / 2 ^ t))));
          width = 13 + (64 - l - t);
          extends =
              Added-width (omega arith)
                (Added-trans a (Added-trans b (Added-trans d (Added-trans e f))));
          reads = λ it.
              reads_fresh (at_value it c) v x (x / 2 ^ t) l t (64 - l - t) (omega arith)
                (omega arith) small ex hx back fits;
          nonempty = omega arith;
          narrow = omega arith;
          limits = omega arith;
          frame = refl;
        }

  -- What each branch of the block comes to.
  append_block-ValueOutcome : ValueOutcome c v (append_block (put c 1 1) v x)
  unfolding append_block put
  append_block-ValueOutcome =
      rw
        (
          block_of_lem c.prev_leading c.prev_trailing limits,
          block_of_lem (leading_of x) (trailing_zeros64 x) (omega (arith, both)),
        )
        (if_both (ValueOutcome c v) _
          (λ e.
            let (pl, pt) = both_le _ _ _ _ _ e in
            let (back, fits) =
              block_fits x c.prev_leading c.prev_trailing hx nonzero
                (omega (arith, pl, leading_of-le x)) pt in
            reuse_outcome (omega (arith, both, pl, pt)) back fits)
          (λ _.
            let (back, fits) =
              block_fits x (leading_of x) (trailing_zeros64 x) hx nonzero (leading_of-le x).1
                (omega arith) in
            fresh_outcome (leading_of x) (trailing_zeros64 x) (leading_of-le x).0 both back fits))
    where
      both : leading_of x + trailing_zeros64 x < 64
      both = omega (arith, leading-add-trailing hx nonzero, (leading_of-le x).1)

-- `appendFloat` writes a code of the value, or fails for want of room.
pub append_float-ValueOutcome :
    (c : CompressedChunk) (v : ℕ)
    → Packed c
    → c.idx + 1 ≤ 8 * c.size
    → c.prev_leading + c.prev_trailing ≤ 64
    → v < 2 ^ 64
    → c.prev_value < 2 ^ 64
    → ValueOutcome c v (append_float c v)
unfolding append_float
append_float-ValueOutcome c v p room limits hv hp =
    if_both (ValueOutcome c v) (x == 0)
      (λ e. same_outcome c v p room limits (xor-eq-zero v c.prev_value ((==_iff x 0).0 e)))
      (λ e.
        append_block-ValueOutcome c v x p room limits refl (xor-lt 64 v c.prev_value hv hp) (ne e))
  where
    x : ℕ
    x = bit_xor v c.prev_value

    ne : (x == 0) ≡ false → x ≢ 0
    ne e = ground arith
