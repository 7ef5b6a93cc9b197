-- ===== src/Gorilla/Iterating.antt =====
-- `Compressed_ChunkIteratorGetNext` over a chunk that represents a list of samples.
use native.Mathlib.Nat.{mod-eq_of_lt}
use redis_time_series.Common.{ℕ, ◌+◌, ◌<◌, ◌^◌, ◌≡◌, refl, ap, sym, List, [], ◌∷◌, length, arith}
use redis_time_series.Common.{le→leb, lt→leb, ne→==, u64}
use redis_time_series.Generic.{Sample, cr_ok, cr_end}
use redis_time_series.Gorilla.{CompressedChunk, CompressedIterator}
use redis_time_series.Gorilla.Read.{
  get_next, new_iterator, next_timestamp, next_value, next_delta, read_integer, read_delta,
  read_word, read_float, read_block, read_block_info,
}
use redis_time_series.Gorilla.Samples.{step, Decodes, first_iterator, last_iterator, Represents}

-- The calls that follow give the samples of the list, each with CR_OK, and then CR_END.
abbrev pub Reads : CompressedChunk → CompressedIterator → List Sample → Type 0
Reads c it [] = (old : Sample) → get_next c it old ≡ (cr_end, it, old)
Reads c it (x ∷ xs) =
    (next : CompressedIterator) × ((old : Sample) → get_next c it old ≡ (cr_ok, next, x))
    × Reads c next xs

-- Reading a field leaves the iterator's count alone.
count-read_integer :
    (bins : List ℕ) (it : CompressedIterator) → (read_integer bins it).count ≡ it.count
unfolding read_integer read_delta read_word
count-read_integer bins it = ground arith

count-next_timestamp :
    (bins : List ℕ) (it : CompressedIterator) → (next_timestamp bins it).count ≡ it.count
unfolding next_timestamp next_delta
count-next_timestamp bins it =
    ground (arith, count-read_integer bins (record it { idx = u64 (it.idx + 1) }))

count-read_float : (bins : List ℕ) (it : CompressedIterator) → (read_float bins it).count ≡ it.count
unfolding read_float read_block read_block_info
count-read_float bins it = ground arith

count-next_value : (bins : List ℕ) (it : CompressedIterator) → (next_value bins it).count ≡ it.count
unfolding next_value
count-next_value bins it =
    ground (arith, count-read_float bins (record it { idx = u64 (it.idx + 1) }))

pub count-step :
    (bins : List ℕ) (it : CompressedIterator)
    → it.count + 1 < 2 ^ 64
    → (step bins it).count ≡ it.count + 1
count-step bins it h =
    omega (arith, count-next_value bins (next_timestamp bins it), count-next_timestamp bins it)

-- Behind the first sample the iterator's count tells how many are left.
ahead-Reads :
    (c : CompressedChunk) (it : CompressedIterator) (xs : List Sample)
    → c.count < 2 ^ 64
    → 0 < it.count
    → it.count + length xs ≡ c.count
    → Decodes c.bins it xs (last_iterator c)
    → Reads c it xs
unfolding get_next
ahead-Reads c it [] small pos e d = λ old. rw (le→leb c.count it.count (omega arith)) refl
ahead-Reads c it (x ∷ xs) small pos e (ex, d) = (
  step c.bins it,
  λ old.
      rw (lt→leb c.count it.count (omega arith), ne→== it.count 0 (omega arith))
        (ap (λ t. (cr_ok, step c.bins it, t)) ex),
  ahead-Reads c (step c.bins it) xs small (omega (arith, count-step c.bins it (omega arith)))
      (omega (arith, count-step c.bins it (omega arith))) d,
)

-- A new iterator gives exactly the samples that the chunk represents, and then CR_END.
pub Reads-new_iterator :
    (c : CompressedChunk) (xs : List Sample) → Represents c xs → Reads c (new_iterator c) xs
unfolding get_next new_iterator
Reads-new_iterator c [] e = λ old. rw (le→leb c.count 0 (omega (arith, e.count))) refl
Reads-new_iterator c (s ∷ xs) h = (
  first_iterator c,
  λ old.
      rw (lt→leb c.count 0 (omega (arith, h.count)))
        (ap (λ t. (cr_ok, first_iterator c, t)) (sym h.first)),
  ahead-Reads c (first_iterator c) xs (omega (arith, h.sparse, h.packed.room, h.packed.small))
      (omega arith) (omega (arith, h.count))
      (h.decodes c.bins h.packed.words (mod-eq_of_lt h.packed.clean)),
)
