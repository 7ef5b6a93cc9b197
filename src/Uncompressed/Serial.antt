-- ===== src/Uncompressed/Serial.antt =====
-- Saving and loading an uncompressed chunk (src/chunk.c).
use redis_time_series.Common.{
  ℕ, zero, suc, ◌<◌, ◌≡◌, refl, ap, Option, some, none, List, [], ◌∷◌, ◌++◌, take, arith, u32,
}
use redis_time_series.Generic.{Sample}
use redis_time_series.Fields.{Field, unsigned, string_buffer, load_unsigned, load_string_buffer}
use redis_time_series.Uncompressed.{Chunk}
use redis_time_series.Uncompressed.Stores.{Stores}

-- `Uncompressed_GenericSerialize`, which `Uncompressed_SaveToRDB` and `Uncompressed_MRSerialize`
-- call.
unfoldable pub serialize : Chunk → List (Field Sample)
serialize c =
    unsigned c.base_timestamp
    ∷ unsigned c.num_samples
    ∷ unsigned c.size
    ∷ string_buffer c.samples
    ∷ []

-- `UNCOMPRESSED_DESERIALIZE`: `none` is TSDB_ERROR, else the chunk and the rest of the stream.
unfoldable pub deserialize : List (Field Sample) → Option (Chunk × List (Field Sample))
deserialize io = load_unsigned io λ base_timestamp io1. load_unsigned io1 λ num_samples io2.
    load_unsigned io2 λ size io3. load_string_buffer io3 λ samples io4. some (
      record {
        base_timestamp = base_timestamp;
        samples = samples;
        num_samples = u32 num_samples;
        size = size;
      },
      io4,
    )

-- A chunk that was saved is loaded as it was, and the loader stops where the chunk ends. Of a stream
-- that breaks off within the chunk nothing is loaded.
pub deserialize_whole_or_none :
    (c : Chunk) (xs : List Sample) (rest : List (Field Sample)) (n : ℕ)
    → Stores c xs
    → n < 4
    → (deserialize (serialize c ++ rest) ≡ some (c, rest))
      × (deserialize (take n (serialize c)) ≡ none)
unfolding deserialize serialize load_unsigned load_string_buffer
deserialize_whole_or_none c xs rest n h few = (whole, part n few)
  where
    whole : deserialize (serialize c ++ rest) ≡ some (c, rest)
    whole =
        let e : u32 c.num_samples ≡ c.num_samples = omega (arith, h.count, h.room, h.small) in
        ap (λ t. some (record c { num_samples = t }, rest)) e

    part : (n : ℕ) → n < 4 → deserialize (take n (serialize c)) ≡ none
    part zero h = refl
    part (suc zero) h = refl
    part (suc (suc zero)) h = refl
    part (suc (suc (suc zero))) h = refl
    part (suc (suc (suc (suc n)))) h = absurd (omega arith)
