-- ===== src/Compressed/Serial.antt =====
-- Saving and loading a compressed chunk (src/compressed_chunk.c).
use redis_time_series.Common.{
  ℕ, zero, suc, ◌^◌, ◌<◌, ◌≡◌, refl, Option, some, none, List, [], ◌∷◌, ◌++◌, take, u8, arith,
}
use redis_time_series.Fields.{Field, unsigned, string_buffer, load_unsigned, load_string_buffer}
use redis_time_series.Gorilla.{CompressedChunk}

-- `Compressed_Serialize`, which `Compressed_SaveToRDB` and `Compressed_MRSerialize` call.
unfoldable pub serialize : CompressedChunk → List (Field ℕ)
serialize c =
    unsigned c.size
    ∷ unsigned c.count
    ∷ unsigned c.idx
    ∷ unsigned c.base_value
    ∷ unsigned c.base_timestamp
    ∷ unsigned c.prev_timestamp
    ∷ unsigned c.prev_timestamp_delta
    ∷ unsigned c.prev_value
    ∷ unsigned c.prev_leading
    ∷ unsigned c.prev_trailing
    ∷ string_buffer c.bins
    ∷ []

-- `COMPRESSED_DESERIALIZE`: `none` is TSDB_ERROR, else the chunk and the rest of the stream. The
-- last two numbers are stored in bytes.
unfoldable pub deserialize : List (Field ℕ) → Option (CompressedChunk × List (Field ℕ))
deserialize io = load_unsigned io λ size io1. load_unsigned io1 λ count io2.
    load_unsigned io2 λ idx io3. load_unsigned io3 λ base_value io4.
      load_unsigned io4 λ base_timestamp io5. load_unsigned io5 λ prev_timestamp io6.
        load_unsigned io6 λ prev_timestamp_delta io7. load_unsigned io7 λ prev_value io8.
          load_unsigned io8 λ prev_leading io9. load_unsigned io9 λ prev_trailing io10.
            load_string_buffer io10 λ bins io11. some (
              record {
                size = size;
                count = count;
                idx = idx;
                base_value = base_value;
                base_timestamp = base_timestamp;
                bins = bins;
                prev_timestamp = prev_timestamp;
                prev_timestamp_delta = prev_timestamp_delta;
                prev_value = prev_value;
                prev_leading = u8 prev_leading;
                prev_trailing = u8 prev_trailing;
              },
              io11,
            )

-- A chunk that was saved is loaded as it was, bit for bit, and the loader stops where the chunk ends.
pub deserialize-serialize :
    (c : CompressedChunk) (rest : List (Field ℕ))
    → c.prev_leading < 2 ^ 8
    → c.prev_trailing < 2 ^ 8
    → deserialize (serialize c ++ rest) ≡ some (c, rest)
unfolding deserialize serialize load_unsigned load_string_buffer
deserialize-serialize c rest a b =
    rw
      (
        let e : u8 c.prev_leading ≡ c.prev_leading = omega arith in e,
        let e : u8 c.prev_trailing ≡ c.prev_trailing = omega arith in e,
      )
      refl

-- Of a stream that breaks off within the chunk nothing is loaded.
pub deserialize_truncated :
    (c : CompressedChunk) (n : ℕ) → n < 11 → deserialize (take n (serialize c)) ≡ none
unfolding deserialize serialize load_unsigned load_string_buffer
deserialize_truncated c zero h = refl
deserialize_truncated c (suc zero) h = refl
deserialize_truncated c (suc (suc zero)) h = refl
deserialize_truncated c (suc (suc (suc zero))) h = refl
deserialize_truncated c (suc (suc (suc (suc zero)))) h = refl
deserialize_truncated c (suc (suc (suc (suc (suc zero))))) h = refl
deserialize_truncated c (suc (suc (suc (suc (suc (suc zero)))))) h = refl
deserialize_truncated c (suc (suc (suc (suc (suc (suc (suc zero))))))) h = refl
deserialize_truncated c (suc (suc (suc (suc (suc (suc (suc (suc zero)))))))) h = refl
deserialize_truncated c (suc (suc (suc (suc (suc (suc (suc (suc (suc zero))))))))) h = refl
deserialize_truncated c (suc (suc (suc (suc (suc (suc (suc (suc (suc (suc zero)))))))))) h = refl
deserialize_truncated c (suc (suc (suc (suc (suc (suc (suc (suc (suc (suc (suc n))))))))))) h =
    absurd (omega arith)
