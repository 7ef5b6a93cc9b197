-- ===== src/Lib.antt =====
-- RedisTimeSeries keeps a series as a row of chunks of samples, each a 64-bit timestamp and a double.
-- This library is about the chunks, above all about the compressed one: the codec that packs samples
-- into an array of bits, and the operations that add, split, delete and insert samples; and about the
-- series, which adds to its chunks, drops them when they are too old, and deletes ranges of samples.
--
-- The parts and their files:
--   Generic (src/generic_chunk.h, src/generic_chunk.c, src/consts.h): `Sample`, `ChunkResult`,
--     `DuplicatePolicy`, and `handle_duplicate_sample` (`handleDuplicateSample`).
--   Gorilla (src/gorilla.h): the records `CompressedChunk` and `CompressedIterator`, with the source's
--     fields. `data` is called `bins`; the iterator's pointer to its chunk is an argument.
--   Gorilla/Bins (src/gorilla.c): fields of bits in an array of words: `append_bits` (`appendBits`),
--     `read_bits` (`readBits`), `zero_bits`, `int2bin`, `bin2int`, `bin_in_range` (`Bin_InRange`).
--   Gorilla/Append (src/gorilla.c): the encoder `append` (`Compressed_Append`), with
--     `append_integer` (`appendInteger`) for timestamps, `append_float` (`appendFloat`) for values,
--     and the rollback of a sample that does not fit.
--   Gorilla/Read (src/gorilla.c): the decoder `get_next` (`Compressed_ChunkIteratorGetNext`), with
--     `read_integer` (`readInteger`) and `read_float` (`readFloat`).
--   Compressed (src/compressed_chunk.c): `ensure_add_sample` (`ensureAddSample`), `trim_chunk`
--     (`trimChunk`), `split_chunk` (`Compressed_SplitChunk`), `del_range` (`Compressed_DelRange`).
--   Compressed/Upsert (src/compressed_chunk.c): `upsert_sample` (`Compressed_UpsertSample`).
--     `Generic.upsert_list` is what it is to do, on a list of samples.
--   Compressed/Decompress (src/compressed_chunk.c): `process_chunk` (`Compressed_ProcessChunk`), with
--     `decompress_chunk` (`decompressChunk`) and `decompress_chunk_reverse`, which fill the columns of
--     Enriched (src/enriched_chunk.c). Ranges has what a range of a list of samples is.
--   Compressed/Serial (src/compressed_chunk.c): `serialize` (`Compressed_Serialize`) and `deserialize`
--     (`COMPRESSED_DESERIALIZE`), over the stream of Fields (src/load_io_error_macros.h).
--   Compressed/Ends (src/compressed_chunk.c): the number of samples, the first timestamp, and the last
--     timestamp and value (`Compressed_GetLastTimestamp` and its like).
--   Uncompressed (src/chunk.c): the plain array of samples, with `add_sample`, `split_chunk` and
--     `del_range`; Uncompressed/Upsert has `upsert_sample` (`Uncompressed_UpsertSample`),
--     Uncompressed/Process `process_chunk`, Uncompressed/Serial the serialiser. The allocator is the
--     parameter `Uncompressed.Memory`: the contents of a new block are unknown.
--   Aggregation (src/compaction.h, src/compaction.c): the record `AggregationClass`, and what a caller
--     does with a context. Its children have one kind of context each (Single, Average, Weighted,
--     Deviation, and Extremes with src/compactions/compaction_common.h), then the tables in Statistics
--     and Class with `get_agg_class` (`GetAggClass`), then the proofs. Floats is the arithmetic.
--   Names (src/compaction.c, src/generic_chunk.c): the names of the aggregations and of the duplicate
--     policies, and their parsers; Texts has the bytes of a text.
--   BucketScan (src/filter_iterator.c): `find_last_index_before_ts` (`findLastIndexbeforeTS`).
--   ValueFilter (src/filter_iterator.c): `series_filter_val_get_next`
--     (`SeriesFilterValIterator_GetNextChunk`), over any iterator.
--   BucketStart (src/tsdb.h): `calc_bucket_start` (`CalcBucketStart`), `bucket_start_normalize`.
--   Chunks (src/generic_chunk.h, src/generic_chunk.c): the interface `ChunkFuncs`, and `ChunkLaws`, what
--     a series relies on; Chunks/Regular and Chunks/Compressed are the two tables (`regChunk`,
--     `comprChunk`) with their laws.
--   Dictionary: the server's ordered dictionary, a parameter, with its laws on the list of entries.
--   Series (src/tsdb.h, src/tsdb.c): `new_series` (`NewSeries`), `series_add_sample`
--     (`SeriesAddSample`), `series_trim` (`SeriesTrim`), `series_del_range` (`SeriesDelRange`), for any
--     chunk type and dictionary; Series/Upsert has `series_upsert_sample` (`SeriesUpsertSample`).
--     `Series.Stored.Stored` says which samples a series stores; the other
--     files under Series are the proofs. `memory` has the chunk at each address.
-- The compressed chunk's operations read one chunk through an iterator and add the samples to another,
-- which the encoder lengthens; the two meet in `Gorilla.Samples.Represents`, which says what list of
-- samples an iterator over the chunk, or over any longer one, will read. Gorilla/Stream reads the array
-- as one number, which the proofs about bits are about; the other files under Gorilla are the proofs
-- for one function each, and Common has the shared names, machine words and bit laws.
--
-- Numbers: a C integer of w bits is a natural number below 2 ^ w, with its wrap-around written out
-- (`u64`, `u8`, `sub64`); an int64 is its two's complement word. A double is its 64-bit pattern, which
-- is what the codec works on; the arithmetic and order of doubles that the duplicate policies use are
-- the record `Generic.Doubles`, a parameter. The arithmetic of the aggregations is another one,
-- `Floats.Floats`; laws of it are assumed only where a theorem names them. An array is a list; a read
-- outside it gives 0 and a write outside it nothing, and the invariant `Gorilla.Packed.IsPacked` keeps
-- both from happening. Uninitialised variables are arguments called `junk`; that for the address of a
-- chunk is `Dictionary.unwritten`.
--
-- Bounds: a code of one sample takes at most 147 bits, so that 32 more bytes always hold it. The
-- theorems on whole operations ask that the chunk's bytes, and 32 more for each sample that is
-- copied, stay below 2 ^ 31, where the `int` variables of the source hold every size and count.
-- Loops are structural recursion on their number of rounds; `copy_rest`, a `while` loop on the result
-- of the iterator, has one round of fuel more than the chunk has samples, and `none` stands for
-- running out of it as well as for a failed assertion. The loops of a series over its dictionary have
-- one round for each chunk, and one more that finds no entry.
--
-- Not modelled: allocation and freeing, logging, the DEBUG assertions, the vector instructions of
-- src/compactions (a machine with AVX2 takes them for MAX), and the other parts of the module:
-- compaction rules (a series here has none), queries but for the search in BucketScan and the filter
-- by value, labels, persistence, commands, clustering.
pub mod Common
pub mod Texts
pub mod Generic
pub mod Ranges
pub mod Enriched
pub mod Fields
pub mod Floats
pub mod Aggregation
pub mod Uncompressed
pub mod Names
pub mod BucketScan
pub mod BucketStart
pub mod ValueFilter
pub mod Chunks
pub mod Dictionary
pub mod Series
pub mod Gorilla
pub mod Compressed
