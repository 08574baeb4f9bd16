-- ===== src/Lib.antt =====
-- sift-core: a model of the crate, and the theorems that make it correct.
--
-- The crate is a document store with a hybrid search. The engine (src/engine.rs) keeps one record per
-- document in the storage engine, and derives two indexes from them in memory: a vector index
-- (src/vector.rs) and an inverted text index (src/text.rs). A query asks both and fuses their ranks
-- (src/fusion.rs). The storage engine (src/lsm.rs) writes every mutation to a
-- write-ahead log (src/wal.rs), then to a sorted buffer in memory (src/memtable.rs). The buffer is
-- flushed to immutable sorted tables (src/sstable.rs), which a compaction (src/compaction.rs) merges.
-- A read asks the buffer and then the tables from the newest to the oldest. Keys carry a sequence
-- number, and a read sees the newest version up to its snapshot (src/lib.rs).
--
-- Files and what they model:
-- - Key: `Seq`, `InternalKey` with its order, and `Value` of src/lib.rs. Key/Snapshot has the plain
--   search `find_visible`, the reference that all reads are compared with.
-- - MemTable: src/memtable.rs. The `BTreeMap` is the list of its entries in order.
-- - Hash, Wal: src/wal.rs. `append` and `sync` move bytes through the buffer of the `BufWriter` to
--   the file; `replay` is a loop of `next_record`, one round of the loop of the source. The rounds
--   have the length of the input as fuel: every round takes 25 bytes at least.
-- - Sstable: `SSTableWriter` of src/sstable.rs and the bytes of the file. Sstable/Bloom is
--   `BloomFilter`, Sstable/Table is `SSTable` (`open_bytes` is `open` on the bytes of a file, `get`
--   the point lookup), Sstable/Iter is `SSTableIter`. The loop of `get` has one round more than the
--   data block has bytes; every round passes a record of 17 bytes at least. `binary_search_by` is
--   written out as the standard library's halving loop.
-- - Compaction: src/compaction.rs. The heap is a list from which the least item is taken. The merge
--   has the bytes of all inputs and one for each of them as fuel; every round takes an item off.
--   Compaction/Inputs has the abstract inputs of a merge, between its heap, its buffer and its
--   iterators; Compaction/Surviving what a merge writes of the entries that it takes; Compaction/Stored
--   the tables of a directory with the runs that they hold; Compaction/Newest runs ordered by age.
-- - Lsm: src/lsm.rs, `put`, `delete`, `get_at`, `flush` and `maybe_compact`; Lsm/Open is `open` and
--   Lsm/Scan is `iter_all`. A method takes the engine and the disk and returns both with a result.
--   Lsm/Tables has the invariant `IsStore` between the memtable and the tables, `Few`, the bound of 16
--   versions of a key in one table, and Lsm/Flushes `FlushRoom`, the room that a flush needs.
--   Lsm/Calm has `IsCalm`, a fault schedule with nothing left in it.
-- - HashMap: `std::collections::HashMap` as an association list; its laws are those of a map.
-- - Vector: src/vector.rs. Vector/Kernel has the distance kernels, Vector/Search the scan. Ranking is
--   the sort by scores that three files call and the bounded heap of the scan.
-- - Text: src/text.rs. Text/Docs has the abstract view, a map from documents to their tokens.
-- - Fusion: src/fusion.rs.
-- - Engine: src/engine.rs. Engine/Record is the record of a document, with its errors; `upsert_indexes`,
--   `delete_indexes`, `rebuild` and `fetch_hits` are parts of `upsert`, `delete`, `open` and `query`.
-- - Fallible: a result with an error of the crate. Floats, and `Unicode` of Text: the parameters for
--   `f32` and for what the text index uses of `char` and `str`. `Documented` and `Encodes` are what
--   their documentation says: an order of the values but NaN, and that bits and UTF-8 read back.
-- - Disk, Reader, Result: what the sources use of `std::fs`, `std::io::Read` and `io::Result`. A disk
--   is a directory of byte strings and a schedule of faults; a write that fails may have written any
--   front of its bytes. A crash is a fault whose error ends the program. Panics are a third outcome.
-- - Prelude, Bytes, Bits: shared names, lists over the native numbers, little-endian words, the order
--   of byte strings, and the bits of a byte.
-- - Tests: runs at concrete inputs.
--
-- Bounds. Integers keep their wrap-around where the source can reach it; `usize` has 64 bits. Lengths
-- in records are 32-bit fields, so the round trips ask that keys and values fit them. Files are below
-- 2 ^ 60 bytes. Sequence numbers and table numbers wrap at 2 ^ 64.
--
-- How the model stands to the code. A `BufWriter` hands large records to the file early; the model
-- makes one write of them at the next flush, and the fault of that write stands for a fault at any of
-- its parts. A log is written at its end. The handle that `reset` opens keeps a position instead of
-- appending, which is the end of the log unless a dropped log has written what it held back behind
-- the truncation; from there on the model does not follow the position. Reads of files do not fail by themselves. A table carries the bytes of its file, which
-- nothing changes once it has its name. `iter_all` and the indexes list a hash map in the order of
-- insertion; the real order is not documented, so ties between scores may come in another order. The
-- heap of the vector search is a list; among equal scores `BinaryHeap` may drop another item, and the
-- model of its order does not hold for NaN, which the theorems exclude. The kernels read rows of one
-- length. `+=` and `k * 4` wrap around as in a release build.
--
-- Not modelled: src/main.rs, a demonstration that prints, the benchmarks and the tests of the crate;
-- the texts that `Display` gives; running out of memory.
pub mod Prelude
pub mod Bytes
pub mod Key
pub mod Result
pub mod Reader
pub mod Disk
pub mod MemTable
pub mod Hash
pub mod Wal
pub mod Bits
pub mod Sstable
pub mod Compaction
pub mod Lsm
pub mod HashMap
pub mod Floats
pub mod Ranking
pub mod Fallible
pub mod Vector
pub mod Text
pub mod Fusion
pub mod Engine
pub mod Tests
