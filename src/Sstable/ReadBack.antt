-- ===== src/Sstable/ReadBack.antt =====
-- What is read from the file of a writer is the run of entries that it was given.
use sift_core.Sstable.Table.{get, open_bytes}
use sift_core.Sstable.{
  new_writer, add_entries, file_bytes, encode_index, encode_footer, SstableWriter,
}
use sift_core.Bytes.{Bytes}
use sift_core.Disk.{FileName}
use sift_core.Key.{Seq, Entry}
use sift_core.Key.Order.{IsSorted}
use sift_core.Key.Snapshot.{find_visible}
use sift_core.Prelude.{
  ℕ, ◌+◌, ◌^◌, ◌≤◌, ◌<◌, ◌≡◌, subst, sym, ap, List, ◌++◌, arith, length, All, length-append,
}
use sift_core.Result.{ok}
use sift_core.Sstable.Blocks.{sparse_of-IndexFits}
use sift_core.Sstable.Bloom.{BloomFilter, with_capacity}
use sift_core.Sstable.Bloom.Members.{add_all-shape, with_capacity-shape, add_all}
use sift_core.Sstable.Lookup.{Holds, length-le, get-Holds}
use sift_core.Sstable.OpenBack.{WriterFits, table_of, open_bytes-file_bytes}
use sift_core.Sstable.Records.{Fits, encode_entries}
use sift_core.Sstable.Search.{heads}
use sift_core.Sstable.Written.{keys_of, sparse_of, Written, add_entries-Written}
use sift_core.Sstable.Bloom.Marks.{with_capacity-IsValid}
use sift_core.Sstable.IndexBack.{IndexFits}
use sift_core.Sstable.Versions.{versions, heads-sparse_of}

-- The writer after a run of entries.
abbrev pub write_run : FileName → ℕ → List Entry → SstableWriter
write_run path expected es = add_entries (new_writer path expected) es

module _ (path : FileName) (expected : ℕ) (es : List Entry) (fits : All Fits es)
    (small : length (file_bytes (write_run path expected es)) < 2 ^ 60) where
  abbrev w : SstableWriter
  w = write_run path expected es

  written : Written (new_writer path expected) es
  written = add_entries-Written (new_writer path expected) es

  data_le : length w.data_block ≤ length (file_bytes w)
  unfolding file_bytes
  data_le = omega (
    arith,
    length-append w.data_block (
        encode_index w.sparse_index
        ++ (w.bloom.bits
            ++ encode_footer w w.offset (w.offset + length (encode_index w.sparse_index)))),
  )

  data-encode_entries : w.data_block ≡ encode_entries es
  unfolding new_writer
  data-encode_entries = written.data_block

  pub offset-encode_entries : w.offset ≡ length (encode_entries es)
  unfolding new_writer
  offset-encode_entries = omega (arith, written.offset)

  index-sparse_of : w.sparse_index ≡ sparse_of 0 0 es
  unfolding new_writer
  index-sparse_of = written.sparse_index

  bloom-add_all : w.bloom ≡ add_all (keys_of es) (with_capacity expected)
  unfolding new_writer
  bloom-add_all = written.bloom

  pub count-length : w.entry_count ≡ length es
  unfolding new_writer
  count-length = omega (arith, written.entry_count)

  -- A run whose file stays below 2 ^ 60 bytes is read back.
  pub write_run-WriterFits : WriterFits w
  write_run-WriterFits =
      let shape =
        add_all-shape (keys_of es) (with_capacity expected) (with_capacity-IsValid expected) in
      record {
        offset = omega (arith, offset-encode_entries, ap length data-encode_entries);
        index = subst (All IndexFits) (sym index-sparse_of) (
            sparse_of-IndexFits 0 0 es fits
              (omega (arith, small, data_le, ap length data-encode_entries)));
        small = small;
        count =
            omega
              (arith, count-length, length-le es, small, data_le, ap length data-encode_entries);
        bits = omega (
          arith,
          ap (λ (b : BloomFilter). b.num_bits) bloom-add_all,
          shape.0,
          (with_capacity-shape expected).0,
        );
        hashes = omega (
          arith,
          ap (λ (b : BloomFilter). b.num_hashes) bloom-add_all,
          shape.1,
          (with_capacity-shape expected).1,
        );
      }

  Holds-table_of :
      (place : FileName) (tail : Bytes)
      → file_bytes w ≡ encode_entries es ++ tail
      → Holds (table_of place w) es tail
  Holds-table_of place tail e = record {
    file = e;
    end = offset-encode_entries;
    index = index-sparse_of;
  }

  pub tail_of : (tail : Bytes) × (file_bytes w ≡ encode_entries es ++ tail)
  unfolding file_bytes
  tail_of = (
    encode_index w.sparse_index
        ++ (w.bloom.bits
            ++ encode_footer w w.offset (w.offset + length (encode_index w.sparse_index))),
    ap
        (λ d.
          d
          ++ (encode_index w.sparse_index
              ++ (w.bloom.bits
                  ++ encode_footer w w.offset (w.offset + length (encode_index w.sparse_index)))))
        data-encode_entries,
  )

  -- A table written from a sorted run whose entries fit their widths, in a file below 2 ^ 60
  -- bytes, opens under any name, and a lookup at any snapshot returns what the plain search of the
  -- run returns, if the run holds 16 versions of the key at most.
  pub get-write_run :
      (place : FileName) (key : Bytes) (as_of : Seq)
      → IsSorted es
      → versions key es ≤ 16
      → (open_bytes place (file_bytes w) ≡ ok (table_of place w))
        × (get (table_of place w) key as_of ≡ ok (find_visible key as_of es))
  get-write_run place key as_of sorted few = (
    open_bytes-file_bytes w write_run-WriterFits place,
    get-Holds (table_of place w) key as_of es tail_of.0 (with_capacity expected) fits sorted
        (Holds-table_of place tail_of.0 tail_of.1)
        (subst (λ xs. heads key xs ≤ 1) (sym index-sparse_of) (heads-sparse_of key es sorted few))
        (with_capacity-IsValid expected) bloom-add_all,
  )
