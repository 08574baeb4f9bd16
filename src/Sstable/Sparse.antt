-- ===== src/Sstable/Sparse.antt =====
-- How sparse the index of a table is (src/sstable.rs, `SSTableWriter::add`).
use sift_core.Disk.{FileName}
use sift_core.Key.{Entry}
use sift_core.Prelude.{ℕ, ◌+◌, ◌/◌, ◌%◌, ◌<◌, ◌≡◌, ap, List, [], ◌∷◌, arith, length}
use sift_core.Sstable.{new_writer, encode_entry}
use sift_core.Sstable.ReadBack.{write_run}
use sift_core.Sstable.Written.{sparse_of, add_entries-Written}

length-sparse_of :
    (since off : ℕ) (es : List Entry)
    → since < 16
    → length (sparse_of since off es) + (since + 15) / 16 ≡ (length es + since + 15) / 16
length-sparse_of since off [] h = omega (arith, h)
length-sparse_of since off (e ∷ es) h =
    let rest =
      length-sparse_of ((since + 1) % 16) (off + length (encode_entry e)) es (omega (arith, h)) in
    ground (arith, rest, h)

-- The table that a writer makes of entries has one index entry for every 16 of them, rounded up,
-- whatever the entries are.
pub length-sparse_index :
    (path : FileName) (expected : ℕ) (es : List Entry)
    → length (write_run path expected es).sparse_index ≡ (length es + 15) / 16
unfolding new_writer
length-sparse_index path expected es =
    let written = add_entries-Written (new_writer path expected) es in
    omega (arith, ap length written.sparse_index, length-sparse_of 0 0 es)
