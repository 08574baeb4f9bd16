-- ===== src/Tests/Compactions.antt =====
-- Runs of writes that end in a flush and a compaction.
use sift_core.HashMap.{bytes_key}
use sift_core.MemTable
use sift_core.Lsm
use sift_core.Wal
use sift_core.Sstable.Bloom
use sift_core.MemTable.{MemTable}
use sift_core.Lsm.{flush, delete, LsmEngine, put, live, get_at}
use sift_core.Bytes.{le_bytes, from_le, u32_le, u64_le, cmp_bytes, bytes_eq}
use sift_core.Disk.{
  name_eq, lookup, without, store, create, write, sync_data, rename, read_file, contents,
}
use sift_core.Key.{Value, cmp}
use sift_core.Prelude.{List, ◌≡◌, refl, [], ◌∷◌, arith, ltb→lt, some, if◌then◌else◌, none}
use sift_core.Result.{ok}
use sift_core.Sstable.{
  file_bytes, new_writer, value_op, value_bytes, encode_entry, add_entry, add_entries, encode_index,
  encode_footer,
}
use sift_core.Tests.Data.{key_a, key_b}
use sift_core.Compaction.{
  should_compact, cmp_item, pop_least, refill, is_newest_for_key, emit, merge_loop, fill_heap,
  bytes_left, finish_and_rename, compact,
}
use sift_core.Hash.{fnv_step, fnv1a}
use sift_core.Reader.{read_exact}
use sift_core.Sstable.Bloom.{with_capacity, hashes, bit_of, add_loop}
use sift_core.Sstable.Iter.{open_iter, next}
use sift_core.Sstable.Table.{footer_word, footer_of, record_body, read_record}
use sift_core.Wal.{Wal}
use sift_core.Lsm.Durable.{put_record, after_write, delete_record}
use sift_core.Lsm.Puts.{get-put, get-delete}
use sift_core.Lsm.Answers.{put-get_answers}
use sift_core.Lsm.Tables.{IsStore, Few}
use sift_core.Sstable.Versions.{versions}
use sift_core.Wal.Torn.{log_one}
use sift_core.Lsm.Flushes.{FlushRoom}
use sift_core.Key.{Entry}
use sift_core.Lsm.FlushedReads.{get-flush}
use sift_core.Lsm.Writes.{after_write-IsStore}
use sift_core.Tests.OldStore.{old_runs, old_disk, old_store, entry-Fits, old_store-IsStore, old-Few}

put_compacts : (put key_a (5 ∷ []) old_store old_disk).0 ≡ ok 4
unfolding put create finish_and_rename write sync_data rename lookup store name_eq add_entries
    MemTable.put MemTable.new new_writer MemTable.is_empty Wal.reset should_compact Wal.sync compact
    open_iter read_file footer_word footer_of file_bytes encode_index encode_footer Bloom.add
    with_capacity add_entry encode_entry u32_le u64_le le_bytes value_op value_bytes from_le next
    read_record record_body read_exact fill_heap refill bytes_left merge_loop pop_least cmp_item cmp
    cmp_bytes emit is_newest_for_key bytes_eq hashes fnv1a fnv_step add_loop bit_of without contents
put_compacts = refl

-- The put of a value that ends in a flush and a compaction.
abbrev put_room : LsmEngine
put_room =
    after_write old_store (put_record old_store key_a (5 ∷ []))
      (log_one old_store.wal (put_record old_store key_a (5 ∷ [])) old_disk).1

put_room-FlushRoom : FlushRoom put_room old_runs
unfolding Lsm.apply_record MemTable.put MemTable.new encode_entry u32_le u64_le le_bytes value_bytes
put_room-FlushRoom = record {
  numbers = omega arith;
  estimate = ltb→lt _ _ refl;
  bounded = ltb→lt _ _ refl;
}

get-put_example :
    Lsm.get
      (put key_a (5 ∷ []) old_store old_disk).1
      key_b
      (put key_a (5 ∷ []) old_store old_disk).2
    ≡ (if bytes_eq key_a key_b then ok (some (5 ∷ [])) else Lsm.get old_store key_b old_disk)
unfolding value_bytes versions bytes_eq cmp_bytes Lsm.apply_record MemTable.put MemTable.new
get-put_example =
    get-put old_store old_disk old_runs old_store-IsStore (omega arith) key_a (5 ∷ []) 4 key_b
      (entry-Fits key_a 4 (Value.put (5 ∷ [])) (omega arith) (omega arith) (omega arith))
      put_room-FlushRoom (omega arith, old-Few) put_compacts

put-get_answers_example :
    ((put key_a (5 ∷ []) old_store old_disk).0 ≡ ok 4)
    × (Lsm.get
          (put key_a (5 ∷ []) old_store old_disk).1
          key_b
          (put key_a (5 ∷ []) old_store old_disk).2
        ≡ (if bytes_eq key_a key_b then ok (some (5 ∷ [])) else Lsm.get old_store key_b old_disk))
unfolding value_bytes versions bytes_eq cmp_bytes Lsm.apply_record MemTable.put MemTable.new
put-get_answers_example =
    put-get_answers old_store old_disk old_runs old_store-IsStore (omega arith) refl key_a (5 ∷ [])
      key_b (entry-Fits key_a 4 (Value.put (5 ∷ [])) (omega arith) (omega arith) (omega arith))
      put_room-FlushRoom (omega arith, old-Few)

delete_compacts : (delete key_b old_store old_disk).0 ≡ ok 4
unfolding delete create finish_and_rename write sync_data rename lookup store name_eq add_entries
    MemTable.delete MemTable.new new_writer MemTable.is_empty Wal.reset should_compact Wal.sync
    compact open_iter read_file footer_word footer_of file_bytes encode_index encode_footer
    Bloom.add with_capacity add_entry encode_entry u32_le u64_le le_bytes value_op value_bytes
    from_le next read_record record_body read_exact fill_heap refill bytes_left merge_loop pop_least
    cmp_item cmp cmp_bytes emit is_newest_for_key bytes_eq hashes fnv1a fnv_step add_loop bit_of
    without contents
delete_compacts = refl

abbrev delete_room : LsmEngine
delete_room =
    after_write old_store (delete_record old_store key_b)
      (log_one old_store.wal (delete_record old_store key_b) old_disk).1

delete_room-FlushRoom : FlushRoom delete_room old_runs
unfolding Lsm.apply_record MemTable.delete MemTable.new encode_entry u32_le u64_le le_bytes
    value_bytes
delete_room-FlushRoom = record {
  numbers = omega arith;
  estimate = ltb→lt _ _ refl;
  bounded = ltb→lt _ _ refl;
}

get-delete_example :
    Lsm.get (delete key_b old_store old_disk).1 key_b (delete key_b old_store old_disk).2
    ≡ (if bytes_eq key_b key_b then ok none else Lsm.get old_store key_b old_disk)
unfolding value_bytes versions bytes_eq cmp_bytes Lsm.apply_record MemTable.delete MemTable.new
get-delete_example =
    get-delete old_store old_disk old_runs old_store-IsStore (omega arith) key_b 4 key_b
      (entry-Fits key_b 4 Value.delete (omega arith) (omega arith) (omega arith))
      delete_room-FlushRoom (omega arith, old-Few) delete_compacts

put_room-IsStore : IsStore put_room old_disk old_runs
unfolding value_bytes
put_room-IsStore =
    after_write-IsStore old_store old_disk old_disk old_runs (put_record old_store key_a (5 ∷ [])) _
      old_store-IsStore refl
      (entry-Fits key_a 4 (Value.put (5 ∷ [])) (omega arith) (omega arith) (omega arith))
      (omega arith) (refl, (refl, (refl, tt)))

flush_compacts : (flush put_room old_disk).0 ≡ ok tt
unfolding flush Lsm.apply_record create finish_and_rename write sync_data rename lookup store
    name_eq add_entries MemTable.put MemTable.new new_writer MemTable.is_empty Wal.reset
    should_compact Wal.sync compact open_iter read_file footer_word footer_of file_bytes
    encode_index encode_footer Bloom.add with_capacity add_entry encode_entry u32_le u64_le le_bytes
    value_op value_bytes from_le next read_record record_body read_exact fill_heap refill bytes_left
    merge_loop pop_least cmp_item cmp cmp_bytes emit is_newest_for_key bytes_eq hashes fnv1a
    fnv_step add_loop bit_of without contents
flush_compacts = refl

get-flush_example :
    (runs' : List (List Entry)) × IsStore
      (flush put_room old_disk).1
      (flush put_room old_disk).2
      runs'
    × Few key_b ((flush put_room old_disk).1.memtable.entries ∷ runs')
    × (Lsm.get (flush put_room old_disk).1 key_b (flush put_room old_disk).2
        ≡ Lsm.get put_room key_b old_disk)
unfolding versions bytes_eq cmp_bytes Lsm.apply_record MemTable.put MemTable.new
get-flush_example =
    get-flush put_room old_disk old_runs key_b put_room-IsStore put_room-FlushRoom
      (omega arith, old-Few) flush_compacts
