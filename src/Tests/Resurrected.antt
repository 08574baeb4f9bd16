-- ===== src/Tests/Resurrected.antt =====
-- A run in which the removal of one input fails behind a compaction: the deleted key is back.
use sift_core.Sstable.Bloom
use sift_core.Sstable.Table
use sift_core.Bytes.{le_bytes, from_le, u32_le, u64_le, cmp_bytes, bytes_eq}
use sift_core.Compaction.{
  cmp_item, pop_least, refill, is_newest_for_key, emit, merge_loop, fill_heap, bytes_left,
  finish_and_rename, compact, lookup_in_tiers,
}
use sift_core.Disk.{
  name_eq, pass, fail, Disk, lookup, without, store, contents, create, write, sync_data, rename,
  remove_file, read_file,
}
use sift_core.Hash.{fnv_step, fnv1a}
use sift_core.Key.{max_seq, Value, cmp}
use sift_core.Lsm.{remove_inputs}
use sift_core.Lsm.Open.{table_ids, sort_desc}
use sift_core.Prelude.{◌≡◌, refl, true, some, [], ◌∷◌}
use sift_core.Reader.{read_exact}
use sift_core.Result.{ok}
use sift_core.Sstable.{
  new_writer, value_op, value_bytes, encode_entry, add_entry, add_entries, encode_index,
  encode_footer, file_bytes, meta_of,
}
use sift_core.Sstable.Bloom.{with_capacity, hashes, bit_of, add_loop, might_contain, from_raw}
use sift_core.Sstable.Iter.{open_iter, next}
use sift_core.Sstable.Table.{
  next_index_entry, parse_index, footer_word, footer_of, read_blocks, open_bytes, open_table,
  record_body, read_record, search_position, block_start_offset, get_loop,
}
use sift_core.Tests.Data.{key_a, key_b}
use sift_core.Tests.OldStore.{table, old_tables, old_disk}

-- The last of the calls, the removal of the oldest table, fails.
abbrev stubborn_disk : Disk
stubborn_disk = record old_disk { faults = pass ∷ pass ∷ pass ∷ pass ∷ pass ∷ pass ∷ fail 0 ∷ [] }

abbrev left_disk : Disk
left_disk = remove_inputs old_tables (compact old_tables 4 true stubborn_disk).1

-- Before the compaction the key is deleted.
deleted_before : lookup_in_tiers old_tables key_a max_seq stubborn_disk ≡ ok (some Value.delete)
unfolding create finish_and_rename write sync_data rename lookup store name_eq add_entries
    new_writer compact open_iter read_file footer_word footer_of file_bytes encode_index
    encode_footer Bloom.add with_capacity add_entry encode_entry u32_le u64_le le_bytes value_op
    value_bytes from_le next read_record record_body read_exact fill_heap refill bytes_left
    merge_loop pop_least cmp_item cmp cmp_bytes emit is_newest_for_key bytes_eq hashes fnv1a
    fnv_step add_loop bit_of without contents meta_of remove_inputs remove_file lookup_in_tiers
    open_table open_bytes read_blocks parse_index next_index_entry Table.get might_contain get_loop
    block_start_offset search_position table_ids sort_desc from_raw
deleted_before = refl

-- Behind it the directory lists the merged table and the oldest one.
tables_left : sort_desc (table_ids left_disk.files) ≡ 4 ∷ 1 ∷ []
unfolding create finish_and_rename write sync_data rename lookup store name_eq add_entries
    new_writer compact open_iter read_file footer_word footer_of file_bytes encode_index
    encode_footer Bloom.add with_capacity add_entry encode_entry u32_le u64_le le_bytes value_op
    value_bytes from_le next read_record record_body read_exact fill_heap refill bytes_left
    merge_loop pop_least cmp_item cmp cmp_bytes emit is_newest_for_key bytes_eq hashes fnv1a
    fnv_step add_loop bit_of without contents meta_of remove_inputs remove_file lookup_in_tiers
    open_table open_bytes read_blocks parse_index next_index_entry Table.get might_contain get_loop
    block_start_offset search_position table_ids sort_desc from_raw
tables_left = refl

-- And a lookup in the listed tables finds the value that was deleted.
found_again :
    lookup_in_tiers (table 4 key_b ∷ table 1 key_a ∷ []) key_a max_seq left_disk
    ≡ ok (some (Value.put (7 ∷ [])))
unfolding create finish_and_rename write sync_data rename lookup store name_eq add_entries
    new_writer compact open_iter read_file footer_word footer_of file_bytes encode_index
    encode_footer Bloom.add with_capacity add_entry encode_entry u32_le u64_le le_bytes value_op
    value_bytes from_le next read_record record_body read_exact fill_heap refill bytes_left
    merge_loop pop_least cmp_item cmp cmp_bytes emit is_newest_for_key bytes_eq hashes fnv1a
    fnv_step add_loop bit_of without contents meta_of remove_inputs remove_file lookup_in_tiers
    open_table open_bytes read_blocks parse_index next_index_entry Table.get might_contain get_loop
    block_start_offset search_position table_ids sort_desc from_raw
found_again = refl
