-- ===== src/Sstable/Iter.antt =====
-- src/sstable.rs, `SSTableIter`: the scan of a table.
use sift_core.Bytes.{Bytes}
use sift_core.Disk.{FileName, Disk, read_file}
use sift_core.Key.{Entry}
use sift_core.Prelude.{ℕ, ◌-◌, not, Option, none, some, ltb, ◌==◌, if◌then◌else◌, length}
use sift_core.Result.{invalid_data, Result, ok, err, panicked}
use sift_core.Sstable.{footer_magic, footer_size}
use sift_core.Sstable.Table.{footer_word, footer_of, read_record}

-- `struct SSTableIter`: what the reader has not reached, and the bytes of the data block left.
pub record SstableIter : Type 0 where
  pub rest : Bytes
  pub remaining : ℕ

-- `SSTableIter::open`.
unfoldable pub open_iter : FileName → Disk → Result SstableIter
unfolding footer_word footer_of
open_iter path d = elim (read_file path d) [
  | ok file ↦
      if ltb (length file) footer_size
      then err invalid_data
      else if not (footer_word (footer_of file) 6 == footer_magic)
      then err invalid_data
      else ok (record { rest = file; remaining = footer_word (footer_of file) 0 })
  | err e ↦ err e
  | panicked ↦ panicked
]

-- `<SSTableIter as Iterator>::next`: the item, and the iterator behind it.
unfoldable pub next : SstableIter → Result (Option (Entry × SstableIter))
unfolding read_record
next it = if it.remaining == 0 then ok none else elim (read_record it.rest) [
  | ok none ↦ ok none
  | ok (some (rec, rest)) ↦ ok (
      some (
        (record { user_key = rec.user_key; seq = rec.seq }, rec.value),
        record { rest = rest; remaining = it.remaining - rec.encoded_len },
      ))
  | err e ↦ err e
  | panicked ↦ panicked
]
