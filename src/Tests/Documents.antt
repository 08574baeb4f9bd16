-- ===== src/Tests/Documents.antt =====
-- Runs of the whole engine.
use sift_core.HashMap
use sift_core.HashMap.{HashMap, nat_key, contains}
use sift_core.MemTable
use sift_core.MemTable.Reads
use sift_core.MemTable.{MemTable}
use sift_core.Lsm
use sift_core.Lsm.{LsmEngine}
use sift_core.Wal
use sift_core.Vector
use sift_core.Vector.{VectorIndex, Metric}
use sift_core.Vector.Rows.{Rows}
use sift_core.Text
use sift_core.Text.{Text, InvertedIndex, tokenize}
use sift_core.Text.Docs.{total_of}
use sift_core.Engine
use sift_core.Engine.{Engine, upsert, rebuild, get_blob}
use sift_core.Engine.Record.{encode_record, decode_record, u64_be}
use sift_core.Engine.RoundTrip.{decode_record-encode_record}
use sift_core.Engine.Cut.{decode_record_cut, Refused}
use sift_core.Engine.Agree.{Agrees, HasRoom, put_doc, upsert-Agrees, delete-Agrees}
use sift_core.Engine.Errors.{rebuild_mismatch}
use sift_core.Tests.Data.{calm_disk}
use sift_core.Tests.Digits.{
  Digit, digit_0, digit_1, digit_2, digits, digits_documented, ascii, ascii-Encodes,
}
use sift_core.Tests.Texts.{some_text, one_index, one_doc, one-Indexes}
use sift_core.Bytes.{Bytes, le_bytes, u32_le, u64_le, bytes_eq, cmp_bytes}
use sift_core.Prelude.{
  ◌≡◌, refl, ◌≢◌, List, [], ◌∷◌, ◌++◌, arith, ltb→lt, take, some, ◌==◌, if◌then◌else◌,
}
use sift_core.Key.{cmp}
use sift_core.Result.{ok}
use sift_core.Wal.{Wal}
use sift_core.Engine.Blobs.{get_blob-upsert}
use sift_core.Lsm.Flushes.{FlushRoom}
use sift_core.Lsm.Puts.{logged_engine}
use sift_core.Lsm.Tables.{IsStore}
use sift_core.Sstable.Versions.{versions}
use sift_core.Sstable.Records.{Fits}
use sift_core.Sstable.{value_bytes, encode_entry}
use sift_core.Lsm.Recovery.{entry_of}
use sift_core.Lsm.Durable.{put_record}
use sift_core.Vector.RemoveLast.{Without}
use sift_core.Fallible.{done}

abbrev pub first_row : List Digit
first_row = digit_1 ∷ digit_1 ∷ []

abbrev pub first_record : Bytes
first_record = encode_record digits ascii first_row some_text (7 ∷ 8 ∷ [])

decode_record-encode_record_example :
    decode_record digits ascii (first_record ++ (1 ∷ [])) ≡ done (first_row, some_text, 7 ∷ 8 ∷ [])
decode_record-encode_record_example =
    decode_record-encode_record digits ascii digits_documented ascii-Encodes first_row some_text
      (7 ∷ 8 ∷ []) (1 ∷ []) (omega arith) (omega arith) (omega arith)

decode_record_cut_example : Refused (decode_record digits ascii (take 20 first_record))
unfolding encode_record u32_le le_bytes
decode_record_cut_example =
    decode_record_cut digits ascii digits_documented ascii-Encodes first_row some_text (7 ∷ 8 ∷ [])
      20 (omega arith) (omega arith) (omega arith) (ltb→lt _ _ refl)

rebuild_mismatch_example :
    rebuild digits ascii ((u64_be 1, first_record) ∷ []) (Vector.new 3) Text.new
    ≢ done (Vector.new 3, Text.new)
unfolding Vector.new
rebuild_mismatch_example =
    rebuild_mismatch digits ascii digits_documented ascii-Encodes 1 first_row some_text (7 ∷ 8 ∷ [])
      [] [] (Vector.new 3) Text.new (Vector.new 3, Text.new) (omega arith) (omega arith)
      (omega arith) (λ e. omega (arith, e))

-- A store with the first document.
abbrev pub one_store : LsmEngine
one_store = record {
  wal = record { buffer = [] };
  memtable = MemTable.put MemTable.new (u64_be 1) first_record 1;
  tiers = [];
  next_seq = 2;
  next_sst_id = 1;
  flush_threshold_bytes = 4096;
}

abbrev pub one_row : Rows Digit
one_row = (1, first_row) ∷ []

abbrev pub one_engine : Engine Digit
one_engine = record {
  docs = one_store;
  vectors = record { dim = 2; ids = 1 ∷ []; cells = first_row };
  text = one_index;
}

pub one-Agrees : Agrees one_engine.vectors one_engine.text one_row one_doc
unfolding contains
one-Agrees = record {
  holds = record { ids = refl; cells = refl; widths = (refl, tt); distinct = (refl, tt) };
  indexes = one-Indexes;
  same_ids = λ id. refl;
}

abbrev next_row : List Digit
next_row = digit_0 ∷ digit_2 ∷ []

abbrev next_record : Bytes
next_record = encode_record digits ascii next_row (98 ∷ []) (9 ∷ [])

next_answers : (Lsm.put (u64_be 2) next_record one_store calm_disk).0 ≡ ok 2
unfolding Lsm.put Wal.sync MemTable.put encode_record u64_be MemTable.new u32_le
next_answers = refl

next-HasRoom : HasRoom ascii (98 ∷ []) one_doc
unfolding tokenize total_of
next-HasRoom = (omega arith, omega arith, omega arith)

upsert-Agrees_example :
    ((upsert digits ascii 2 next_row (98 ∷ []) (9 ∷ []) one_engine calm_disk).0 ≡ done tt)
    × ((upsert digits ascii 2 next_row (98 ∷ []) (9 ∷ []) one_engine calm_disk).1.vectors.dim ≡ 2)
    × Agrees
        (upsert digits ascii 2 next_row (98 ∷ []) (9 ∷ []) one_engine calm_disk).1.vectors
        (upsert digits ascii 2 next_row (98 ∷ []) (9 ∷ []) one_engine calm_disk).1.text
        (HashMap.insert 2 next_row one_row)
        (put_doc ascii 2 (98 ∷ []) one_doc)
upsert-Agrees_example =
    upsert-Agrees digits ascii 2 next_row (98 ∷ []) (9 ∷ []) one_engine calm_disk 2 one_row one_doc
      refl next-HasRoom one-Agrees next_answers

delete_answers : (Lsm.delete (u64_be 1) one_store calm_disk).0 ≡ ok 2
unfolding Lsm.delete Wal.sync MemTable.delete encode_record u64_be MemTable.new u32_le MemTable.put
delete_answers = refl

delete-Agrees_example :
    ((Engine.delete digits ascii 1 one_engine calm_disk).0 ≡ done tt)
    × ((Engine.delete digits ascii 1 one_engine calm_disk).1.vectors.dim ≡ 2)
    × (rows' : Rows Digit) × Without 1 one_row rows'
    × Agrees
        (Engine.delete digits ascii 1 one_engine calm_disk).1.vectors
        (Engine.delete digits ascii 1 one_engine calm_disk).1.text
        rows'
        (HashMap.remove 1 one_doc)
delete-Agrees_example =
    delete-Agrees digits ascii 1 one_engine calm_disk 2 one_row one_doc one-Agrees delete_answers

pub one-IsStore : IsStore one_store calm_disk []
unfolding MemTable.put MemTable.new value_bytes u64_be encode_record u32_le
one-IsStore = record {
  valid =
      (MemTable.Reads.write-IsValid MemTable.new (u64_be 1) first_record 1 (omega arith)
        MemTable.Reads.new-IsValid).0;
  fits = (record { key = omega arith; seq = omega arith; val = omega arith }, tt);
  stored = tt;
  aged = ((tt, tt), tt);
  older = (omega arith, tt);
  named = tt;
}

next-Fits : Fits (entry_of (put_record one_store (u64_be 2) next_record))
unfolding value_bytes u64_be encode_record u32_le
next-Fits = record { key = omega arith; seq = omega arith; val = omega arith }

next-FlushRoom :
    FlushRoom (logged_engine one_store calm_disk (put_record one_store (u64_be 2) next_record)) []
unfolding Lsm.apply_record MemTable.put MemTable.new encode_record u64_be u32_le encode_entry u64_le
    le_bytes value_bytes cmp cmp_bytes
next-FlushRoom = record { numbers = omega arith; estimate = ltb→lt _ _ refl; bounded = omega arith }

get_blob-upsert_example :
    get_blob digits ascii 1
      (upsert digits ascii 2 next_row (98 ∷ []) (9 ∷ []) one_engine calm_disk).1
      (upsert digits ascii 2 next_row (98 ∷ []) (9 ∷ []) one_engine calm_disk).2
    ≡ (if 2 == 1 then done (some (9 ∷ [])) else get_blob digits ascii 1 one_engine calm_disk)
unfolding versions bytes_eq cmp_bytes Lsm.apply_record MemTable.put MemTable.new u64_be cmp
get_blob-upsert_example =
    get_blob-upsert digits ascii digits_documented ascii-Encodes 2 next_row (98 ∷ []) (9 ∷ [])
      one_engine calm_disk [] 2 1 (omega arith) (omega arith) (omega arith) (omega arith)
      (omega arith) one-IsStore (omega arith) next-Fits next-FlushRoom (omega arith, tt)
      next_answers
