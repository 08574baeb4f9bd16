-- ===== src/Wal.antt =====
-- src/wal.rs: the write-ahead log.
pub mod Replay
pub mod Rounds
pub mod Torn
use sift_core.Bytes.{Bytes, from_le, u32_le, u64_le}
use sift_core.Disk.{
  wal_log, Fault, pass, fail, Disk, lookup, next_fault, create, open_append, write, sync_data,
}
use sift_core.Hash.{fnv1a}
use sift_core.Key.{Seq}
use sift_core.Prelude.{
  ℕ, zero, suc, not, Option, none, some, List, [], ◌∷◌, ◌++◌, ◌==◌, if◌then◌else◌, length, get_or,
  drop,
}
use sift_core.Reader.{◌>>=◌, Reader, pure, raise, read_exact}
use sift_core.Result.{invalid_data, Result, ok, err, panicked}

pub data Op : Type 0 where
  put : Op
  delete : Op

pub record WalRecord : Type 0 where
  pub seq : Seq
  pub op : Op
  pub key : Bytes
  pub val : Bytes

-- `op as u8`.
unfoldable pub op_byte : Op → ℕ
op_byte put = 0
op_byte delete = 1

-- The body of a record, which its checksum covers.
unfoldable pub encode_body : Seq → Op → Bytes → Bytes → Bytes
unfolding op_byte
encode_body seq op key val =
    u64_le seq
    ++ ((op_byte op ∷ []) ++ (u32_le (length key) ++ (key ++ (u32_le (length val) ++ val))))

-- The bytes of a record: its checksum and its body.
unfoldable pub encode : Seq → Op → Bytes → Bytes → Bytes
unfolding encode_body
encode seq op key val = let body = encode_body seq op key val in u64_le (fnv1a body) ++ body

-- `struct Wal`: what its `BufWriter` holds back.
pub record Wal : Type 0 where
  pub buffer : Bytes

-- The log that an opened file gives, with nothing held back.
unfoldable pub fresh : Result (Unit {0}) → Result Wal
fresh (ok u) = ok (record { buffer = [] })
fresh (err e) = err e
fresh panicked = panicked

-- `Wal::open`.
unfoldable pub open_log : Disk → Result Wal × Disk
unfolding open_append fresh
open_log d = let (r, d') = open_append wal_log d in (fresh r, d')

-- `Wal::append`: the two writes go to the buffer.
unfoldable pub append : Wal → Seq → Op → Bytes → Bytes → Wal
unfolding encode
append w seq op key val = record { buffer = w.buffer ++ encode seq op key val }

-- What the buffer keeps after a flush: nothing, or what a failed write left over.
unfoldable pub unwritten : Fault → Bytes → Bytes
unwritten pass b = []
unwritten (fail k) b = drop k b

-- `Wal::sync`: flush the buffer, then `sync_data`.
unfoldable pub sync : Wal → Disk → Result (Unit {0}) × Wal × Disk
unfolding unwritten write sync_data
sync w d =
    let (r, d1) = write wal_log w.buffer d in
    let w1 : Wal = record { buffer = unwritten (next_fault d.faults) w.buffer } in
    elim r [
      | ok u ↦ let (s, d2) = sync_data d1 in (s, w1, d2)
      | err e ↦ (err e, w1, d1)
      | panicked ↦ (panicked, w1, d1)
    ]

-- `Wal::reset`: truncate the log.
unfoldable pub reset : Disk → Result Wal × Disk
unfolding create fresh
reset d = let (r, d') = create wal_log d in (fresh r, d')

-- The drop of a writer that was replaced: its `BufWriter` writes what it holds back, if it holds
-- anything back, and the result is lost.
unfoldable pub drop_writer : Wal → Disk → Disk
unfolding write
drop_writer w d = elim w.buffer [ [] ↦ d | b ∷ bs ↦ (write wal_log (b ∷ bs) d).1 ]

-- An unknown op byte is treated as corruption.
unfoldable pub op_of : ℕ → Option Op
op_of b = if b == 0 then some put else if b == 1 then some delete else none

-- The record whose fields were read, if the checksum and the op byte are those of a record.
unfoldable pub check_record :
    Bytes → Bytes → Bytes → Bytes → Bytes → Bytes → Bytes → Reader WalRecord
unfolding op_of
check_record checksum_buf seq_buf op_buf key_len_buf key val_len_buf val =
    let body = seq_buf ++ (op_buf ++ (key_len_buf ++ (key ++ (val_len_buf ++ val)))) in
    if not (fnv1a body == from_le checksum_buf)
    then raise invalid_data
    else elim (op_of (get_or op_buf 0 0)) [
      | none ↦ raise invalid_data
      | some op ↦ pure (record { seq = from_le seq_buf; op = op; key = key; val = val })
    ]

-- One round of the loop of `replay`. Every failure of it is a `break`.
unfoldable pub next_record : Reader WalRecord
unfolding check_record
next_record = do
  checksum_buf ← read_exact 8
  seq_buf ← read_exact 8
  op_buf ← read_exact 1
  key_len_buf ← read_exact 4
  key ← read_exact (from_le key_len_buf)
  val_len_buf ← read_exact 4
  val ← read_exact (from_le val_len_buf)
  check_record checksum_buf seq_buf op_buf key_len_buf key val_len_buf val

-- The loop of `replay`, with fuel.
unfoldable pub replay_loop : ℕ → Bytes → List WalRecord → List WalRecord
replay_loop zero input out = out
replay_loop (suc fuel) input out = elim (next_record input) [
  | ok (r, rest) ↦ replay_loop fuel rest (out ++ (r ∷ []))
  | err e ↦ out
  | panicked ↦ out
]

-- Every record takes bytes off the input, so as many rounds as there are bytes are enough.
unfoldable pub replay_bytes : Bytes → List WalRecord
unfolding replay_loop
replay_bytes input = replay_loop (length input) input []

-- `replay`: a log that does not exist has no records.
unfoldable pub replay : Disk → Result (List WalRecord)
unfolding replay_bytes
replay d = elim (lookup wal_log d.files) [ none ↦ ok [] | some input ↦ ok (replay_bytes input) ]
