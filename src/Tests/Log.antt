-- ===== src/Tests/Log.antt =====
-- Runs of the log.
use sift_core.Wal
use sift_core.Wal.{
  replay_loop, replay_bytes, encode, Op, WalRecord, Wal, next_record, op_byte, encode_body,
  check_record,
}
use sift_core.Wal.Replay.{Fits, encode_all, replay_bytes-encode_all, Breaks}
use sift_core.Wal.Rounds.{replay_loop-fuel}
use sift_core.Wal.Torn.{log_one, log_one_atomic, HoldsLog}
use sift_core.Tests.Data.{put_a, delete_a, two_records, torn_disk, calm_disk, key_b}
use sift_core.Disk.{name_eq, lookup, write, sync_data, store, contents}
use sift_core.Prelude.{◌≡◌, refl, ◌⊎◌, [], ◌∷◌, ◌++◌, arith}
use sift_core.Reader.{read_exact}
use sift_core.Result.{ok}
use sift_core.Bytes.{u32_le, u64_le, from_le}
use sift_core.Hash.{fnv1a}

pub put_a-Fits : Fits put_a
put_a-Fits = record { seq = omega arith; key = omega arith; val = omega arith }

pub delete_a-Fits : Fits delete_a
delete_a-Fits = record { seq = omega arith; key = omega arith; val = omega arith }

abbrev pub put_b : WalRecord
put_b = record { seq = 3; op = Op.put; key = key_b; val = 9 ∷ [] }

pub put_b-Fits : Fits put_b
put_b-Fits = record { seq = omega arith; key = omega arith; val = omega arith }

pub calm_holds : HoldsLog calm_disk two_records
unfolding lookup name_eq
calm_holds = refl

pub torn_holds : HoldsLog torn_disk two_records
unfolding lookup name_eq
torn_holds = refl

empty-Breaks : Breaks []
unfolding next_record read_exact
empty-Breaks r rest e = cc

replay_bytes-encode_all_example : replay_bytes (encode_all two_records ++ []) ≡ two_records
replay_bytes-encode_all_example =
    replay_bytes-encode_all two_records [] (put_a-Fits, (delete_a-Fits, tt)) empty-Breaks

replay_loop-fuel_example : replay_loop 3 (1 ∷ 2 ∷ []) [] ≡ replay_loop 5 (1 ∷ 2 ∷ []) []
replay_loop-fuel_example = replay_loop-fuel 3 5 (1 ∷ 2 ∷ []) [] (omega arith) (omega arith)

log_one_atomic_example :
    (Wal.replay (log_one (record { buffer = [] }) put_b torn_disk).2 ≡ ok two_records)
    ⊎ (Wal.replay (log_one (record { buffer = [] }) put_b torn_disk).2
        ≡ ok (two_records ++ (put_b ∷ [])))
log_one_atomic_example =
    log_one_atomic (record { buffer = [] }) put_b torn_disk two_records refl torn_holds
      (put_a-Fits, (delete_a-Fits, tt)) put_b-Fits

-- The torn write of the third record leaves the first two.
torn_run : Wal.replay (log_one (record { buffer = [] }) put_b torn_disk).2 ≡ ok two_records
unfolding Wal.replay Wal.sync Wal.append write sync_data next_record check_record read_exact fnv1a
    lookup store name_eq contents encode_all u64_le u32_le from_le
torn_run = refl
