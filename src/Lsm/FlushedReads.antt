-- ===== src/Lsm/FlushedReads.antt =====
-- src/lsm.rs, the point reads behind a flush.
use sift_core.Lsm
use sift_core.Lsm.{LsmEngine, flush}
use sift_core.Bytes.{Bytes}
use sift_core.Disk.{Disk}
use sift_core.Key.{Entry}
use sift_core.Lsm.Compacts.{SameReads, get-SameReads}
use sift_core.Lsm.Faulty.{flush_faulty}
use sift_core.Lsm.Flushes.{FlushRoom, flush-IsStore}
use sift_core.Lsm.Tables.{IsStore, Few}
use sift_core.Prelude.{◌≡◌, ◌≤◌, List, ◌∷◌, length}
use sift_core.Result.{ok}

-- The runs of a store behind a flush, and what a read of now of a key returns there.
answers_same :
    (db : LsmEngine) (d : Disk) (runs : List (List Entry)) (key : Bytes) (db' : LsmEngine)
    (d' : Disk)
    → IsStore db d runs
    → Few key (db.memtable.entries ∷ runs)
    → ((runs' : List (List Entry)) × IsStore db' d' runs'
        × SameReads (db.memtable.entries ∷ runs) (db'.memtable.entries ∷ runs'))
    → (runs' : List (List Entry)) × IsStore db' d' runs'
      × Few key (db'.memtable.entries ∷ runs')
      × (Lsm.get db' key d' ≡ Lsm.get db key d)
answers_same db d runs key db' d' s few (runs', s', kept_) =
    (runs', s', kept_.few key few, get-SameReads db db' d d' runs runs' key s s' kept_ few)

-- After a flush that answers, whether a compaction follows or not, `get` returns for a key what it
-- returned before the flush, if neither the memtable nor a run held more than 16 versions of the
-- key. Afterwards they hold no more either, and what the engine kept, it keeps. Before the flush
-- the memtable is valid and its entries fit their widths, the tables hold sorted runs that writers
-- put there, newer versions stand before older ones, and the next numbers are new; there is room
-- for the flush and the next numbers.
pub get-flush :
    (db : LsmEngine) (d : Disk) (runs : List (List Entry)) (key : Bytes)
    → IsStore db d runs
    → FlushRoom db runs
    → Few key (db.memtable.entries ∷ runs)
    → (flush db d).0 ≡ ok tt
    → (runs' : List (List Entry)) × IsStore (flush db d).1 (flush db d).2 runs'
      × Few key ((flush db d).1.memtable.entries ∷ runs')
      × (Lsm.get (flush db d).1 key (flush db d).2 ≡ Lsm.get db key d)
get-flush db d runs key s room few h =
    answers_same db d runs key (flush db d).1 (flush db d).2 s few
      (flush-IsStore db d runs s room h)

-- Whatever a flush answers, an error or a panic included, `get` returns afterwards for a key what
-- it returned before the flush, if neither the memtable nor a run held more than 16 versions of the
-- key, and the engine has at most two tables, so that no compaction follows. Afterwards they hold
-- no more either, and what the engine kept, it keeps. Before the flush the memtable is valid and
-- its entries fit their widths, the tables hold sorted runs that writers put there, newer versions
-- stand before older ones, and the next numbers are new; there is room for the flush and the next
-- numbers.
pub get-flush_faulty :
    (db : LsmEngine) (d : Disk) (runs : List (List Entry)) (key : Bytes)
    → IsStore db d runs
    → FlushRoom db runs
    → Few key (db.memtable.entries ∷ runs)
    → length db.tiers ≤ 2
    → (runs' : List (List Entry)) × IsStore (flush db d).1 (flush db d).2 runs'
      × Few key ((flush db d).1.memtable.entries ∷ runs')
      × (Lsm.get (flush db d).1 key (flush db d).2 ≡ Lsm.get db key d)
get-flush_faulty db d runs key s room few two =
    answers_same db d runs key (flush db d).1 (flush db d).2 s few
      (flush_faulty db d runs s room two)
