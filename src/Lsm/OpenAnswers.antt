-- ===== src/Lsm/OpenAnswers.antt =====
-- src/lsm.rs, `LsmEngine::open` of a directory whose tables are whole.
use sift_core.Wal
use sift_core.MemTable
use sift_core.Bytes.{Bytes}
use sift_core.Compaction.Stored.{Stored}
use sift_core.Disk.{Disk}
use sift_core.Sstable.Table.{Sstable}
use sift_core.Wal.{Wal}
