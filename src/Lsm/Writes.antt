-- ===== src/Lsm/Writes.antt =====
-- src/lsm.rs, `put` and `delete`: the engine behind a write and the flush that may follow it.
use sift_core.MemTable.{insert}
use sift_core.MemTable.History.{Older}
use sift_core.Sstable.Records.{Fits}
use sift_core.Wal.{Wal, WalRecord}
use sift_core.Lsm
use Prim.Native.Nat.Ordering.{lt, eq, gt}
use sift_core.Bytes.{bytes_eq, Bytes}
use sift_core.Compaction.Newest.{Supersedes}
use sift_core.Compaction.Stored.{flat}
use sift_core.Disk.{Disk, lookup}
use sift_core.Key.{InternalKey, Value, Entry, max_seq, as_put, cmp}
use sift_core.Lsm.{LsmEngine, apply_record, maybe_flush, live}
use sift_core.Lsm.Durable.{after_write}
use sift_core.Lsm.Recovery.{value_of, entry_of, apply_record-entries, apply_record-IsValid}
use sift_core.Lsm.Tables.{IsStore, AllStored-agree, Few}
use sift_core.Prelude.{
  ◌+◌, ◌%◌, ◌^◌, ◌<◌, ◌≡◌, subst, sym, true, List, [], ◌∷◌, arith, All, All-append, All-imp,
  All-append_front, All-append_back, refl, ◌∙◌, if◌then◌else◌, Ordering,
}
use sift_core.Sstable.{SstableMeta}
use sift_core.Key.Snapshot.{is_visible}
use sift_core.Lsm.FlushWhole.{get_at-agree}
use sift_core.Lsm.Compacts.{SameReads, get-SameReads}
use sift_core.Lsm.Flushes.{FlushRoom, maybe_flush-IsStore}
use sift_core.Lsm.Reads.{get_at-after}
use sift_core.Result.{ok}
use sift_core.Key.Order.{eq_of_cmp}

All-insert :
    (P : Entry → Type 0) (k : InternalKey) (v : Value) (es : List Entry)
    → P (k, v)
    → All P es
    → All P (insert k v es)
unfolding insert
All-insert P k v [] p a = (p, tt)
All-insert P k v (e ∷ es) p a = place (cmp k e.0) refl (All-insert P k v es p a.1)
  where
    place :
        (o : Ordering)
        → cmp k e.0 ≡ o
        → All P (insert k v es)
        → All P (elim o as (λ _. List Entry) [
          | lt ↦ (k, v) ∷ e ∷ es
          | eq ↦ (e.0, v) ∷ es
          | gt ↦ e ∷ insert k v es
        ])
    place lt h rest = (p, a)
    place eq h rest = (subst (λ t. P (t, v)) (eq_of_cmp k e.0 h) p, a.1)
    place gt h rest = (a.0, rest)

-- A write of the next number that reached the log and the memtable keeps what the engine keeps.
pub after_write-IsStore :
    (db : LsmEngine) (d d' : Disk) (runs : List (List Entry)) (r : WalRecord) (w : Wal)
    → IsStore db d runs
    → r.seq ≡ db.next_seq
    → Fits (entry_of r)
    → db.next_seq + 1 < 2 ^ 64
    → All (λ (t : SstableMeta). lookup t.path d'.files ≡ lookup t.path d.files) db.tiers
    → IsStore (after_write db r w) d' runs
after_write-IsStore db d d' runs r w s number fits room same =
    let inserted = apply_record-entries db.memtable r in
    let k = (entry_of r).0 in
    let v = value_of r in
    let es = db.memtable.entries in
    record {
      valid = apply_record-IsValid db.memtable r fits.seq s.valid;
      fits = subst (All Fits) (sym inserted) (All-insert Fits k v es fits s.fits);
      stored = AllStored-agree d d' db.tiers runs same s.stored;
      aged = (
        subst
            (λ l.
              All
                (λ (x : Entry).
                  All (λ (y : Entry). bytes_eq x.0.user_key y.0.user_key ≡ true → Supersedes x y)
                    (flat runs))
                l)
            (sym inserted)
            (All-insert _ k v es
              (All-imp
                (λ y older_ same_key_.
                  (omega (arith, number, older_), λ e. absurd (omega (arith, number, older_, e))))
                (flat runs) (All-append_back _ es (flat runs) s.older))
              s.aged.0),
        s.aged.1,
      );
      older =
          All-append _ (apply_record db.memtable r).entries (flat runs)
            (subst (Older ((db.next_seq + 1) % 2 ^ 64)) (sym inserted) (
              All-insert _ k v es (omega (arith, number, room)) (
                All-imp (λ e older_. omega (arith, older_, room)) es
                  (All-append_front _ es (flat runs) s.older))))
            (All-imp (λ e older_. omega (arith, older_, room)) (flat runs)
              (All-append_back _ es (flat runs) s.older));
      named = s.named;
    }

IsStore-Older :
    (db : LsmEngine) (d : Disk) (runs : List (List Entry))
    → IsStore db d runs
    → Older db.next_seq db.memtable.entries
IsStore-Older db d runs s = All-append_front _ db.memtable.entries (flat runs) s.older

-- The read of now behind a write that reached the log and the memtable.
get-after_write :
    (db : LsmEngine) (d d' : Disk) (runs : List (List Entry)) (r : WalRecord) (w : Wal)
    (key : Bytes)
    → IsStore db d runs
    → r.seq ≡ db.next_seq
    → db.next_seq + 1 < 2 ^ 64
    → All (λ (t : SstableMeta). lookup t.path d'.files ≡ lookup t.path d.files) db.tiers
    → Lsm.get (after_write db r w) key d'
      ≡ (if bytes_eq r.key key then ok (as_put (value_of r)) else Lsm.get db key d)
unfolding Lsm.get is_visible
get-after_write db d d' runs r w key s number room same = ground (
  arith,
  number,
  get_at-after db (after_write db r w) d' r key max_seq s.valid
      (subst (λ n. Older n db.memtable.entries) (sym number) (IsStore-Older db d runs s))
      (omega (arith, number, room)) refl refl,
  get_at-agree db db d d' key max_seq refl refl same,
)

-- What a write of a record that answers leaves: the engine keeps what it keeps, the key reads as
-- the record says, and every other key reads as before. No run, and no memtable with the record,
-- holds more than 16 versions of a key that is read.
pub record Wrote (db : LsmEngine) (d : Disk) (runs : List (List Entry)) (r : WalRecord)
    (db' : LsmEngine) (d' : Disk) : Type 0 where
  pub runs' : List (List Entry)
  pub store : IsStore db' d' runs'
  pub few :
      (key : Bytes)
      → Few key ((apply_record db.memtable r).entries ∷ runs)
      → Few key (db'.memtable.entries ∷ runs')
  pub reads :
      (key : Bytes)
      → Few key ((apply_record db.memtable r).entries ∷ runs)
      → Lsm.get db' key d'
        ≡ (if bytes_eq r.key key then ok (as_put (value_of r)) else Lsm.get db key d)

module _ (db : LsmEngine) (d : Disk) (runs : List (List Entry)) (r : WalRecord) (w : Wal)
    (d1 : Disk) (s : IsStore db d runs) (number : r.seq ≡ db.next_seq) (fits : Fits (entry_of r))
    (numbers : db.next_seq + 1 < 2 ^ 64)
    (same : All
      (λ (t : SstableMeta). lookup t.path d1.files ≡ lookup t.path d.files)
      db.tiers) where
  -- What follows a write, where it keeps the reads of now.
  pub kept-Wrote :
      (db' : LsmEngine) (d' : Disk)
      → ((runs' : List (List Entry)) × IsStore db' d' runs'
          × SameReads ((after_write db r w).memtable.entries ∷ runs) (db'.memtable.entries ∷ runs'))
      → Wrote db d runs r db' d'
  kept-Wrote db' d' (runs', s2, kept_) =
      let mid = after_write db r w in
      let s1 = after_write-IsStore db d d1 runs r w s number fits numbers same in
      record {
        runs' = runs';
        store = s2;
        few = kept_.few;
        reads = λ key few.
            get-SameReads mid db' d1 d' runs runs' key s1 s2 kept_ few
            ∙ get-after_write db d d1 runs r w key s number numbers same;
      }

  pub flushed-Wrote :
      FlushRoom (after_write db r w) runs
      → (maybe_flush (after_write db r w) d1).0 ≡ ok tt
      → Wrote db d runs r
          (maybe_flush (after_write db r w) d1).1
          (maybe_flush (after_write db r w) d1).2
  flushed-Wrote room h =
      kept-Wrote (maybe_flush (after_write db r w) d1).1 (maybe_flush (after_write db r w) d1).2 (
        maybe_flush-IsStore (after_write db r w) d1 runs
          (after_write-IsStore db d d1 runs r w s number fits numbers same) room h)
