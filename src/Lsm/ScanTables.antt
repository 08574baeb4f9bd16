-- ===== src/Lsm/ScanTables.antt =====
-- src/lsm.rs, `iter_all` of a store with tables, against the point reads.
use sift_core.HashMap
use sift_core.HashMap.{HashMap, bytes_key}
use sift_core.HashMap.Laws.{Distinct}
use sift_core.Sstable.Records.{Fits, encode_entries}
use sift_core.Lsm
use sift_core.MemTable.Reads.{IsValid}
use sift_core.Compaction.Newest.{NewestFirst}
use sift_core.Compaction.Stored.{AllStored, flat, flat-Fits}
use sift_core.Disk.{Disk}
use sift_core.Key.{Entry}
use sift_core.Lsm.Scan.{
  Latest, merge_latest, merge_all, merge_iter, merge_tiers, live_pairs, iter_all,
}
use sift_core.Lsm.ScanReads.{merge_all-Distinct, live_pairs-Distinct, get-live_pairs}
use sift_core.Prelude.{
  ℕ, zero, suc, ◌+◌, ◌<◌, ◌≡◌, refl, sym, ap, ◌∙◌, some, List, [], ◌∷◌, ◌++◌, arith, length,
  length-append, All-append, All-imp,
}
use sift_core.Result.{ok}
use sift_core.Sstable.{SstableMeta}
use sift_core.Sstable.Iter.{SstableIter, open_iter, next}
use sift_core.Sstable.Lookup.{length-le}
use sift_core.Sstable.Scan.{Yields, next-none, next-some, open_iter-write_run}
use sift_core.Bytes.{Bytes}
use sift_core.Compaction.Reads.{AllStored-IsSorted}
use sift_core.Lsm.{LsmEngine, live}
use sift_core.Lsm.Tables.{Few, get-first_found}
use sift_core.Lsm.ScanBest.{merge_all-first_found}

merge_iter_step :
    (fuel : ℕ) (it it' : SstableIter) (e : Entry) (l : Latest)
    → next it ≡ ok (some (e, it'))
    → merge_iter (suc fuel) it l ≡ merge_iter fuel it' (merge_latest l e)
unfolding merge_iter
merge_iter_step fuel it it' e l more = ground (arith, more)

-- The scan of a table merges its entries.
merge_iter-merge_all :
    (fuel : ℕ) (it : SstableIter) (es : List Entry) (l : Latest)
    → Yields it es
    → length es < fuel
    → merge_iter fuel it l ≡ ok (merge_all l es)
unfolding merge_all merge_iter
merge_iter-merge_all zero it es l y enough = absurd (omega arith)
merge_iter-merge_all (suc fuel) it [] l y enough = ground (arith, next-none it y)
merge_iter-merge_all (suc fuel) it (e ∷ es) l y enough =
    let (it', more, left) = next-some it e es y in
    merge_iter_step fuel it it' e l more
    ∙ merge_iter-merge_all fuel it' es (merge_latest l e) left (omega arith)

merge_tiers_step :
    (t : SstableMeta) (ts : List SstableMeta) (l l' : Latest) (d : Disk) (it : SstableIter)
    → open_iter t.path d ≡ ok it
    → merge_iter (length it.rest + 1) it l ≡ ok l'
    → merge_tiers (t ∷ ts) l d ≡ merge_tiers ts l' d
unfolding merge_tiers
merge_tiers_step t ts l l' d it opens merges = ground (arith, opens, merges)

merge_all-append :
    (l : Latest) (es fs : List Entry) → merge_all l (es ++ fs) ≡ merge_all (merge_all l es) fs
unfolding merge_all
merge_all-append l [] fs = refl
merge_all-append l (e ∷ es) fs = merge_all-append (merge_latest l e) es fs

merge_tiers-merge_all :
    (d : Disk) (ts : List SstableMeta) (runs : List (List Entry)) (l : Latest)
    → AllStored d ts runs
    → merge_tiers ts l d ≡ ok (merge_all l (flat runs))
merge_tiers-merge_all d [] [] l s = unfold merge_tiers merge_all in refl
merge_tiers-merge_all d [] (es ∷ runs) l s = elim s [ ]
merge_tiers-merge_all d (t ∷ ts) [] l s = elim s [ ]
merge_tiers-merge_all d (t ∷ ts) (es ∷ runs) l s =
    let (it, opens, y) =
      open_iter-write_run t.path d s.0.from s.0.expected es s.0.fits s.0.small s.0.found in
    merge_tiers_step t ts l (merge_all l es) d it opens (
      merge_iter-merge_all (length it.rest + 1) it es l y
        (omega (arith, length-le es, ap length y.bytes, length-append (encode_entries es) y.tail)))
    ∙ merge_tiers-merge_all d ts runs (merge_all l es) s.1
    ∙ ap ok (sym (merge_all-append l es (flat runs)))

-- The full scan of a store with tables answers pairs with distinct keys, and they hold for every
-- key what a read of now of the key returns, if no run holds more than 16 versions of it. The
-- tables hold sorted runs that writers put there, newer versions stand before older ones, and the
-- memtable is valid.
pub iter_all-get_stored :
    (db : LsmEngine) (d : Disk) (runs : List (List Entry))
    → IsValid db.memtable
    → AllStored d db.tiers runs
    → NewestFirst (db.memtable.entries ∷ runs)
    → (pairs : HashMap Bytes Bytes) × (iter_all db d ≡ ok pairs)
      × Distinct pairs
      × ((key : Bytes) → Few key runs → Lsm.get db key d ≡ ok (HashMap.get key pairs))
iter_all-get_stored db d runs valid stored aged =
    let es = db.memtable.entries in
    let latest = merge_all [] (flat runs ++ es) in
    let distinct = merge_all-Distinct [] (flat runs ++ es) tt in
    let seqs =
      All-append _ es (flat runs) valid.fits
        (All-imp (λ e (f : Fits e). f.seq) (flat runs) (flat-Fits d db.tiers runs stored)) in
    (
      live_pairs latest,
      scanned db d (flat runs) (merge_tiers-merge_all d db.tiers runs [] stored),
      live_pairs-Distinct latest distinct,
      λ key few.
          get-first_found db d runs key valid stored few
          ∙ ap ok (
              ap live (
                sym (
                  merge_all-first_found es runs key valid.sorted
                    (AllStored-IsSorted d db.tiers runs stored) aged seqs))
              ∙ sym (get-live_pairs latest key distinct)),
    )
  where
    scanned :
        (db : LsmEngine) (d : Disk) (xs : List Entry)
        → merge_tiers db.tiers [] d ≡ ok (merge_all [] xs)
        → iter_all db d ≡ ok (live_pairs (merge_all [] (xs ++ db.memtable.entries)))
    scanned db d xs e =
        unfold iter_all in ground (arith, e, merge_all-append [] xs db.memtable.entries)
