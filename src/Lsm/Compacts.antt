-- ===== src/Lsm/Compacts.antt =====
-- src/lsm.rs, `maybe_compact`: it keeps what the engine keeps, and the reads of now.
use mathlib.Core.List.{Perm}
use mathlib.Core.List.Perm as Perm
use native.Mathlib.Bridge.{le_prop}
use sift_core.Bytes.{Bytes, bytes_eq}
use sift_core.Compaction.{should_compact, compact}
use sift_core.Compaction.Kept.{kept, surviving-versions}
use sift_core.Compaction.Newest.{Supersedes, first_found}
use sift_core.Compaction.Shadowed.{All-surviving}
use sift_core.Compaction.Stored.{flat}
use sift_core.Compaction.Surviving.{is_written, surviving}
use sift_core.Disk.{FileName, name_eq, Disk, lookup, remove_file, sst}
use sift_core.Disk.Laws.{remove_file-others}
use sift_core.Key.{max_seq, Value, as_put, Entry}
use sift_core.Key.Snapshot.{find_visible}
use sift_core.Lsm
use sift_core.Lsm.{LsmEngine, remove_inputs, maybe_compact, live}
use sift_core.Lsm.Tables.{Few, IsStore, Stored-agree, get-first_found}
use sift_core.Prelude.{
  ◌+◌, ◌%◌, ◌^◌, ◌≡◌, refl, subst, sym, ◌∙◌, inl, inr, true, false, Option, none, some, List, [],
  ◌∷◌, ◌++◌, append-nil, arith, Option-cases, length, All, All-Perm, ℕ, ◌<◌, ap, Bool-cases,
  All-append, All-imp, All-append_front, All-append_back,
}
use sift_core.Result.{ok, Result-cases}
use sift_core.Sstable.{SstableMeta}
use sift_core.Compaction.Reads.{
  AllStored-IsSorted, Bounded, Compacted, compact-Compacted, kept_found,
}
use sift_core.Compaction.Tiers.{values-IsSet}

-- The removal of the inputs touches no other file.
pub remove_inputs-others :
    (ts : List SstableMeta) (d : Disk) (n : FileName)
    → All (λ (t : SstableMeta). name_eq t.path n ≡ false) ts
    → lookup n (remove_inputs ts d).files ≡ lookup n d.files
unfolding remove_inputs
remove_inputs-others [] d n apart = refl
remove_inputs-others (t ∷ ts) d n apart =
    remove_inputs-others ts (remove_file t.path d) n apart.1 ∙ remove_file-others t.path n d apart.0

-- How a compaction that answers ends.
compaction_steps :
    (db : LsmEngine) (d : Disk)
    → should_compact (length db.tiers) ≡ true
    → (maybe_compact db d).0 ≡ ok tt
    → (merged : SstableMeta) × ((compact db.tiers db.next_sst_id true d).0 ≡ ok merged)
      × (maybe_compact db d ≡ (
        ok tt,
        record db { tiers = merged ∷ []; next_sst_id = (db.next_sst_id + 1) % 2 ^ 64 },
        remove_inputs db.tiers (compact db.tiers db.next_sst_id true d).1,
      ))
unfolding maybe_compact
compaction_steps db d full h = elim (Result-cases (compact db.tiers db.next_sst_id true d).0) [
  | inl (merged, e) ↦ (merged, e, ground (arith, full, e))
  | inr (inl (x, e)) ↦ absurd (ground (arith, full, e, h))
  | inr (inr e) ↦ absurd (ground (arith, full, e, h))
]

-- The reads of now of one memtable and runs are those of another, and each run still holds few
-- versions.
pub record SameReads (before after : List (List Entry)) : Type 0 where
  pub same :
      (key : Bytes) → live (first_found key max_seq after) ≡ live (first_found key max_seq before)
  pub few : (key : Bytes) → Few key before → Few key after

-- Two stores whose runs have the same reads answer the same to every read of now.
pub get-SameReads :
    (db db' : LsmEngine) (d d' : Disk) (runs runs' : List (List Entry)) (key : Bytes)
    → IsStore db d runs
    → IsStore db' d' runs'
    → SameReads (db.memtable.entries ∷ runs) (db'.memtable.entries ∷ runs')
    → Few key (db.memtable.entries ∷ runs)
    → Lsm.get db' key d' ≡ Lsm.get db key d
get-SameReads db db' d d' runs runs' key s s' kept_ few =
    get-first_found db' d' runs' key s'.valid s'.stored (kept_.few key few).1
    ∙ ap ok (kept_.same key)
    ∙ sym (get-first_found db d runs key s.valid s.stored few.1)

live-kept : (o : Option Value) → live (kept true o) ≡ live o
unfolding kept is_written as_put
live-kept none = refl
live-kept (some (Value.put v)) = refl
live-kept (some Value.delete) = refl

live_behind :
    (key : Bytes) (es : List Entry) (runs runs' : List (List Entry))
    → live (first_found key max_seq runs') ≡ live (first_found key max_seq runs)
    → live (first_found key max_seq (es ∷ runs')) ≡ live (first_found key max_seq (es ∷ runs))
live_behind key es runs runs' same = elim (Option-cases (find_visible key max_seq es)) [
  | inl e ↦ ground (arith, e, same)
  | inr (v, e) ↦ ground (arith, e)
]

pub superseded-prop :
    (x y : Entry) → IsProp (bytes_eq x.0.user_key y.0.user_key ≡ true → Supersedes x y)
superseded-prop x y = hlevel (values-IsSet, le_prop)

pub All-trivial {ℓ κ} : {A : Type ℓ} (P : A → Type κ) → ((x : A) → P x) → (xs : List A) → All P xs
All-trivial P f [] = tt
All-trivial P f (x ∷ xs) = (f x, All-trivial P f xs)

-- What holds of the entries of the runs holds of the merged run.
All-merged :
    (P : Entry → Type 0)
    → ((x : Entry) → IsProp (P x))
    → (runs : List (List Entry)) (es : List Entry) → Perm es (flat runs)
    → All P (flat runs)
    → All P (surviving true none es ++ [])
All-merged P prop runs es same a =
    subst (All P) (sym (append-nil (surviving true none es)))
      (All-surviving P true none es (All-Perm P prop (Perm.symm same) a))

module _ (db : LsmEngine) (d : Disk) (runs : List (List Entry)) (s : IsStore db d runs)
    (bounded : Bounded runs) (room : db.next_sst_id + 1 < 2 ^ 64) where
  abbrev after_compaction : SstableMeta → LsmEngine
  after_compaction merged = record db {
    tiers = merged ∷ [];
    next_sst_id = (db.next_sst_id + 1) % 2 ^ 64;
  }

  compaction-IsStore :
      (merged : SstableMeta)
      → (d1 : Disk) → (c : Compacted runs db.next_sst_id true d d1 merged)
      → IsStore
          (after_compaction merged)
          (remove_inputs db.tiers d1)
          (surviving true none c.es ∷ [])
  compaction-IsStore merged d1 c = record {
    valid = s.valid;
    fits = s.fits;
    stored = (
      Stored-agree d1 (remove_inputs db.tiers d1) merged (surviving true none c.es)
          (remove_inputs-others db.tiers d1 merged.path (
            All-imp
              (λ t (k, path, below).
                ap (λ n. name_eq n merged.path) path ∙ ap (name_eq (sst k)) c.path ∙ apart k below)
              db.tiers s.named))
          c.stored,
      tt,
    );
    aged = (
      All-imp
          (λ x newer.
            All-merged (λ (y : Entry). bytes_eq x.0.user_key y.0.user_key ≡ true → Supersedes x y)
              (superseded-prop x) runs c.es c.same newer)
          db.memtable.entries s.aged.0,
      (All-trivial _ (λ x. tt) (surviving true none c.es), tt),
    );
    older =
        All-append _ db.memtable.entries (surviving true none c.es ++ [])
          (All-append_front _ db.memtable.entries (flat runs) s.older)
          (All-merged (λ (e : Entry). e.0.seq < db.next_seq) (λ e. hlevel le_prop) runs c.es c.same
            (All-append_back _ db.memtable.entries (flat runs) s.older));
    named = ((db.next_sst_id, c.path, omega (arith, room)), tt);
  }
    where
      apart : (k : ℕ) → k < db.next_sst_id → name_eq (sst k) (sst db.next_sst_id) ≡ false
      apart k below = unfold name_eq in ground (arith, below)

  compaction-SameReads :
      (merged : SstableMeta)
      → (d1 : Disk) → (c : Compacted runs db.next_sst_id true d d1 merged)
      → SameReads (db.memtable.entries ∷ runs) (db.memtable.entries ∷ surviving true none c.es ∷ [])
  compaction-SameReads merged d1 c = record {
    same = λ key. live_behind key db.memtable.entries runs (surviving true none c.es ∷ []) (
        ap live
          (kept_found runs d1 merged c key (AllStored-IsSorted d db.tiers runs s.stored) s.aged.1)
        ∙ live-kept (first_found key max_seq runs));
    few = λ key few. (few.0, (omega (arith, surviving-versions true none key c.es c.up), tt));
  }

  -- A compaction that answers, or is not due, keeps what the engine keeps and every read of now.
  pub maybe_compact-IsStore :
      (maybe_compact db d).0 ≡ ok tt
      → (runs' : List (List Entry)) × IsStore (maybe_compact db d).1 (maybe_compact db d).2 runs'
        × SameReads (db.memtable.entries ∷ runs) ((maybe_compact db d).1.memtable.entries ∷ runs')
  maybe_compact-IsStore h = elim (Bool-cases (should_compact (length db.tiers))) [
    | inl full ↦
        let (merged, compacts, whole) = compaction_steps db d full h in
        let c =
          compact-Compacted db.tiers runs db.next_sst_id true d merged s.stored bounded compacts in
        (
          surviving true none c.es ∷ [],
          subst (λ t. IsStore t.1 t.2 (surviving true none c.es ∷ [])) (sym whole)
              (compaction-IsStore merged _ c),
          subst
              (λ t.
                SameReads (db.memtable.entries ∷ runs)
                  (t.1.memtable.entries ∷ surviving true none c.es ∷ []))
              (sym whole) (compaction-SameReads merged _ c),
        )
    | inr early ↦
        let whole = not_due early in
        (
          runs,
          subst (λ t. IsStore t.1 t.2 runs) (sym whole) s,
          subst (λ t. SameReads (db.memtable.entries ∷ runs) (t.1.memtable.entries ∷ runs))
              (sym whole) (record { same = λ key. refl; few = λ key few. few }),
        )
  ]
    where
      not_due : should_compact (length db.tiers) ≡ false → maybe_compact db d ≡ (ok tt, db, d)
      not_due early = unfold maybe_compact in ground (arith, early)
