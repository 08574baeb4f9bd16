-- ===== src/Compaction/Tiers.antt =====
-- src/compaction.rs: a search of several runs, against one of the run that a merge makes of them.
use mathlib.Core.List.{
  Mem, Perm, not-mem-nil, eq-or-mem_of_mem-cons, mem-append_left, mem-append_right,
}
use mathlib.Core.Logic.Or
use native.Mathlib.Bridge.{le_prop}
use mathlib.Core.List.Perm as Perm
use sift_core.Bytes.{Bytes}
use sift_core.Compaction.Newest.{
  NewestFirst, first_found, Finds, nothing, best_of, same_key, find_visible-Finds, Supersedes,
  not_older,
}
use sift_core.Compaction.Stored.{flat}
use sift_core.Key.{Seq, Value, Entry}
use sift_core.Key.Order.{IsSorted}
use sift_core.Prelude.{
  Option, none, some, List, [], ◌∷◌, ◌++◌, All, All-append, All-imp, All-append_front,
  All-append_back, ◌≡◌, refl, sym, ap, inl, inr, true, false, arith, Bool-cases, All-Mem, All-Perm,
}
use sift_core.Compaction.Least.{NotAfter}
use sift_core.Compaction.Surviving.{Ascending}
use sift_core.Key.Snapshot.{is_visible, find_visible}
use sift_core.Lsm.ScanReads.{newer, seen}

-- The first answer of runs that are ordered by age is a best entry of them all.
pub first_found-Finds :
    (key : Bytes) (as_of : Seq) (runs : List (List Entry))
    → All IsSorted runs
    → NewestFirst runs
    → Finds key as_of (flat runs) (first_found key as_of runs)
first_found-Finds key as_of [] sorted aged = nothing tt
first_found-Finds key as_of (es ∷ runs) sorted aged =
    combine (find_visible-Finds key as_of es sorted.0)
      (first_found-Finds key as_of runs sorted.1 aged.1)
  where
    combine :
        {o o' : Option Value}
        → Finds key as_of es o
        → Finds key as_of (flat runs) o'
        → Finds key as_of
            (es ++ flat runs)
            (elim o as (λ _. Option Value) [ none ↦ o' | some v ↦ some v ])
    combine (nothing a) (nothing b) = nothing (All-append _ es (flat runs) a b)
    combine (nothing a) (best_of e b) = best_of e (record {
      mem = mem-append_right es b.mem;
      holds = λ P all. b.holds P (All-append_back P es (flat runs) all);
      visible = b.visible;
      best = All-append _ es (flat runs) (All-imp (λ x unseen seen. cc) es a) b.best;
    })
    combine (best_of e b) f = best_of e (record {
      mem = mem-append_left (flat runs) b.mem;
      holds = λ P all. b.holds P (All-append_front P es (flat runs) all);
      visible = b.visible;
      best = All-append _ es (flat runs) b.best (
          All-imp (λ x newer seen. newer (same_key key as_of e x b.visible seen)) (flat runs)
            (b.holds _ aged.0));
    })

pub values-IsSet : IsSet Value
values-IsSet = hlevel

found-IsSet : IsSet (Option Value)
found-IsSet = hlevel

-- Where the keys ascend, the search finds a best entry.
best_found :
    (key : Bytes) (as_of : Seq) (e : Entry) (es : List Entry)
    → Ascending es
    → Mem e es
    → is_visible key as_of e ≡ true
    → All (λ (x : Entry). is_visible key as_of x ≡ true → Supersedes e x) es
    → find_visible key as_of es ≡ some e.1
unfolding find_visible
best_found key as_of e [] up m seen best = absurd (not-mem-nil m)
best_found key as_of e (w ∷ es) up m seen best = elim (Bool-cases (is_visible key as_of w)) [
  | inl yes_ ↦ rw yes_ (
      ap some (
        Or.elim (values-IsSet _ _) (eq-or-mem_of_mem-cons m) (λ same. ap (λ t. t.1) (sym same))
          (λ behind.
            let older =
              not_older key as_of w e yes_
                (All-Mem (λ (x : Entry). NotAfter w.0 x.0) (λ x. hlevel) es e up.0 behind) seen in
            let (newer, same) = best.0 yes_ in same (omega (arith, older, newer)))))
  | inr no_ ↦ rw no_ (
      Or.elim (found-IsSet _ _) (eq-or-mem_of_mem-cons m)
        (λ same. absurd (cc (no_, seen, ap (is_visible key as_of) same)))
        (λ behind. best_found key as_of e es up.1 behind seen best.1))
]

unseen :
    (key : Bytes) (as_of : Seq) (es : List Entry)
    → All (λ (x : Entry). is_visible key as_of x ≡ false) es
    → find_visible key as_of es ≡ none
unfolding find_visible
unseen key as_of [] a = refl
unseen key as_of (e ∷ es) a = rw (a.0, unseen key as_of es a.1) refl

-- The runs merged in the order of the keys answer every search, at every snapshot, as the runs do
-- one after the other, if they are sorted and a version of a key in an earlier run is newer than
-- those in later runs, or the same write.
pub find_visible-merged :
    (key : Bytes) (as_of : Seq) (runs : List (List Entry)) (es : List Entry)
    → All IsSorted runs
    → NewestFirst runs
    → Perm es (flat runs)
    → Ascending es
    → find_visible key as_of es ≡ first_found key as_of runs
find_visible-merged key as_of runs es sorted aged same up =
    found (first_found-Finds key as_of runs sorted aged)
  where
    found : {o : Option Value} → Finds key as_of (flat runs) o → find_visible key as_of es ≡ o
    found (nothing a) = unseen key as_of es (All-Perm _ (λ x. hlevel) (Perm.symm same) a)
    found (best_of e b) = best_found key as_of e es up ((Perm.mem_iff same).1 b.mem) b.visible (
        All-Perm (λ (x : Entry). is_visible key as_of x ≡ true → Supersedes e x)
          (λ x. hlevel (values-IsSet, le_prop)) (Perm.symm same) b.best)
