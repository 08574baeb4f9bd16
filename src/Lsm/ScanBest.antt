-- ===== src/Lsm/ScanBest.antt =====
-- What `iter_all` finds in a merge of several runs.
use mathlib.Core.Option
use mathlib.Core.Logic.Or
use mathlib.Core.List.Perm as Perm
use mathlib.Core.List.{Mem, not-mem-nil, eq-or-mem_of_mem-cons, perm_append_comm}
use sift_core.HashMap
use sift_core.HashMap.{HashMap, bytes_key}
use sift_core.Compaction.Newest.{Supersedes, NewestFirst, first_found, Finds, nothing, best_of}
use sift_core.Compaction.Stored.{flat}
use sift_core.Key.{Seq, Value, Entry, max_seq}
use sift_core.Lsm.Scan.{Latest, merge_latest, merge_all}
use sift_core.Lsm.ScanReads.{newer, get-merge_latest, merge_all_kept}
use sift_core.Prelude.{
  ◌≤◌, ◌≡◌, refl, sym, ap, ◌∙◌, Option, none, some, List, [], ◌∷◌, ◌++◌, arith, ℕ_discrete, subst,
  inl, inr, true, false, ltb, leb→le, Bool-cases, All, All-append, All-imp, All-append_front,
  All-append_back,
}
use sift_core.Bytes.{Bytes, bytes_eq, IsU64}
use sift_core.Compaction.Tiers.{first_found-Finds}
use sift_core.Key.Order.{IsSorted}
use sift_core.MemTable.Reads.{SeqFits}
use sift_core.Compaction.Kept.{visible_now}
use sift_core.Key.Snapshot.{is_visible}

-- What the merge holds of a key so far is not newer than `e`.
abbrev Behind : Entry → Option (Seq × Value) → Type 0
Behind e none = Unit
Behind e (some (s, v)) = (s ≤ e.0.seq) × (s ≡ e.0.seq → v ≡ e.1)

latest-IsSet : IsSet (Option (Seq × Value))
latest-IsSet = hlevel ℕ_discrete

Behind-newer :
    (e x : Entry) (o : Option (Seq × Value)) → Behind e o → Supersedes e x → Behind e (newer x o)
Behind-newer e (ik, v) none b (age, same) = (age, same)
Behind-newer e (ik, v) (some (s, old)) b (age, same) = elim (Bool-cases (ltb s ik.seq)) [
  | inl later ↦ rw later (age, same)
  | inr kept_ ↦ rw kept_ b
]

newer_best : (e : Entry) (o : Option (Seq × Value)) → Behind e o → newer e o ≡ some (e.0.seq, e.1)
newer_best (ik, v) none b = refl
newer_best (ik, v) (some (s, old)) b = elim (Bool-cases (ltb s ik.seq)) [
  | inl later ↦ rw later refl
  | inr kept_ ↦
      let same : s ≡ ik.seq = omega (arith, leb→le ik.seq s (ground (arith, kept_)), b.0) in
      rw kept_ (ap some (ap (λ t. (t, old)) same ∙ ap (λ x. (ik.seq, x)) (b.1 same)))
]

get-merged :
    (l : Latest) (x : Entry) (key : Bytes)
    → bytes_eq x.0.user_key key ≡ true
    → HashMap.get key (merge_latest l x) ≡ newer x (HashMap.get key l)
get-merged l x key here = get-merge_latest l x key ∙ rw here refl

get-unmerged :
    (l : Latest) (x : Entry) (key : Bytes)
    → bytes_eq x.0.user_key key ≡ false
    → HashMap.get key (merge_latest l x) ≡ HashMap.get key l
get-unmerged l x key apart = get-merge_latest l x key ∙ rw apart refl

abbrev SupersedesAll : Bytes → Entry → List Entry → Type 0
SupersedesAll key e xs = All (λ (x : Entry). bytes_eq x.0.user_key key ≡ true → Supersedes e x) xs

-- The merge finds an entry that supersedes every version of its key.
merge_all-best :
    (l : Latest) (xs : List Entry) (key : Bytes) (e : Entry)
    → Mem e xs
    → bytes_eq e.0.user_key key ≡ true
    → Behind e (HashMap.get key l)
    → SupersedesAll key e xs
    → HashMap.get key (merge_all l xs) ≡ some (e.0.seq, e.1)
unfolding merge_all
merge_all-best l [] key e m here b best = absurd (not-mem-nil m)
merge_all-best l (x ∷ xs) key e m here b best =
    Or.elim (latest-IsSet _ _) (eq-or-mem_of_mem-cons m)
      (λ same.
        merge_all_kept (merge_latest l x) xs key e.0.seq e.1
          (ap (λ t. HashMap.get key (merge_latest l t)) (sym same)
            ∙ get-merged l e key here
            ∙ newer_best e (HashMap.get key l) b)
          (All-imp (λ y older same_. (older same_).0) xs best.1))
      (λ later.
        merge_all-best (merge_latest l x) xs key e later here
          (elim (Bool-cases (bytes_eq x.0.user_key key)) [
            | inl version ↦
                subst (Behind e) (sym (get-merged l x key version))
                  (Behind-newer e x (HashMap.get key l) b (best.0 version))
            | inr apart ↦ subst (Behind e) (sym (get-unmerged l x key apart)) b
          ])
          best.1)

merge_all-none :
    (l : Latest) (xs : List Entry) (key : Bytes)
    → HashMap.get key l ≡ none
    → All (λ (x : Entry). bytes_eq x.0.user_key key ≡ false) xs
    → HashMap.get key (merge_all l xs) ≡ none
unfolding merge_all
merge_all-none l [] key h a = h
merge_all-none l (x ∷ xs) key h a =
    merge_all-none (merge_latest l x) xs key (get-unmerged l x key a.0 ∙ h) a.1

no_versions :
    (key : Bytes) (xs : List Entry)
    → SeqFits xs
    → All (λ (x : Entry). is_visible key max_seq x ≡ false) xs
    → All (λ (x : Entry). bytes_eq x.0.user_key key ≡ false) xs
no_versions key [] seqs a = tt
no_versions key (x ∷ xs) seqs a =
    (sym (visible_now key x seqs.0) ∙ a.0, no_versions key xs seqs.1 a.1)

all_versions :
    (key : Bytes) (e : Entry) (xs : List Entry)
    → SeqFits xs
    → All (λ (x : Entry). is_visible key max_seq x ≡ true → Supersedes e x) xs
    → SupersedesAll key e xs
all_versions key e [] seqs a = tt
all_versions key e (x ∷ xs) seqs a =
    ((λ h. a.0 (visible_now key x seqs.0 ∙ h)), all_versions key e xs seqs.1 a.1)

-- The merge of the runs and the memtable finds for a key what the first answer among them is.
pub merge_all-first_found :
    (es : List Entry) (runs : List (List Entry)) (key : Bytes)
    → IsSorted es
    → All IsSorted runs
    → NewestFirst (es ∷ runs)
    → SeqFits (flat (es ∷ runs))
    → Option.map (λ t. t.1) (HashMap.get key (merge_all [] (flat runs ++ es)))
      ≡ first_found key max_seq (es ∷ runs)
unfolding HashMap.get
merge_all-first_found es runs key sorted all aged seqs =
    found (first_found-Finds key max_seq (es ∷ runs) (sorted, all) aged)
  where
    swapped : (P : Entry → Type 0) → All P (es ++ flat runs) → All P (flat runs ++ es)
    swapped P a =
        All-append P (flat runs) es (All-append_back P es (flat runs) a)
          (All-append_front P es (flat runs) a)

    found :
        {o : Option Value}
        → Finds key max_seq (es ++ flat runs) o
        → Option.map (λ t. t.1) (HashMap.get key (merge_all [] (flat runs ++ es))) ≡ o
    found (nothing a) = ap (Option.map (λ t. t.1)) (
        merge_all-none [] (flat runs ++ es) key refl
          (swapped _ (no_versions key (es ++ flat runs) seqs a)))
    found (best_of e f) = ap (Option.map (λ t. t.1)) (
        merge_all-best [] (flat runs ++ es) key e
          ((Perm.mem_iff (perm_append_comm es (flat runs))).0 f.mem)
          (sym (visible_now key e (f.holds (λ x. IsU64 x.0.seq) seqs)) ∙ f.visible) tt
          (swapped _ (all_versions key e (es ++ flat runs) seqs f.best)))
