-- ===== src/Lsm/ScanReads.antt =====
-- The full scan against the point reads, in a store that has no tables yet.
use mathlib.Core.Option
use sift_core.HashMap
use sift_core.HashMap.{HashMap, bytes_key, contains}
use sift_core.HashMap.Laws.{Distinct, get-none}
use sift_core.MemTable
use sift_core.MemTable.Reads.{IsValid, SeqFits, get-eq-find_visible}
use sift_core.Lsm
use sift_core.Lsm.{LsmEngine, live, get_at}
use sift_core.Lsm.Scan.{Latest, merge_latest, merge_all, live_pairs, iter_all}
use sift_core.Compaction.{lookup_in_tiers}
use sift_core.Bytes.{Bytes, IsU64, bytes_eq}
use sift_core.Bytes.Order.{eq_of_bytes_eq, bytes_eq_refl}
use sift_core.Disk.{Disk}
use sift_core.Key.{Seq, Value, Entry, max_seq, as_put}
use sift_core.Key.Order.{IsSorted, Above}
use sift_core.Key.Snapshot.{is_visible, find_visible, older_behind}
use sift_core.Result.{ok}
use sift_core.Prelude.{
  ◌≤◌, ◌≡◌, refl, ap, inl, inr, true, false, ◌||◌, Option, none, some, List, [], ◌∷◌, arith, ltb,
  if◌then◌else◌, Bool-cases, All, subst, sym, ◌∙◌, Option-cases,
}
use sift_core.MemTable.{MemTable}

-- What a version makes of the newest one so far.
abbrev pub newer : Entry → Option (Seq × Value) → Option (Seq × Value)
newer (ik, v) none = some (ik.seq, v)
newer (ik, v) (some (s, old)) = if ltb s ik.seq then some (ik.seq, v) else some (s, old)

pub get-merge_latest :
    (l : Latest) (e : Entry) (key : Bytes)
    → HashMap.get key (merge_latest l e)
      ≡ (if bytes_eq e.0.user_key key then newer e (HashMap.get key l) else HashMap.get key l)
unfolding HashMap.get merge_latest
get-merge_latest [] (ik, v) key = refl
get-merge_latest ((k, (s, old)) ∷ l) (ik, v) key = ground (
  arith,
  get-merge_latest l (ik, v) key,
  eq_of_bytes_eq k ik.user_key,
  eq_of_bytes_eq k key,
  eq_of_bytes_eq ik.user_key key,
  bytes_eq_refl key,
)

contains-merge_latest :
    (l : Latest) (e : Entry) (key : Bytes)
    → contains key (merge_latest l e) ≡ (bytes_eq e.0.user_key key || contains key l)
unfolding contains merge_latest
contains-merge_latest [] (ik, v) key = ground arith
contains-merge_latest ((k, (s, old)) ∷ l) (ik, v) key =
    ground (arith, contains-merge_latest l (ik, v) key, eq_of_bytes_eq k ik.user_key)

merge_latest-Distinct : (l : Latest) (e : Entry) → Distinct l → Distinct (merge_latest l e)
unfolding merge_latest contains
merge_latest-Distinct [] e d = (refl, tt)
merge_latest-Distinct ((k, (s, old)) ∷ l) (ik, v) d = ground (
  arith,
  merge_latest-Distinct l (ik, v),
  contains-merge_latest l (ik, v) k,
  eq_of_bytes_eq ik.user_key k,
  bytes_eq_refl k,
)

pub merge_all-Distinct : (l : Latest) (es : List Entry) → Distinct l → Distinct (merge_all l es)
unfolding merge_all
merge_all-Distinct l [] d = d
merge_all-Distinct l (e ∷ es) d =
    merge_all-Distinct (merge_latest l e) es (merge_latest-Distinct l e d)

-- A newest version that none behind is newer than stays.
pub merge_all_kept :
    (l : Latest) (es : List Entry) (key : Bytes) (s : Seq) (v : Value)
    → HashMap.get key l ≡ some (s, v)
    → All (λ (e : Entry). bytes_eq e.0.user_key key ≡ true → e.0.seq ≤ s) es
    → HashMap.get key (merge_all l es) ≡ some (s, v)
unfolding merge_all
merge_all_kept l [] key s v h older = h
merge_all_kept l (e ∷ es) key s v h older =
    let now = get-merge_latest l e key in
    let kept : HashMap.get key (merge_latest l e) ≡ some (s, v) =
      elim (Bool-cases (bytes_eq e.0.user_key key)) [
        | inl here ↦ ground (arith, now, h, here, older.0 here)
        | inr apart ↦ ground (arith, now, h, apart)
      ] in
    merge_all_kept (merge_latest l e) es key s v kept older.1

pub seen :
    (key : Bytes) (e : Entry)
    → bytes_eq e.0.user_key key ≡ true
    → IsU64 e.0.seq
    → is_visible key max_seq e ≡ true
unfolding is_visible
seen key e here word = ground (arith, here, word)

-- Behind a version of a key in a sorted run there are older ones only.
all_older :
    (key : Bytes) (e : Entry) (es : List Entry)
    → is_visible key max_seq e ≡ true
    → Above e.0 es
    → SeqFits es
    → All (λ (x : Entry). bytes_eq x.0.user_key key ≡ true → x.0.seq ≤ e.0.seq) es
all_older key e [] h above fits = tt
all_older key e (x ∷ es) h above fits = (
  (λ same. older_behind key max_seq e x h above.0 (seen key x same fits.0)),
  all_older key e es h above.1 fits.1,
)

-- In a sorted run the merge finds the first version of a key.
merge_all-find_visible :
    (l : Latest) (es : List Entry) (key : Bytes)
    → HashMap.get key l ≡ none
    → IsSorted es
    → SeqFits es
    → Option.map (λ t. t.1) (HashMap.get key (merge_all l es)) ≡ find_visible key max_seq es
unfolding merge_all find_visible is_visible
merge_all-find_visible l [] key h sorted fits = ap (Option.map (λ t. t.1)) h
merge_all-find_visible l (e ∷ es) key h sorted fits =
    elim (Bool-cases (bytes_eq e.0.user_key key)) [
      | inl here ↦
          let visible = seen key e here fits.0 in
          let first : HashMap.get key (merge_latest l e) ≡ some (e.0.seq, e.1) =
            ground (arith, get-merge_latest l e key, h, here) in
          rw visible (
            ap (Option.map (λ t. t.1)) (
              merge_all_kept (merge_latest l e) es key e.0.seq e.1 first
                (all_older key e es visible sorted.0 fits.1)))
      | inr apart ↦
          let still : HashMap.get key (merge_latest l e) ≡ none =
            ground (arith, get-merge_latest l e key, h, apart) in
          rw apart (merge_all-find_visible (merge_latest l e) es key still sorted.1 fits.1)
    ]

contains-live_pairs :
    (l : Latest) (key : Bytes) → contains key l ≡ false → contains key (live_pairs l) ≡ false
unfolding contains live_pairs
contains-live_pairs [] key h = refl
contains-live_pairs ((k, (s, Value.put bytes)) ∷ l) key h =
    ground (arith, contains-live_pairs l key)
contains-live_pairs ((k, (s, Value.delete)) ∷ l) key h = ground (arith, contains-live_pairs l key)

pub live_pairs-Distinct : (l : Latest) → Distinct l → Distinct (live_pairs l)
unfolding live_pairs
live_pairs-Distinct [] d = tt
live_pairs-Distinct ((k, (s, Value.put bytes)) ∷ l) d =
    (contains-live_pairs l k d.0, live_pairs-Distinct l d.1)
live_pairs-Distinct ((k, (s, Value.delete)) ∷ l) d = live_pairs-Distinct l d.1

pub get-live_pairs :
    (l : Latest) (key : Bytes)
    → Distinct l
    → HashMap.get key (live_pairs l) ≡ live (Option.map (λ t. t.1) (HashMap.get key l))
unfolding HashMap.get live_pairs as_put
get-live_pairs [] key d = refl
get-live_pairs ((k, (s, Value.put bytes)) ∷ l) key d = ground (arith, get-live_pairs l key d.1)
get-live_pairs ((k, (s, Value.delete)) ∷ l) key d = elim (Bool-cases (bytes_eq k key)) [
  | inl here ↦
      let gone : contains key l ≡ false =
        subst (λ t. contains t l ≡ false) (eq_of_bytes_eq k key here) d.0 in
      ground (arith, here, get-none key (live_pairs l) (contains-live_pairs l key gone))
  | inr apart ↦ ground (arith, apart, get-live_pairs l key d.1)
]

bare_read :
    (db : LsmEngine) (key : Bytes) (d : Disk)
    → db.tiers ≡ []
    → Lsm.get db key d ≡ ok (live (MemTable.get db.memtable key max_seq))
unfolding Lsm.get lookup_in_tiers
bare_read db key d bare = elim (Option-cases (MemTable.get db.memtable key max_seq)) [
  | inl e ↦ ground (arith, e, bare)
  | inr (v, e) ↦ ground (arith, e)
]

-- Where the store has no tables yet and a valid memtable, the full scan answers pairs with distinct
-- keys, and they hold for every key what a read of the key returns.
pub iter_all-get :
    (db : LsmEngine) (d : Disk)
    → db.tiers ≡ []
    → IsValid db.memtable
    → (pairs : HashMap Bytes Bytes) × (iter_all db d ≡ ok pairs)
      × Distinct pairs
      × ((key : Bytes) → Lsm.get db key d ≡ ok (HashMap.get key pairs))
unfolding iter_all HashMap.get
iter_all-get db d bare valid =
    let latest = merge_all [] db.memtable.entries in
    let distinct = merge_all-Distinct [] db.memtable.entries tt in
    (
      live_pairs latest,
      ground (arith, bare),
      live_pairs-Distinct latest distinct,
      λ key.
          let found =
            get-live_pairs latest key distinct
            ∙ ap live (
                merge_all-find_visible [] db.memtable.entries key refl valid.sorted valid.fits
                ∙ sym (get-eq-find_visible db.memtable key max_seq valid)) in
          bare_read db key d bare ∙ ap ok (sym found),
    )
