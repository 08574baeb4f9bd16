-- ===== src/MemTable/History.antt =====
-- The memtable as the history of its writes: a read returns the last write that the snapshot sees.
use Prim.Native.Nat.Ordering.{lt, eq, gt}
use sift_core.MemTable.{insert}
use sift_core.Bytes.{Bytes}
use sift_core.Key.{Seq, InternalKey, Value, cmp, Entry}
use sift_core.Key.Order.{eq_of_cmp}
use sift_core.Key.Snapshot.{is_visible, find_visible}
use sift_core.Prelude.{
  ◌<◌, Ordering, ◌≡◌, refl, ap, some, List, [], ◌∷◌, arith, if◌then◌else◌, All, true,
}
use sift_core.Bytes.Order.{cmp_bytes_refl, eq_of_bytes_eq}

-- Every version of the run is older than `s`.
abbrev pub Older : Seq → List Entry → Type 0
Older s es = All (λ (e : Entry). e.0.seq < s) es

-- An older version of the same key does not stand before a newer one.
not_before :
    (k : InternalKey) (v : Value) (e : Entry) (key : Bytes) (as_of : Seq)
    → cmp k e.0 ≡ gt
    → e.0.seq < k.seq
    → is_visible key as_of (k, v) ≡ true
    → is_visible key as_of e ≡ true
    → ⊥
unfolding is_visible cmp
not_before k v e key as_of c older hk he =
    ground
      (arith, eq_of_bytes_eq k.user_key key, eq_of_bytes_eq e.0.user_key key, cmp_bytes_refl key)

after_insert :
    (k : InternalKey) (v : Value) (e : Entry) (rest rest' : List Entry) (key : Bytes) (as_of : Seq)
    → cmp k e.0 ≡ gt
    → e.0.seq < k.seq
    → find_visible key as_of rest'
      ≡ (if is_visible key as_of (k, v) then some v else find_visible key as_of rest)
    → find_visible key as_of (e ∷ rest')
      ≡ (if is_visible key as_of (k, v) then some v else find_visible key as_of (e ∷ rest))
unfolding find_visible
after_insert k v e rest rest' key as_of c older ih =
    ground (arith, ih, not_before k v e key as_of c older)

-- A version that is newer than all others is what every snapshot from its number on sees for its
-- key, and it changes no other read.
pub find_visible-insert :
    (k : InternalKey) (v : Value) (es : List Entry) (key : Bytes) (as_of : Seq)
    → Older k.seq es
    → find_visible key as_of (insert k v es)
      ≡ (if is_visible key as_of (k, v) then some v else find_visible key as_of es)
unfolding find_visible insert
find_visible-insert k v [] key as_of older = refl
find_visible-insert k v (e ∷ es) key as_of older =
    cases (find_visible-insert k v es key as_of older.1) (cmp k e.0) refl
  where
    cases :
        find_visible key as_of (insert k v es)
          ≡ (if is_visible key as_of (k, v) then some v else find_visible key as_of es)
        → (o : Ordering) → cmp k e.0 ≡ o
        → find_visible key as_of (insert k v (e ∷ es))
          ≡ (if is_visible key as_of (k, v) then some v else find_visible key as_of (e ∷ es))
    cases ih lt c = rw (insert, c)
    cases ih eq c =
        absurd (omega (arith, older.0, ap (λ (i : InternalKey). i.seq) (eq_of_cmp k e.0 c)))
    cases ih gt c = rw (insert, c) (after_insert k v e es (insert k v es) key as_of c older.0 ih)
