-- ===== src/MemTable.antt =====
-- src/memtable.rs: the in-memory sorted buffer. The `BTreeMap` is its entries in ascending order.
pub mod Reads
pub mod History
use sift_core.Bytes.{Bytes, bytes_eq}
use sift_core.Key.{Seq, max_seq, InternalKey, Value, cmp, Entry}
use sift_core.Prelude.{
  ℕ, ◌+◌, Ordering, Bool, true, false, Option, none, some, List, [], ◌∷◌, leb, if◌then◌else◌,
  length,
}

pub record MemTable : Type 0 where
  pub entries : List Entry
  pub approx_bytes : ℕ

unfoldable pub new : MemTable
new = record { entries = []; approx_bytes = 0 }

-- `BTreeMap::insert`: an equal key keeps its place and takes the new value.
unfoldable pub insert : InternalKey → Value → List Entry → List Entry
insert k v [] = (k, v) ∷ []
insert k v (e ∷ es) =
    let rest = insert k v es in
    elim (cmp k e.0) [
      | Ordering.lt ↦ (k, v) ∷ e ∷ es
      | Ordering.eq ↦ (e.0, v) ∷ es
      | Ordering.gt ↦ e ∷ rest
    ]

unfoldable pub put : MemTable → Bytes → Bytes → Seq → MemTable
unfolding insert
put m key val seq = record {
  entries = insert (record { user_key = key; seq = seq }) (Value.put val) m.entries;
  approx_bytes = m.approx_bytes + (length key + length val + 24);
}

unfoldable pub delete : MemTable → Bytes → Seq → MemTable
unfolding insert
delete m key seq = record {
  entries = insert (record { user_key = key; seq = seq }) Value.delete m.entries;
  approx_bytes = m.approx_bytes + (length key + 24);
}

-- `range(start..)`.
unfoldable pub range : InternalKey → List Entry → List Entry
range start [] = []
range start (e ∷ es) =
    let rest = range start es in elim (cmp e.0 start) [ Ordering.lt ↦ rest | _ ↦ e ∷ es ]

-- `take_while(|(ik, _)| ik.user_key == key)`.
unfoldable pub take_key : Bytes → List Entry → List Entry
take_key key [] = []
take_key key (e ∷ es) =
    let rest = take_key key es in if bytes_eq e.0.user_key key then e ∷ rest else []

-- `find(|(ik, _)| ik.seq <= as_of).map(|(_, v)| v)`.
unfoldable pub find_seq : Seq → List Entry → Option Value
find_seq as_of [] = none
find_seq as_of (e ∷ es) =
    let rest = find_seq as_of es in if leb e.0.seq as_of then some e.1 else rest

unfoldable pub get : MemTable → Bytes → Seq → Option Value
unfolding range take_key find_seq
get m key as_of =
    find_seq as_of (take_key key (range (record { user_key = key; seq = max_seq }) m.entries))

unfoldable pub is_empty : MemTable → Bool
is_empty m = elim m.entries [ [] ↦ true | _ ↦ false ]

unfoldable pub clear : MemTable → MemTable
clear m = record { entries = []; approx_bytes = 0 }
