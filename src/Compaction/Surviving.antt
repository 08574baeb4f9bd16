-- ===== src/Compaction/Surviving.antt =====
-- src/compaction.rs: which of the entries in merge order the compaction writes.
use sift_core.Bytes.{Bytes}
use sift_core.Compaction.{Merge, is_newest_for_key, emit}
use sift_core.Compaction.Least.{NotAfter}
use sift_core.Key.{InternalKey, Value, Entry}
use sift_core.Prelude.{◌≡◌, Bool, true, not, Option, some, List, [], ◌∷◌, arith, if◌then◌else◌, All}
use sift_core.Sstable.{add_entries}

-- At the last level a tombstone is not written.
unfoldable pub is_written : Bool → Value → Bool
is_written is_last_level (Value.put v) = true
is_written is_last_level Value.delete = not is_last_level

-- The entries that are written, behind an entry of the key `prev`.
unfoldable pub surviving : Bool → Option Bytes → List Entry → List Entry
unfolding is_newest_for_key is_written
surviving is_last_level prev [] = []
surviving is_last_level prev (e ∷ es) =
    let later = surviving is_last_level (some e.0.user_key) es in
    let shadowed = surviving is_last_level prev es in
    if is_newest_for_key prev e.0.user_key
    then (if is_written is_last_level e.1 then e ∷ later else later)
    else shadowed

-- No entry stands before one that precedes it in the order of the keys.
abbrev pub Ascending : List Entry → Type 0
Ascending [] = Unit
Ascending (e ∷ es) = All (λ (x : Entry). NotAfter e.0 x.0) es × Ascending es

-- The end of a round writes what survives.
pub emit-surviving :
    (is_last_level : Bool) (e : Entry) (m : Merge) (es : List Entry)
    → add_entries
        (emit is_last_level e.0 e.1 m).writer
        (surviving is_last_level (emit is_last_level e.0 e.1 m).last_emitted_key es)
      ≡ add_entries m.writer (surviving is_last_level m.last_emitted_key (e ∷ es))
unfolding emit surviving is_written add_entries
emit-surviving is_last_level (ik, Value.put v) m es = ground arith
emit-surviving is_last_level (ik, Value.delete) m es = ground arith

pub emit_keeps :
    (is_last_level : Bool) (ik : InternalKey) (v : Value) (m : Merge)
    → ((emit is_last_level ik v m).heap ≡ m.heap)
      × ((emit is_last_level ik v m).buffered ≡ m.buffered)
      × ((emit is_last_level ik v m).iters ≡ m.iters)
unfolding emit
emit_keeps is_last_level ik (Value.put v) m = ground arith
emit_keeps is_last_level ik Value.delete m = ground arith
