-- ===== src/Sstable/Written.antt =====
-- What the writer holds after a run of entries.
use sift_core.Sstable.{SstableWriter, encode_entry, add_entry, add_entries}
use sift_core.Bytes.{Bytes}
use sift_core.Key.{Entry}
use sift_core.Prelude.{
  ℕ, ◌+◌, ◌%◌, ◌≡◌, refl, sym, ◌∙◌, inl, inr, List, [], ◌∷◌, ◌++◌, append-nil, append_assoc, arith,
  ◌==◌, if◌then◌else◌, Bool-cases, length, length-append,
}
use sift_core.Sstable.Bloom.Members.{add_all}
use sift_core.Sstable.Records.{encode_entries}

-- The keys of a run.
abbrev pub keys_of : List Entry → List Bytes
keys_of [] = []
keys_of (e ∷ es) = e.0.user_key ∷ keys_of es

-- The sparse index of a run: the key and the offset of every sixteenth entry, where `since` counts
-- from the last one.
abbrev pub sparse_of : ℕ → ℕ → List Entry → List (Bytes × ℕ)
sparse_of since off [] = []
sparse_of since off (e ∷ es) =
    let rest = sparse_of ((since + 1) % 16) (off + length (encode_entry e)) es in
    if since == 0 then (e.0.user_key, off) ∷ rest else rest

-- The writer `w` after the entries.
pub record Written (w : SstableWriter) (es : List Entry) : Type 0 where
  pub path : (add_entries w es).path ≡ w.path
  pub data_block : (add_entries w es).data_block ≡ w.data_block ++ encode_entries es
  pub offset : (add_entries w es).offset ≡ w.offset + length (encode_entries es)
  pub sparse_index :
      (add_entries w es).sparse_index
      ≡ w.sparse_index ++ sparse_of w.entries_since_index w.offset es
  pub bloom : (add_entries w es).bloom ≡ add_all (keys_of es) w.bloom
  pub entry_count : (add_entries w es).entry_count ≡ w.entry_count + length es

sparse_step :
    (index : List (Bytes × ℕ)) (since off : ℕ) (e : Entry) (es : List Entry)
    → (if since == 0 then index ++ ((e.0.user_key, off) ∷ []) else index)
        ++ sparse_of ((since + 1) % 16) (off + length (encode_entry e)) es
      ≡ index ++ sparse_of since off (e ∷ es)
sparse_step index since off e es = elim (Bool-cases (since == 0)) [
  | inl zero_ ↦ rw zero_ (append_assoc index ((e.0.user_key, off) ∷ []) _)
  | inr other ↦ rw other
]

pub add_entries-Written : (w : SstableWriter) (es : List Entry) → Written w es
unfolding add_entries encode_entries add_all
add_entries-Written w [] = record {
  path = refl;
  data_block = sym (append-nil w.data_block);
  offset = omega arith;
  sparse_index = sym (append-nil w.sparse_index);
  bloom = refl;
  entry_count = omega arith;
}
add_entries-Written w (e ∷ es) =
    let ih = add_entries-Written (add_entry w e) es in
    record {
      path = ih.path;
      data_block = ih.data_block ∙ append_assoc w.data_block (encode_entry e) (encode_entries es);
      offset = omega (arith, ih.offset, length-append (encode_entry e) (encode_entries es));
      sparse_index =
          ih.sparse_index ∙ sparse_step w.sparse_index w.entries_since_index w.offset e es;
      bloom = ih.bloom;
      entry_count = omega (arith, ih.entry_count);
    }
