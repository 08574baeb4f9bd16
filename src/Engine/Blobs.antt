-- ===== src/Engine/Blobs.antt =====
-- A blob after a write.
use sift_core.Lsm
use sift_core.Engine
use sift_core.Lsm.Durable.{put_record, delete_record}
use sift_core.Lsm.Flushes.{FlushRoom}
use sift_core.Lsm.Puts.{logged_engine, get-put, get-delete}
use sift_core.Lsm.Recovery.{entry_of}
use sift_core.Lsm.Tables.{IsStore, Few}
use sift_core.Sstable.Records.{Fits}
use sift_core.Floats.{Floats, Documented}
use sift_core.Fallible.{done, ◌>>=◌, Fallible-cases}
use sift_core.Text.{Text, Unicode, b}
use sift_core.Vector
use sift_core.Engine.{Engine, upsert, get_blob, blob_of, from_io, upsert_indexes, delete_indexes}
use sift_core.Engine.Record.{encode_record, u64_be, from_be, from_be-u64_be}
use sift_core.Engine.RoundTrip.{Encodes, decode_record-stored}
use sift_core.Bytes.{Bytes, IsU32, IsU64, bytes_eq}
use sift_core.Bytes.Order.{eq_of_bytes_eq}
use sift_core.Disk.{Disk}
use sift_core.HashMap.{bytes_eq_iff}
use sift_core.Key.{Seq, Entry}
use sift_core.Prelude.{
  ℕ, ◌≡◌, sym, ap, ◌∙◌, inl, inr, true, Option, some, List, arith, ◌==◌, if◌then◌else◌, Bool-cases,
  length, refl, Bool, false, none, ◌∷◌, ◌+◌, ◌^◌, ◌<◌,
}
use sift_core.Result.{Result, ok}

-- The keys of two documents are the same where the ids are.
pub bytes_eq-u64_be : (a b : ℕ) → IsU64 a → IsU64 b → bytes_eq (u64_be a) (u64_be b) ≡ (a == b)
bytes_eq-u64_be a b ha hb = elim (Bool-cases (bytes_eq (u64_be a) (u64_be b))) [
  | inl same ↦
      let eq : a ≡ b =
        sym (from_be-u64_be a ha)
        ∙ ap (from_be 0) (eq_of_bytes_eq (u64_be a) (u64_be b) same)
        ∙ from_be-u64_be b hb in
      ground (arith, same, eq)
  | inr other ↦
      let apart : a ≡ b → bytes_eq (u64_be a) (u64_be b) ≡ true =
        λ e. (bytes_eq_iff (u64_be a) (u64_be b)).1 (ap u64_be e) in
      ground (arith, other, apart)
]

module _ (f : Floats) (u : Unicode) where
  open f use {F32}

  read_found :
      (b key : Bool) (hit : Result (Option Bytes)) (found : Option Bytes)
      (r : Result (Option Bytes))
      → b ≡ key
      → from_io hit >>= blob_of f u ≡ done found
      → from_io (if b then hit else r) >>= blob_of f u
        ≡ (if key then done found else (from_io r >>= blob_of f u))
  read_found true key hit found r same h = rw (sym same) h
  read_found false key hit found r same h = rw (sym same) refl

  blob_of_stored :
      (doc : Documented f) (enc : Encodes u) (vec : List F32) (text : Text) (blob : Bytes)
      → IsU32 (length vec)
      → IsU32 (length (u.as_bytes text))
      → IsU32 (length blob)
      → from_io (ok (some (encode_record f u vec text blob))) >>= blob_of f u ≡ done (some blob)
  unfolding from_io blob_of
  blob_of_stored doc enc vec text blob hv ht hb =
      ap (λ r. r >>= λ t. done (some t.2)) (decode_record-stored f u doc enc vec text blob hv ht hb)

  upsert_indexes-docs :
      (id : ℕ) (vec : List F32) (text : Text) (e : Engine F32)
      → (upsert_indexes f u id vec text e).1.docs ≡ e.docs
  unfolding upsert_indexes
  upsert_indexes-docs id vec text e = elim (Fallible-cases (Vector.insert e.vectors id vec)) [
    | inl (v, run) ↦ rw (upsert_indexes, run) refl
    | inr (inl (x, run)) ↦ rw (upsert_indexes, run) refl
    | inr (inr run) ↦ rw (upsert_indexes, run) refl
  ]

  -- Where the store answers, an upsert leaves the store that it answered with.
  pub upsert_store :
      (id : ℕ) (vec : List F32) (text : Text) (blob : Bytes) (e : Engine F32) (d : Disk) (s : Seq)
      → (Lsm.put (u64_be id) (encode_record f u vec text blob) e.docs d).0 ≡ ok s
      → ((upsert f u id vec text blob e d).1.docs
          ≡ (Lsm.put (u64_be id) (encode_record f u vec text blob) e.docs d).1)
        × ((upsert f u id vec text blob e d).2
            ≡ (Lsm.put (u64_be id) (encode_record f u vec text blob) e.docs d).2)
  unfolding upsert
  upsert_store id vec text blob e d s stored =
      rw (upsert, stored) (upsert_indexes-docs id vec text _, refl)

  -- After an upsert that the store answers, whether the indexes take the document or not, the blob is
  -- the one that was written, and every other blob is what it was before the upsert, whether the
  -- write ended in a flush, or in a flush and a compaction, or in neither. The lengths of the
  -- document fit 32 bits, the ids 64, and the record its widths. Before the upsert the memtable is
  -- valid and its entries fit their widths, the tables hold sorted runs that writers put there, newer
  -- versions stand before older ones, and the next numbers are new; there is room for a flush and the
  -- next numbers, and no run, nor the memtable with the record, holds more than 16 versions of the
  -- key of the blob that is read.
  pub get_blob-upsert :
      (doc : Documented f) (enc : Encodes u) (id : ℕ) (vec : List F32) (text : Text) (blob : Bytes)
      (e : Engine F32) (d : Disk) (runs : List (List Entry)) (s : Seq) (j : ℕ)
      → IsU64 id
      → IsU64 j
      → IsU32 (length vec)
      → IsU32 (length (u.as_bytes text))
      → IsU32 (length blob)
      → IsStore e.docs d runs
      → e.docs.next_seq + 1 < 2 ^ 64
      → Fits (entry_of (put_record e.docs (u64_be id) (encode_record f u vec text blob)))
      → FlushRoom
          (logged_engine e.docs d (put_record e.docs (u64_be id) (encode_record f u vec text blob)))
          runs
      → Few (u64_be j) (
          (Lsm.apply_record e.docs.memtable
            (put_record e.docs (u64_be id) (encode_record f u vec text blob))).entries
          ∷ runs)
      → (Lsm.put (u64_be id) (encode_record f u vec text blob) e.docs d).0 ≡ ok s
      → get_blob f u j (upsert f u id vec text blob e d).1 (upsert f u id vec text blob e d).2
        ≡ (if id == j then done (some blob) else get_blob f u j e d)
  unfolding get_blob
  get_blob-upsert doc enc id vec text blob e d runs s j hid hj hv ht hb store numbers fits room few
        stored =
      let (same_store, same_disk) = upsert_store id vec text blob e d s stored in
      rw (same_store, same_disk)
        (ap (λ r. from_io r >>= blob_of f u)
            (get-put e.docs d runs store numbers (u64_be id) (encode_record f u vec text blob) s
              (u64_be j) fits room few stored)
          ∙ read_found (bytes_eq (u64_be id) (u64_be j)) (id == j) _ (some blob) _
              (bytes_eq-u64_be id j hid hj) (blob_of_stored doc enc vec text blob hv ht hb))

  delete_indexes-docs : (id : ℕ) (e : Engine F32) → (delete_indexes f u id e).1.docs ≡ e.docs
  unfolding delete_indexes
  delete_indexes-docs id e = elim (Fallible-cases (Vector.remove e.vectors id)) [
    | inl (v, run) ↦ rw (delete_indexes, run) refl
    | inr (inl (x, run)) ↦ rw (delete_indexes, run) refl
    | inr (inr run) ↦ rw (delete_indexes, run) refl
  ]

  delete_store :
      (id : ℕ) (e : Engine F32) (d : Disk) (s : Seq)
      → (Lsm.delete (u64_be id) e.docs d).0 ≡ ok s
      → ((Engine.delete f u id e d).1.docs ≡ (Lsm.delete (u64_be id) e.docs d).1)
        × ((Engine.delete f u id e d).2 ≡ (Lsm.delete (u64_be id) e.docs d).2)
  unfolding Engine.delete
  delete_store id e d s stored = rw (Engine.delete, stored) (delete_indexes-docs id _, refl)

  -- After a delete that the store answers, the blob is gone, and every other blob is what it was
  -- before, under the same conditions as after an upsert.
  get_blob-delete :
      (id : ℕ) (e : Engine F32) (d : Disk) (runs : List (List Entry)) (s : Seq) (j : ℕ)
      → IsU64 id
      → IsU64 j
      → IsStore e.docs d runs
      → e.docs.next_seq + 1 < 2 ^ 64
      → Fits (entry_of (delete_record e.docs (u64_be id)))
      → FlushRoom (logged_engine e.docs d (delete_record e.docs (u64_be id))) runs
      → Few
          (u64_be j)
          ((Lsm.apply_record e.docs.memtable (delete_record e.docs (u64_be id))).entries ∷ runs)
      → (Lsm.delete (u64_be id) e.docs d).0 ≡ ok s
      → get_blob f u j (Engine.delete f u id e d).1 (Engine.delete f u id e d).2
        ≡ (if id == j then done none else get_blob f u j e d)
  unfolding get_blob blob_of
  get_blob-delete id e d runs s j hid hj store numbers fits room few stored =
      let (same_store, same_disk) = delete_store id e d s stored in
      rw (same_store, same_disk)
        (ap (λ r. from_io r >>= blob_of f u)
            (get-delete e.docs d runs store numbers (u64_be id) s (u64_be j) fits room few stored)
          ∙ read_found (bytes_eq (u64_be id) (u64_be j)) (id == j) (ok none) none _
              (bytes_eq-u64_be id j hid hj) refl)
