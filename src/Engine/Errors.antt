-- ===== src/Engine/Errors.antt =====
-- Writes that fail, and what they leave.
use sift_core.Lsm
use sift_core.Vector
use sift_core.Vector.{VectorIndex, VectorError, dimension_mismatch}
use sift_core.Floats.{Floats, Documented}
use sift_core.Fallible.{done, failed, Fallible-cases}
use sift_core.Text.{Text, Unicode, InvertedIndex, index_document}
use sift_core.Engine.{Engine, upsert, upsert_indexes, rebuild}
use sift_core.Engine.Record.{vector, encode_record, decode_record, u64_be, from_be, length-u64_be}
use sift_core.Engine.RoundTrip.{Encodes, decode_record-stored}
use sift_core.Bytes.{Bytes, IsU32}
use sift_core.Disk.{Disk}
use sift_core.Key.{Seq}
use sift_core.Prelude.{
  ℕ, ◌≡◌, refl, ◌≢◌, List, [], ◌∷◌, ◌++◌, arith, length, ◌∙◌, inl, inr, ◌==◌, Bool-cases,
}
use sift_core.Result.{ok, Result-cases}

module _ {F : Type 0} where
  pub insert_mismatch :
      (v : VectorIndex F) (id : ℕ) (r : List F)
      → length r ≢ v.dim
      → Vector.insert v id r ≡ failed (dimension_mismatch v.dim (length r))
  unfolding Vector.insert
  insert_mismatch v id r wrong = ground (arith, wrong)

  insert_dim :
      (v v' : VectorIndex F) (id : ℕ) (r : List F) → Vector.insert v id r ≡ done v' → v'.dim ≡ v.dim
  unfolding Vector.insert
  insert_dim v v' id r run = ground arith

module _ (f : Floats) (u : Unicode) where
  open f use {F32}

  -- Whatever goes wrong in an upsert, the two indexes stay what they were.
  pub upsert_failed :
      (id : ℕ) (vec : List F32) (text : Text) (blob : Bytes) (e : Engine F32) (d : Disk)
      → (upsert f u id vec text blob e d).0 ≢ done tt
      → ((upsert f u id vec text blob e d).1.vectors ≡ e.vectors)
        × ((upsert f u id vec text blob e d).1.text ≡ e.text)
  unfolding upsert
  upsert_failed id vec text blob e d not_done =
      let rec = encode_record f u vec text blob in
      elim (Result-cases (Lsm.put (u64_be id) rec e.docs d).0) [
        | inl (s, stored) ↦ elim (Fallible-cases (Vector.insert e.vectors id vec)) [
          | inl (v, run) ↦ absurd (not_done (rw (upsert, stored, upsert_indexes, run) refl))
          | inr (inl (x, run)) ↦ rw (upsert, stored, upsert_indexes, run) (refl, refl)
          | inr (inr run) ↦ rw (upsert, stored, upsert_indexes, run) (refl, refl)
        ]
        | inr (inl (x, stored)) ↦ rw (upsert, stored) (refl, refl)
        | inr (inr stored) ↦ rw (upsert, stored) (refl, refl)
      ]

  -- A row of another length is refused, but the store has the record: where it answers the write,
  -- the upsert answers the mismatch, leaves both indexes and keeps the store with the record.
  pub upsert_mismatch :
      (id : ℕ) (vec : List F32) (text : Text) (blob : Bytes) (e : Engine F32) (d : Disk) (s : Seq)
      → length vec ≢ e.vectors.dim
      → (Lsm.put (u64_be id) (encode_record f u vec text blob) e.docs d).0 ≡ ok s
      → upsert f u id vec text blob e d ≡ (
        failed (vector (dimension_mismatch e.vectors.dim (length vec))),
        record e { docs = (Lsm.put (u64_be id) (encode_record f u vec text blob) e.docs d).1 },
        (Lsm.put (u64_be id) (encode_record f u vec text blob) e.docs d).2,
      )
  unfolding upsert
  upsert_mismatch id vec text blob e d s wrong stored =
      rw (upsert, stored, upsert_indexes, insert_mismatch e.vectors id vec wrong) refl

  -- A record with a row of another length than the index's, whose lengths fit 32 bits, stops the
  -- loop of `open`, wherever it stands among the live pairs: the loop does not answer.
  pub rebuild_mismatch :
      (doc : Documented f) (enc : Encodes u) (id : ℕ) (vec : List F32) (text : Text) (blob : Bytes)
      (front back : List (Bytes × Bytes)) (v : VectorIndex F32) (t : InvertedIndex)
      (r : VectorIndex F32 × InvertedIndex)
      → IsU32 (length vec)
      → IsU32 (length (u.as_bytes text))
      → IsU32 (length blob)
      → length vec ≢ v.dim
      → rebuild f u (front ++ ((u64_be id, encode_record f u vec text blob) ∷ back)) v t ≢ done r
  unfolding rebuild
  rebuild_mismatch doc enc id vec text blob [] back v t r hv ht hb wrong h =
      let read = decode_record-stored f u doc enc vec text blob hv ht hb in
      let refused = insert_mismatch v (from_be 0 (u64_be id)) vec wrong in
      absurd (ground (arith, h, read, refused, length-u64_be id))
  rebuild_mismatch doc enc id vec text blob ((key, rec) ∷ front) back v t r hv ht hb wrong h =
      elim (Bool-cases (length key == 8)) [
        | inr foreign_key ↦
            rebuild_mismatch doc enc id vec text blob front back v t r hv ht hb wrong
              (ground (arith, foreign_key, h))
        | inl ours ↦ elim (Fallible-cases (decode_record f u rec)) [
          | inr (inl (x, bad)) ↦ absurd (ground (arith, ours, bad, h))
          | inr (inr bad) ↦ absurd (ground (arith, ours, bad, h))
          | inl (x, read) ↦ elim (Fallible-cases (Vector.insert v (from_be 0 key) x.0)) [
            | inr (inl (y, bad)) ↦ absurd (ground (arith, ours, read, bad, h))
            | inr (inr bad) ↦ absurd (ground (arith, ours, read, bad, h))
            | inl (v', run) ↦
                rebuild_mismatch doc enc id vec text blob front back v'
                  (index_document u (from_be 0 key) x.1 t) r hv ht hb
                  (λ e. wrong (e ∙ insert_dim v v' (from_be 0 key) x.0 run))
                  (ground (arith, ours, read, run, h))
          ]
        ]
      ]
