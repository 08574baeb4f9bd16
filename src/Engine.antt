-- ===== src/Engine.antt =====
-- src/engine.rs: the storage engine, the vector index and the text index together. Every method
-- takes the engine and the disk and returns both.
pub mod Record
pub mod RoundTrip
pub mod Cut
pub mod Agree
pub mod Blobs
pub mod Errors
pub mod Rebuild
pub mod Hits
use sift_core.Lsm
use sift_core.Lsm.{LsmEngine}
use sift_core.Lsm.Open.{open_engine}
use sift_core.Lsm.Scan.{iter_all}
use sift_core.Vector
use sift_core.Vector.{VectorIndex, Metric, VectorError}
use sift_core.Vector.Search as VectorSearch
use sift_core.Text
use sift_core.Text.{Text, Unicode, InvertedIndex, index_document, remove_document}
use sift_core.Fusion.{reciprocal_rank_fusion}
use sift_core.Ranking.{Scored}
use sift_core.Floats.{Floats}
use sift_core.Fallible.{Fallible, done, failed, crashed, ◌>>=◌}
use sift_core.Engine.Record.{
  EngineError, io, vector, corrupt, u64_be, from_be, encode_record, decode_record,
}
use sift_core.Bytes.{Bytes}
use sift_core.Disk.{Disk}
use sift_core.HashMap.Laws.{held}
use sift_core.Prelude.{
  ℕ, ◌*◌, ◌%◌, ◌^◌, max, Bool, not, Option, none, some, List, [], ◌∷◌, ◌==◌, if◌then◌else◌, length,
  take,
}
use sift_core.Result.{Result, ok, err, panicked}

pub record Engine (F : Type 0) : Type 0 where
  pub docs : LsmEngine
  pub vectors : VectorIndex F
  pub text : InvertedIndex

pub record SearchHit (F : Type 0) : Type 0 where
  pub id : ℕ
  pub score : F
  pub blob : Bytes

-- `From<io::Error>` and `From<VectorError>`, as `?` applies them.
unfoldable pub from_io {ℓ} : {A : Type ℓ} → Result A → Fallible EngineError A
from_io (ok a) = done a
from_io (err e) = failed (io e)
from_io panicked = crashed

unfoldable pub from_vector {ℓ} : {A : Type ℓ} → Fallible VectorError A → Fallible EngineError A
from_vector (done a) = done a
from_vector (failed e) = failed (vector e)
from_vector crashed = crashed

module _ (f : Floats) (u : Unicode) where
  open f use {F32, literal}

  -- The loop of `open` over the live pairs of the store.
  unfoldable pub rebuild :
      List (Bytes × Bytes)
      → VectorIndex F32
      → InvertedIndex
      → Fallible EngineError (VectorIndex F32 × InvertedIndex)
  unfolding from_be decode_record from_vector index_document
  rebuild [] vectors text = done (vectors, text)
  rebuild ((key, rec) ∷ pairs) vectors text =
      if not (length key == 8)
      then rebuild pairs vectors text
      else decode_record f u rec >>= λ r.
          from_vector (Vector.insert vectors (from_be 0 key) r.0) >>= λ vectors'.
          rebuild pairs vectors' (index_document u (from_be 0 key) r.1 text)

  -- `open`.
  unfoldable pub open_dir : ℕ → Disk → Fallible EngineError (Engine F32) × Disk
  unfolding rebuild from_io
  open_dir dim d =
      let (r, d1) = open_engine d in
      (
        do
          docs ← from_io r
          pairs ← from_io (iter_all docs d1)
          (vectors, text) ← rebuild pairs (Vector.new dim) Text.new
          done (record { docs = docs; vectors = vectors; text = text }),
        d1,
      )

  -- What `upsert` does after the store answered.
  unfoldable pub upsert_indexes :
      ℕ → List F32 → Text → Engine F32 → Fallible EngineError (Unit {0}) × Engine F32
  unfolding from_vector
  upsert_indexes id vec text e = elim (Vector.insert e.vectors id vec) [
    | done vectors ↦
        (done tt, record e { vectors = vectors; text = index_document u id text e.text })
    | failed x ↦ (failed (vector x), e)
    | crashed ↦ (crashed, e)
  ]

  -- `upsert`.
  unfoldable pub upsert :
      ℕ
      → List F32
      → Text
      → Bytes
      → Engine F32
      → Disk
      → Fallible EngineError (Unit {0}) × Engine F32 × Disk
  unfolding upsert_indexes encode_record u64_be
  upsert id vec text blob e d =
      let (r, docs, d1) = Lsm.put (u64_be id) (encode_record f u vec text blob) e.docs d in
      let stored = record e { docs = docs } in
      elim r [
        | ok seq ↦ let (r', e') = upsert_indexes id vec text stored in (r', e', d1)
        | err x ↦ (failed (io x), stored, d1)
        | panicked ↦ (crashed, stored, d1)
      ]

  -- What `delete` does after the store answered.
  unfoldable pub delete_indexes : ℕ → Engine F32 → Fallible EngineError (Unit {0}) × Engine F32
  unfolding remove_document
  delete_indexes id e = elim (Vector.remove e.vectors id) [
    | done (was, vectors) ↦
        (done tt, record e { vectors = vectors; text = remove_document id e.text })
    | failed x ↦ (failed (vector x), e)
    | crashed ↦ (crashed, e)
  ]

  -- `delete`.
  unfoldable pub delete :
      ℕ → Engine F32 → Disk → Fallible EngineError (Unit {0}) × Engine F32 × Disk
  unfolding delete_indexes u64_be
  delete id e d =
      let (r, docs, d1) = Lsm.delete (u64_be id) e.docs d in
      let stored = record e { docs = docs } in
      elim r [
        | ok seq ↦ let (r', e') = delete_indexes id stored in (r', e', d1)
        | err x ↦ (failed (io x), stored, d1)
        | panicked ↦ (crashed, stored, d1)
      ]

  -- The blob of a record that was found.
  unfoldable pub blob_of : Option Bytes → Fallible EngineError (Option Bytes)
  unfolding decode_record
  blob_of none = done none
  blob_of (some rec) = decode_record f u rec >>= λ r. done (some r.2)

  -- `get_blob`.
  unfoldable pub get_blob : ℕ → Engine F32 → Disk → Fallible EngineError (Option Bytes)
  unfolding blob_of from_io u64_be
  get_blob id e d = from_io (Lsm.get e.docs (u64_be id) d) >>= blob_of

  -- The hits of a query with their blobs; a document that is gone has an empty one.
  unfoldable pub fetch_hits :
      List (Scored F32) → Engine F32 → Disk → Fallible EngineError (List (SearchHit F32))
  unfolding get_blob
  fetch_hits [] e d = done []
  fetch_hits ((id, score) ∷ hits) e d = do
    blob ← get_blob id e d
    rest ← fetch_hits hits e d
    done (record { id = id; score = score; blob = held [] blob } ∷ rest)

  -- `query`: `k * CANDIDATE_POOL_MULTIPLIER` wraps around.
  unfoldable pub query :
      List F32 → Text → ℕ → Engine F32 → Disk → Fallible EngineError (List (SearchHit F32))
  unfolding from_vector fetch_hits reciprocal_rank_fusion
  query vec text_query k e d =
      let pool = max (k * 4 % 2 ^ 64) 20 in
      from_vector (VectorSearch.search f e.vectors vec pool Metric.cosine) >>= λ vector_results.
      let text_results = Text.search f u e.text text_query pool in
      let fused = reciprocal_rank_fusion f (vector_results ∷ text_results ∷ []) (literal 60 1) in
      fetch_hits (take k fused) e d

  -- `flush`.
  unfoldable pub flush : Engine F32 → Disk → Fallible EngineError (Unit {0}) × Engine F32 × Disk
  unfolding from_io
  flush e d = let (r, docs, d1) = Lsm.flush e.docs d in (from_io r, record e { docs = docs }, d1)

  unfoldable pub len : Engine F32 → ℕ
  len e = Vector.len e.vectors

  unfoldable pub is_empty : Engine F32 → Bool
  is_empty e = Vector.is_empty e.vectors
