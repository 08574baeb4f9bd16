-- ===== src/Engine/Agree.antt =====
-- The two indexes hold the same documents.
use sift_core.Lsm
use sift_core.HashMap
use sift_core.HashMap.{HashMap, nat_key, contains}
use sift_core.HashMap.Laws.{contains-insert, contains-remove}
use sift_core.HashMap.Moves.{contains-is_some}
use sift_core.Vector
use sift_core.Vector.{VectorIndex}
use sift_core.Vector.Rows.{Rows, Holds}
use sift_core.Vector.Insert.{insert-Holds}
use sift_core.Vector.Remove.{remove-Holds}
use sift_core.Vector.RemoveLast.{Without}
use sift_core.Text.{Text, Unicode, InvertedIndex, tokenize, index_document, remove_document}
use sift_core.Text.Docs.{Docs, Indexes, total_of}
use sift_core.Text.Insert.{index-Indexes}
use sift_core.Text.Remove.{remove-Indexes}
use sift_core.Floats.{Floats}
use sift_core.Fallible.{done}
use sift_core.Engine
use sift_core.Engine.{Engine, upsert, upsert_indexes, delete_indexes}
use sift_core.Engine.Record.{encode_record, u64_be}
use sift_core.Bytes.{Bytes}
use sift_core.Disk.{Disk, without}
use sift_core.Key.{Seq}
use sift_core.Prelude.{ℕ, ◌+◌, ◌-◌, ◌^◌, ◌<◌, ◌≡◌, refl, List, arith, length}
use sift_core.Result.{ok}

-- The vector index holds exactly the rows, the text index exactly the documents, and both have the
-- same ids.
pub record Agrees {F : Type 0} (vectors : VectorIndex F) (text : InvertedIndex) (rows : Rows F)
    (docs : Docs) : Type 0 where
  pub holds : Holds vectors rows
  pub indexes : Indexes text docs
  pub same_ids : (id : ℕ) → contains id rows ≡ contains id docs

-- The documents after one is written.
abbrev pub put_doc : Unicode → ℕ → Text → Docs → Docs
put_doc u id text docs = HashMap.insert id (tokenize u text) (HashMap.remove id docs)

-- The sizes of the text index stay in their integers when a text comes in.
abbrev pub HasRoom : Unicode → Text → Docs → Type 0
HasRoom u text docs =
    (length (tokenize u text) < 2 ^ 32)
    × (total_of docs + length (tokenize u text) < 2 ^ 64)
    × (length docs < 2 ^ 64 - 1)

module _ {F : Type 0} where
  -- Both indexes after a document with a row of the right length.
  pub write-Agrees :
      (u : Unicode) (id : ℕ) (vec : List F) (text : Text) (v : VectorIndex F) (t : InvertedIndex)
      (rows : Rows F) (docs : Docs)
      → length vec ≡ v.dim
      → HasRoom u text docs
      → Agrees v t rows docs
      → (v' : VectorIndex F) × (Vector.insert v id vec ≡ done v')
        × (v'.dim ≡ v.dim)
        × Agrees v'
            (index_document u id text t)
            (HashMap.insert id vec rows)
            (put_doc u id text docs)
  write-Agrees u id vec text v t rows docs width (small, total, count) a =
      let (v', run, holds, dim) = insert-Holds v rows id vec a.holds width in
      (
        v',
        run,
        dim,
        record {
          holds = holds;
          indexes = index-Indexes u id text t docs small total count a.indexes;
          same_ids = λ j. ground (
            arith,
            a.same_ids j,
            contains-insert id j vec rows,
            contains-insert id j (tokenize u text) (HashMap.remove id docs),
            contains-remove id j docs a.indexes.once,
          );
        },
      )

  erase-Agrees :
      (id : ℕ) (v : VectorIndex F) (t : InvertedIndex) (rows : Rows F) (docs : Docs)
      → Agrees v t rows docs
      → (v' : VectorIndex F) × (rows' : Rows F) × (Vector.remove v id ≡ done (contains id rows, v'))
        × (v'.dim ≡ v.dim)
        × Without id rows rows'
        × Agrees v' (remove_document id t) rows' (HashMap.remove id docs)
  erase-Agrees id v t rows docs a =
      let (v', rows', run, holds, dim, without) = remove-Holds v rows id a.holds in
      (
        v',
        rows',
        run,
        dim,
        without,
        record {
          holds = holds;
          indexes = remove-Indexes id t docs a.indexes;
          same_ids = λ j. ground (
            arith,
            a.same_ids j,
            without j,
            contains-is_some j rows,
            contains-is_some j rows',
            contains-remove id j docs a.indexes.once,
          );
        },
      )

module _ (f : Floats) (u : Unicode) where
  open f use {F32}

  -- Where the indexes agree, the row has the index's length, the sizes of the text index have room
  -- and the store answers, an upsert answers, and the indexes agree on the documents with this one
  -- in the place of an older one.
  pub upsert-Agrees :
      (id : ℕ) (vec : List F32) (text : Text) (blob : Bytes) (e : Engine F32) (d : Disk) (s : Seq)
      (rows : Rows F32) (docs : Docs)
      → length vec ≡ e.vectors.dim
      → HasRoom u text docs
      → Agrees e.vectors e.text rows docs
      → (Lsm.put (u64_be id) (encode_record f u vec text blob) e.docs d).0 ≡ ok s
      → ((upsert f u id vec text blob e d).0 ≡ done tt)
        × ((upsert f u id vec text blob e d).1.vectors.dim ≡ e.vectors.dim)
        × Agrees
            (upsert f u id vec text blob e d).1.vectors
            (upsert f u id vec text blob e d).1.text
            (HashMap.insert id vec rows)
            (put_doc u id text docs)
  unfolding upsert
  upsert-Agrees id vec text blob e d s rows docs width room a stored =
      let (v', run, dim, agrees) =
        write-Agrees u id vec text e.vectors e.text rows docs width room a in
      rw (upsert, stored, upsert_indexes, run) (refl, dim, agrees)

  -- Where the indexes agree and the store answers, a delete answers, and the indexes agree on the
  -- documents without this one.
  pub delete-Agrees :
      (id : ℕ) (e : Engine F32) (d : Disk) (s : Seq) (rows : Rows F32) (docs : Docs)
      → Agrees e.vectors e.text rows docs
      → (Lsm.delete (u64_be id) e.docs d).0 ≡ ok s
      → ((Engine.delete f u id e d).0 ≡ done tt)
        × ((Engine.delete f u id e d).1.vectors.dim ≡ e.vectors.dim)
        × (rows' : Rows F32) × Without id rows rows'
        × Agrees
            (Engine.delete f u id e d).1.vectors
            (Engine.delete f u id e d).1.text
            rows'
            (HashMap.remove id docs)
  unfolding Engine.delete
  delete-Agrees id e d s rows docs a stored =
      let (v', rows', run, dim, without, agrees) = erase-Agrees id e.vectors e.text rows docs a in
      rw (Engine.delete, stored, delete_indexes, run) (refl, dim, rows', without, agrees)
