-- ===== src/Engine/Rebuild.antt =====
-- Opening rebuilds both indexes from the live pairs of the store.
use sift_core.HashMap
use sift_core.HashMap.{HashMap, nat_key, contains}
use sift_core.HashMap.Laws.{Distinct, get-remove}
use sift_core.Vector
use sift_core.Vector.{VectorIndex}
use sift_core.Vector.Rows.{Rows}
use sift_core.Text
use sift_core.Text.{Text, Unicode, InvertedIndex, tokenize, index_document}
use sift_core.Text.Docs.{entries, postings_of, Docs, total_of, frequency, lengths_of}
use sift_core.Text.Insert.{sizes_fall, sizes-insert}
use sift_core.Lsm.{LsmEngine}
use sift_core.Lsm.Open.{open_engine}
use sift_core.Lsm.Scan.{iter_all}
use sift_core.Floats.{Floats, Documented}
use sift_core.Fallible.{done, ◌>>=◌, bind_done}
use sift_core.Engine.{Engine, rebuild, open_dir, from_io, from_vector}
use sift_core.Engine.Agree.{Agrees, put_doc, write-Agrees, HasRoom}
use sift_core.Engine.Record.{encode_record, u64_be, from_be, from_be-u64_be}
use sift_core.Engine.RoundTrip.{Encodes, decode_record-stored}
use sift_core.Bytes.{Bytes, IsU32, IsU64}
use sift_core.Prelude.{
  ℕ, ◌+◌, ◌^◌, ◌≤◌, ◌<◌, ◌≡◌, refl, false, List, [], ◌∷◌, ◌==◌, length, All, subst, sym, ap, ◌∙◌,
  none, arith,
}
use sift_core.Disk.{Disk}
use sift_core.Result.{ok}
use sift_core.Sstable.Iter.{next}

-- A live pair of the store: a document with its id, or a key that is none of the engine's.
pub data Live (F : Type 0) : Type 0 where
  document : ℕ → List F → Text → Bytes → Live F
  foreign_pair : Bytes → Bytes → Live F

module _ (f : Floats) (u : Unicode) where
  open f use {F32}

  unfoldable pub pairs_of : List (Live F32) → List (Bytes × Bytes)
  pairs_of [] = []
  pairs_of (document id vec text blob ∷ ls) =
      (u64_be id, encode_record f u vec text blob) ∷ pairs_of ls
  pairs_of (foreign_pair key val ∷ ls) = (key, val) ∷ pairs_of ls

  -- The rows and the documents after all of them, the later ones in the place of the earlier.
  unfoldable pub rows_after : List (Live F32) → Rows F32 → Rows F32
  rows_after [] rows = rows
  rows_after (document id vec text blob ∷ ls) rows = rows_after ls (HashMap.insert id vec rows)
  rows_after (foreign_pair key val ∷ ls) rows = rows_after ls rows

  unfoldable pub docs_after : List (Live F32) → Docs → Docs
  docs_after [] docs = docs
  docs_after (document id vec text blob ∷ ls) docs = docs_after ls (put_doc u id text docs)
  docs_after (foreign_pair key val ∷ ls) docs = docs_after ls docs

  -- The tokens of all the texts.
  unfoldable pub tokens_of : List (Live F32) → ℕ
  tokens_of [] = 0
  tokens_of (document id vec text blob ∷ ls) = length (tokenize u text) + tokens_of ls
  tokens_of (foreign_pair key val ∷ ls) = tokens_of ls

  -- A document of the engine's length whose parts fit their integers, or a key of another length.
  unfoldable pub Sound : ℕ → Live F32 → Type 0
  Sound dim (document id vec text blob) =
      IsU64 id
      × (length vec ≡ dim)
      × IsU32 (length vec)
      × IsU32 (length (u.as_bytes text))
      × IsU32 (length blob)
      × (length (tokenize u text) < 2 ^ 32)
  Sound dim (foreign_pair key val) = (length key == 8) ≡ false

  put_doc_sizes :
      (id : ℕ) (text : Text) (docs : Docs)
      → Distinct docs
      → (total_of (put_doc u id text docs) ≤ total_of docs + length (tokenize u text))
        × (length (put_doc u id text docs) ≤ length docs + 1)
  put_doc_sizes id text docs once =
      let (less, fewer) = sizes_fall id docs in
      let gone : HashMap.get id (HashMap.remove id docs) ≡ none =
        ground (arith, get-remove id id docs once) in
      let (total, count) = sizes-insert id (tokenize u text) (HashMap.remove id docs) gone in
      omega (arith, less, fewer, total, count)

  module _ (doc : Documented f) (enc : Encodes u) where
    rebuild_step :
        (id : ℕ) (vec : List F32) (text : Text) (blob : Bytes) (pairs : List (Bytes × Bytes))
        (v v' : VectorIndex F32) (t : InvertedIndex)
        → IsU64 id
        → IsU32 (length vec)
        → IsU32 (length (u.as_bytes text))
        → IsU32 (length blob)
        → Vector.insert v id vec ≡ done v'
        → rebuild f u ((u64_be id, encode_record f u vec text blob) ∷ pairs) v t
          ≡ rebuild f u pairs v' (index_document u id text t)
    unfolding rebuild u64_be encode_record
    rebuild_step id vec text blob pairs v v' t word vec_fits text_fits blob_fits run =
        let read = decode_record-stored f u doc enc vec text blob vec_fits text_fits blob_fits in
        let key = from_be-u64_be id word in
        let run' : Vector.insert v (from_be 0 (u64_be id)) vec ≡ done v' =
          ap (λ i. Vector.insert v i vec) key ∙ run in
        ap
          (λ r. r >>= λ x. from_vector (Vector.insert v (from_be 0 (u64_be id)) x.0) >>= λ w.
            rebuild f u pairs w (index_document u (from_be 0 (u64_be id)) x.1 t))
          read
        ∙ ap
            (λ r. from_vector r >>= λ w.
              rebuild f u pairs w (index_document u (from_be 0 (u64_be id)) text t))
            run'
        ∙ ap (λ i. rebuild f u pairs v' (index_document u i text t)) key

    -- The loop of `open` takes every document of the live pairs into both indexes and skips the
    -- others, where the parts fit their integers and the sizes of the text index have room.
    pub rebuild-Agrees :
        (ls : List (Live F32)) (v : VectorIndex F32) (t : InvertedIndex) (rows : Rows F32)
        (docs : Docs)
        → All (Sound v.dim) ls
        → total_of docs + tokens_of ls < 2 ^ 64
        → length docs + length ls < 2 ^ 64
        → Agrees v t rows docs
        → (v' : VectorIndex F32) × (t' : InvertedIndex) × (rebuild f u (pairs_of ls) v t
            ≡ done (v', t'))
          × (v'.dim ≡ v.dim)
          × Agrees v' t' (rows_after ls rows) (docs_after ls docs)
    unfolding rebuild pairs_of rows_after docs_after tokens_of Sound
    rebuild-Agrees [] v t rows docs sound total count a = (v, t, refl, refl, a)
    rebuild-Agrees (foreign_pair key val ∷ ls) v t rows docs sound total count a =
        let (v', t', run, dim, after) =
          rebuild-Agrees ls v t rows docs sound.1 total (omega (arith, count)) a in
        (v', t', ground (arith, sound.0, run), dim, after)
    rebuild-Agrees (document id vec text blob ∷ ls) v t rows docs sound total count a =
        let (word, width, vec_fits, text_fits, blob_fits, small) = sound.0 in
        let (bigger, more) = put_doc_sizes id text docs a.indexes.once in
        let room : HasRoom u text docs = (small, omega (arith, total), omega (arith, count)) in
        let (w, run, same, next) = write-Agrees u id vec text v t rows docs width room a in
        let (v', t', runs, dim, after) =
          rebuild-Agrees ls w (index_document u id text t) (HashMap.insert id vec rows)
            (put_doc u id text docs) (subst (λ n. All (Sound n) ls) (sym same) sound.1)
            (omega (arith, total, bigger)) (omega (arith, count, more)) next in
        (
          v',
          t',
          rebuild_step id vec text blob (pairs_of ls) v w t word vec_fits text_fits blob_fits run
              ∙ runs,
          dim ∙ same,
          after,
        )

    total_of_nil : total_of [] ≡ 0
    unfolding total_of
    total_of_nil = refl

    pub new-Agrees : (dim : ℕ) → Agrees {F = F32} (Vector.new dim) Text.new [] []
    unfolding Vector.new contains lengths_of total_of entries postings_of frequency HashMap.get
    new-Agrees dim = record {
      holds = record { ids = refl; cells = refl; widths = tt; distinct = tt };
      indexes = record {
        lengths = refl;
        total = refl;
        count = refl;
        once = tt;
        terms = tt;
        lists = λ t. (λ h. absurd (cc), tt);
        counts = λ t id. refl;
      };
      same_ids = λ id. refl;
    }

    -- Where the store opens and its live pairs are sound, opening answers an engine with that store
    -- whose indexes hold exactly the documents of the pairs. A pair is sound when its key has another
    -- length than 8, or it is the record of a document whose row has the index's length and whose
    -- parts fit their integers; the number of documents and of all their tokens is below 2 ^ 64.
    pub open_dir-Agrees :
        (dim : ℕ) (d : Disk) (db : LsmEngine) (ls : List (Live F32))
        → (open_engine d).0 ≡ ok db
        → iter_all db (open_engine d).1 ≡ ok (pairs_of ls)
        → All (Sound dim) ls
        → tokens_of ls < 2 ^ 64
        → length ls < 2 ^ 64
        → (e : Engine F32) × ((open_dir f u dim d).0 ≡ done e)
          × (e.docs ≡ db)
          × (e.vectors.dim ≡ dim)
          × Agrees e.vectors e.text (rows_after ls []) (docs_after ls [])
    unfolding open_dir from_io Vector.new
    open_dir-Agrees dim d db ls opened scanned sound total count =
        let (v, t, run, same, agrees) =
          rebuild-Agrees ls (Vector.new dim) Text.new [] [] sound
            (ground (arith, total, total_of_nil)) (omega (arith, count)) (new-Agrees dim) in
        (
          record { docs = db; vectors = v; text = t },
          bind_done _ (ap from_io opened) ∙ bind_done _ (ap from_io scanned) ∙ bind_done _ run,
          refl,
          same,
          agrees,
        )
