-- ===== src/Tests/Reopened.antt =====
-- Runs of the whole engine: opening and queries.
use sift_core.HashMap.{nat_key, contains}
use sift_core.MemTable
use sift_core.MemTable.{MemTable}
use sift_core.Lsm.{LsmEngine}
use sift_core.Lsm.Open.{open_engine}
use sift_core.HashMap.{bytes_key}
use sift_core.Lsm
use sift_core.Lsm.Scan.{iter_all}
use sift_core.Wal.{Op}
use sift_core.Wal.Replay.{encode_all}
use sift_core.Disk.{Disk, wal_log}
use sift_core.Vector
use sift_core.Vector.{VectorIndex, Metric}
use sift_core.Vector.TopK as TopK
use sift_core.Text
use sift_core.Text.{Text, InvertedIndex, tokenize}
use sift_core.Ranking.{Scored}
use sift_core.Ranking.Cut.{IsBest}
use sift_core.Ranking.Order.{Numbers}
use sift_core.Fusion.{reciprocal_rank_fusion}
use sift_core.Engine.{Engine, open_dir, get_blob, query}
use sift_core.Engine.Record.{encode_record, u64_be}
use sift_core.Engine.Agree.{Agrees}
use sift_core.Engine.Rebuild.{
  Live, document, Sound, pairs_of, tokens_of, rows_after, docs_after, open_dir-Agrees,
}
use sift_core.Engine.Hits.{query_hits, hits_of, pool}
use sift_core.Tests.Data.{calm_disk}
use sift_core.Tests.Digits.{Digit, digits, digits_documented, ascii, ascii-Encodes, digit_6}
use sift_core.Tests.Texts.{some_text, one_index, one_doc, one-Numbers}
use sift_core.Tests.Documents.{first_row, first_record, one_store, one_row, one_engine, one-Agrees}
use sift_core.Bytes.{u32_le, Bytes}
use sift_core.Prelude.{
  ℕ, ◌*◌, ◌^◌, ◌<◌, ◌≡◌, refl, subst, true, some, List, [], ◌∷◌, arith, take, All,
}
use sift_core.Result.{ok}
use sift_core.Fallible.{done}

-- A directory whose log holds the first document.
abbrev one_disk : Disk
one_disk = record {
  files =
      (
        wal_log,
        encode_all (record { seq = 1; op = Op.put; key = u64_be 1; val = first_record } ∷ []),
      )
      ∷ [];
  faults = [];
}

abbrev one_live : List (Live Digit)
one_live = document 1 first_row some_text (7 ∷ 8 ∷ []) ∷ []

-- The store that opening it gives.
abbrev opened_store : LsmEngine
opened_store = record one_store { flush_threshold_bytes = 4 * 1024 * 1024 }

store_opens : (open_engine one_disk).0 ≡ ok opened_store
unfolding open_engine encode_record u64_be u32_le sift_core.Wal.replay sift_core.Disk.lookup
    sift_core.Disk.name_eq sift_core.Wal.open_log sift_core.Disk.store sift_core.Disk.without
    MemTable.put encode_all sift_core.Wal.encode sift_core.Bytes.u64_le sift_core.Wal.next_record
    sift_core.Reader.read_exact sift_core.Bytes.from_le sift_core.Hash.fnv1a
store_opens = refl

store_scans : iter_all opened_store (open_engine one_disk).1 ≡ ok (pairs_of digits ascii one_live)
unfolding iter_all pairs_of MemTable.put MemTable.new
store_scans = refl

one-Sound : All (Sound digits ascii 2) one_live
unfolding Sound tokenize
one-Sound = ((omega arith, refl, omega arith, omega arith, omega arith, omega arith), tt)

one_tokens : tokens_of digits ascii one_live < 2 ^ 64
unfolding tokens_of tokenize
one_tokens = omega arith

open_dir-Agrees_example :
    (e : Engine Digit) × ((open_dir digits ascii 2 one_disk).0 ≡ done e)
    × (e.docs ≡ opened_store)
    × (e.vectors.dim ≡ 2)
    × Agrees e.vectors e.text
        (rows_after digits ascii one_live [])
        (docs_after digits ascii one_live [])
open_dir-Agrees_example =
    open_dir-Agrees digits ascii digits_documented ascii-Encodes 2 one_disk opened_store one_live
      store_opens store_scans one-Sound one_tokens (omega arith)

row-Numbers :
    Numbers digits digits_documented (TopK.scores_of digits Metric.cosine first_row one_row)
unfolding sift_core.Vector.Search.score sift_core.Vector.Kernel.dot
    sift_core.Vector.Search.query_norm sift_core.Vector.Kernel.norm
row-Numbers = (refl, tt)

blob_run : get_blob digits ascii 1 one_engine calm_disk ≡ done (some (7 ∷ 8 ∷ []))
unfolding get_blob MemTable.put MemTable.new encode_record u64_be u32_le sift_core.Lsm.get
    MemTable.get sift_core.Key.cmp sift_core.Bytes.cmp_bytes sift_core.Bytes.bytes_eq
    sift_core.Bytes.from_le
blob_run = refl

blobs_stored :
    (id : ℕ)
    → contains id one_doc ≡ true
    → get_blob digits ascii id one_engine calm_disk ≡ done (some (7 ∷ 8 ∷ []))
unfolding contains
blobs_stored id there =
    let first : 1 ≡ id = ground (arith, there) in
    subst (λ i. get_blob digits ascii i one_engine calm_disk ≡ done (some (7 ∷ 8 ∷ []))) first
      blob_run

query_hits_example :
    (near : List (Scored Digit)) × (rest : List (Scored Digit)) × IsBest digits digits_documented
      (pool digits ascii 3)
      near
      rest
      (TopK.scores_of digits Metric.cosine first_row one_row)
    × (query digits ascii first_row some_text 3 one_engine calm_disk
        ≡ done (
            hits_of digits
              (λ id. 7 ∷ 8 ∷ [])
              (take 3 (
                reciprocal_rank_fusion digits
                  (near ∷ Text.search digits ascii one_index some_text (pool digits ascii 3) ∷ [])
                  digit_6))))
query_hits_example =
    query_hits digits ascii digits_documented first_row some_text 3 one_engine calm_disk one_row
      one_doc (λ id. 7 ∷ 8 ∷ []) one-Agrees refl (omega arith) row-Numbers one-Numbers blobs_stored
