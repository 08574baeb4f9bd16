-- ===== src/Engine/Hits.antt =====
-- A query: the fused ranks of both indexes, with the blobs of the store.
use sift_core.HashMap
use sift_core.HashMap.{HashMap, nat_key, contains}
use sift_core.HashMap.Laws.{contains-get}
use sift_core.Floats.{Floats, Documented}
use sift_core.Ranking.{Scored}
use sift_core.Ranking.Order.{Numbers, Perm-sort_scores}
use sift_core.Ranking.Cut.{IsBest}
use sift_core.Ranking.Known.{known, known-Perm, known_front, known-take, known-update, known_keys}
use sift_core.Fusion.{fuse_list, fuse_lists, reciprocal_rank_fusion}
use sift_core.Vector.{Metric}
use sift_core.Vector.Rows.{Rows}
use sift_core.Vector.TopK as TopK
use sift_core.Vector.TopK.{search-top}
use sift_core.Text
use sift_core.Text.{Text, Unicode, InvertedIndex, tokenize}
use sift_core.Text.Docs.{Docs, frequency}
use sift_core.Text.Results as Results
use sift_core.Text.Results.{matches}
use sift_core.Text.Search.{search-matches}
use sift_core.Fallible.{done, bind_done}
use sift_core.Engine.{Engine, SearchHit, query, fetch_hits, get_blob, from_vector}
use sift_core.Engine.Agree.{Agrees}
use sift_core.Bytes.{Bytes}
use sift_core.Disk.{Disk}
use sift_core.Prelude.{
  ℕ, ◌+◌, ◌≡◌, refl, ◌∙◌, Bool, true, some, List, [], ◌∷◌, arith, ◌-◌, ◌*◌, ◌%◌, ◌^◌, ◌<◌, max, sym,
  ap, inl, inr, Option-cases, length, take,
}
use sift_core.Vector.Search.{score}

module _ (f : Floats) where
  open f use {F32, literal}

  known-fuse_list :
      (p : ℕ → Bool) (k_const : F32) (rank : ℕ) (hits : List (Scored F32)) (fused : HashMap ℕ F32)
      → known p hits ≡ true
      → known p fused ≡ true
      → known p (fuse_list f k_const rank hits fused) ≡ true
  unfolding fuse_list
  known-fuse_list p k_const rank [] fused h h' = h'
  known-fuse_list p k_const rank ((id, score) ∷ hits) fused h h' =
      known-fuse_list p k_const (rank + 1) hits _ (ground (arith, h))
        (known-update p id (literal 0 1) _ fused (ground (arith, h)) h')

  -- Fusion makes up no id.
  known-fusion :
      (doc : Documented f) (p : ℕ → Bool) (k_const : F32) (xs ys : List (Scored F32))
      → known p xs ≡ true
      → known p ys ≡ true
      → known p (reciprocal_rank_fusion f (xs ∷ ys ∷ []) k_const) ≡ true
  unfolding reciprocal_rank_fusion fuse_lists
  known-fusion doc p k_const xs ys h h' =
      known-Perm p (Perm-sort_scores f doc _)
      ∙ known-fuse_list p k_const 0 ys _ h' (known-fuse_list p k_const 0 xs [] h refl)

  contains-scores_of :
      (metric : Metric) (vec : List F32) (rows : Rows F32) (id : ℕ)
      → contains id (TopK.scores_of f metric vec rows) ≡ contains id rows
  unfolding contains
  contains-scores_of metric vec [] id = refl
  contains-scores_of metric vec ((j, r) ∷ rows) id =
      ground (arith, contains-scores_of metric vec rows id)

  -- A document with one of the tokens is there.
  matches_there :
      (docs : Docs) (ts : List Text) (id : ℕ) → matches docs ts id ≡ true → contains id docs ≡ true
  unfolding matches frequency
  matches_there docs [] id h = absurd (cc)
  matches_there docs (t ∷ ts) id h = elim (Option-cases (HashMap.get id docs)) [
    | inl e ↦ matches_there docs ts id (ground (arith, h, e))
    | inr (tokens, e) ↦ contains-get id tokens docs e
  ]

  -- A hit with the blob of its document.
  unfoldable pub hits_of : (ℕ → Bytes) → List (Scored F32) → List (SearchHit F32)
  hits_of blobs [] = []
  hits_of blobs ((id, score) ∷ hits) =
      record { id = id; score = score; blob = blobs id } ∷ hits_of blobs hits

  module _ (u : Unicode) where
    fetch_hits_done :
        (p : ℕ → Bool) (blobs : ℕ → Bytes) (hits : List (Scored F32)) (e : Engine F32) (d : Disk)
        → ((id : ℕ) → p id ≡ true → get_blob f u id e d ≡ done (some (blobs id)))
        → known p hits ≡ true
        → fetch_hits f u hits e d ≡ done (hits_of blobs hits)
    unfolding fetch_hits hits_of
    fetch_hits_done p blobs [] e d stored h = refl
    fetch_hits_done p blobs ((id, score) ∷ hits) e d stored h =
        bind_done _ (stored id (ground (arith, h)))
        ∙ bind_done _ (fetch_hits_done p blobs hits e d stored (ground (arith, h)))

    -- The candidates that each index gives: `k * 4`, which wraps around, and 20 at least.
    abbrev pub pool : ℕ → ℕ
    pool k = max (k * 4 % 2 ^ 64) 20

    -- Where the indexes agree, the query has the index's length, no score is NaN, the number of
    -- candidates is below the capacity of a heap and every document has a blob in the store, a query
    -- answers the first `k` of the fusion of two lists, each with its blob: the best rows of the
    -- vector index and the ranks of the text index.
    pub query_hits :
        (doc : Documented f) (vec : List F32) (text : Text) (k : ℕ) (e : Engine F32) (d : Disk)
        (rows : Rows F32) (docs : Docs) (blobs : ℕ → Bytes)
        → Agrees e.vectors e.text rows docs
        → length vec ≡ e.vectors.dim
        → pool k < 2 ^ 59 - 1
        → Numbers f doc (TopK.scores_of f Metric.cosine vec rows)
        → Numbers f doc (Results.scores_of f u e.text text)
        → ((id : ℕ) → contains id docs ≡ true → get_blob f u id e d ≡ done (some (blobs id)))
        → (near : List (Scored F32)) × (rest : List (Scored F32)) × IsBest f doc
            (pool k)
            near
            rest
            (TopK.scores_of f Metric.cosine vec rows)
          × (query f u vec text k e d
              ≡ done (
                  hits_of blobs (
                    take k (
                      reciprocal_rank_fusion f
                        (near ∷ Text.search f u e.text text (pool k) ∷ [])
                        (literal 60 1)))))
    unfolding query from_vector
    query_hits doc vec text k e d rows docs blobs a width small near_numbers text_numbers stored =
        let there = λ (id : ℕ). contains id docs in
        let (near, run, rest, best) =
          search-top f doc e.vectors rows vec (pool k) Metric.cosine a.holds width small
            near_numbers in
        let (once, ranked, text_rest, text_best) =
          search-matches f doc u e.text docs text (pool k) a.indexes text_numbers in
        let near_known : known there near ≡ true = known_front there near rest (
          known-Perm there best.perm
          ∙ known_keys there _ (λ id has.
            sym (a.same_ids id) ∙ sym (contains-scores_of Metric.cosine vec rows id) ∙ has)) in
        let text_known : known there (Text.search f u e.text text (pool k)) ≡ true =
          known_front there _ text_rest (
            known-Perm there text_best.perm
            ∙ known_keys there _
                (λ id has. matches_there docs (tokenize u text) id (sym (ranked id) ∙ has))) in
        let fused = known-fusion doc there (literal 60 1) near _ near_known text_known in
        (
          near,
          rest,
          best,
          bind_done _ (ap from_vector run)
              ∙ fetch_hits_done there blobs _ e d stored (known-take there k _ fused),
        )
