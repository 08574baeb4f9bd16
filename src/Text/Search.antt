-- ===== src/Text/Search.antt =====
-- The search of the inverted index.
use sift_core.HashMap
use sift_core.HashMap.{HashMap, bytes_key, nat_key, contains}
use sift_core.HashMap.Laws.{Distinct}
use sift_core.Floats.{Floats, Documented}
use sift_core.Ranking.{Scored, sort_scores}
use sift_core.Ranking.Order.{Numbers}
use sift_core.Ranking.Cut.{IsBest, cut-IsBest}
use sift_core.Text.{Text, InvertedIndex, Unicode, tokenize, search}
use sift_core.Text.Docs.{Docs, Indexes, frequency}
use sift_core.Text.Results.{matches, scores_of, scores_of-matches, score_terms-Distinct}
use sift_core.Prelude.{
  ℕ, zero, suc, ◌≡◌, refl, subst, sym, ap, ◌∙◌, false, List, [], ◌∷◌, arith, take, drop,
}

no_keys {ℓ} : {V : Type ℓ} (m : HashMap ℕ V) → ((id : ℕ) → contains id m ≡ false) → m ≡ []
unfolding contains
no_keys [] h = refl
no_keys ((j, v) ∷ m) h = absurd (ground (arith, h j))

matches_nil : (ts : List Text) (id : ℕ) → matches [] ts id ≡ false
unfolding matches frequency HashMap.get
matches_nil [] id = refl
matches_nil (t ∷ ts) id = matches_nil ts id

module _ (f : Floats) where
  open f use {F32}

  search-scores_of :
      (u : Unicode) (index : InvertedIndex) (docs : Docs) (query : Text) (k : ℕ)
      → Indexes index docs
      → search f u index query k ≡ take k (sort_scores f (scores_of f u index query))
  unfolding search sort_scores
  search-scores_of u index [] query zero is = ground (arith, is.count)
  search-scores_of u index [] query (suc k) is =
      let nothing : scores_of f u index query ≡ [] =
        no_keys (scores_of f u index query)
          (λ id. scores_of-matches f u index [] query id is ∙ matches_nil (tokenize u query) id) in
      ground (arith, is.count, ap (λ m. take (suc k) (sort_scores f m)) nothing)
  search-scores_of u index (d ∷ docs) query k is = ground (arith, is.count)

  module _ (doc : Documented f) where
    -- Where the index holds exactly the documents and no score is NaN, the search scores exactly the
    -- documents that have a token of the query, each once, and returns the best `k` of them or all,
    -- the best first.
    pub search-matches :
        (u : Unicode) (index : InvertedIndex) (docs : Docs) (query : Text) (k : ℕ)
        → Indexes index docs
        → Numbers f doc (scores_of f u index query)
        → Distinct (scores_of f u index query)
          × ((id : ℕ)
              → contains id (scores_of f u index query) ≡ matches docs (tokenize u query) id)
          × (rest : List (Scored F32)) × IsBest f doc k
              (search f u index query k)
              rest
              (scores_of f u index query)
    search-matches u index docs query k is numbers =
        let scores = scores_of f u index query in
        (
          score_terms-Distinct f index _ _ (tokenize u query) [] [] tt,
          λ id. scores_of-matches f u index docs query id is,
          drop k (sort_scores f scores),
          subst (λ out. IsBest f doc k out (drop k (sort_scores f scores)) scores)
              (sym (search-scores_of u index docs query k is)) (cut-IsBest f doc k scores numbers),
        )
