-- ===== src/Tests/Texts.antt =====
-- Runs of the text index and of the fusion of ranks.
use mathlib.Core.List.{Perm}
use sift_core.HashMap
use sift_core.HashMap.{HashMap, nat_key, bytes_key, contains}
use sift_core.HashMap.Laws.{Distinct}
use sift_core.Ranking.{Scored}
use sift_core.Ranking.Cut.{IsBest}
use sift_core.Ranking.Order.{Numbers, Descends}
use sift_core.Text
use sift_core.Bytes.{bytes_eq}
use sift_core.Text.{
  avg_doc_length, score_terms, Text, InvertedIndex, tokenize, index_document, split, without_empty,
  search, score_terms,
}
use sift_core.Text.Docs.{Docs, Indexes, total_of}
use sift_core.Text.Insert.{index-Indexes}
use sift_core.Text.Results.{matches, scores_of}
use sift_core.Text.Search.{search-matches}
use sift_core.Fusion.{fuse_lists, reciprocal_rank_fusion}
use sift_core.Fusion.Union.{fusion_ranks, all_shares, grown}
use sift_core.Engine.Rebuild.{new-Agrees}
use sift_core.Tests.Digits.{
  Digit, digit_0, digit_1, digit_2, digit_3, digits, digits_documented, ascii, ascii-Encodes,
}
use sift_core.Prelude.{ℕ, ◌≡◌, refl, subst, none, List, [], ◌∷◌, arith}

-- Three tokens, one of them twice.
abbrev pub some_text : Text
some_text = 97 ∷ 32 ∷ 98 ∷ 32 ∷ 32 ∷ 65 ∷ []

tokens_run : tokenize ascii some_text ≡ (97 ∷ []) ∷ (98 ∷ []) ∷ (97 ∷ []) ∷ []
unfolding tokenize
tokens_run = refl

new-Indexes : Indexes Text.new []
new-Indexes = (new-Agrees digits ascii digits_documented ascii-Encodes 2).indexes

index-Indexes_example :
    Indexes
      (index_document ascii 1 some_text Text.new)
      (HashMap.insert 1 (tokenize ascii some_text) (HashMap.remove 1 []))
unfolding tokenize total_of
index-Indexes_example =
    index-Indexes ascii 1 some_text Text.new [] (omega arith) (omega arith) (omega arith)
      new-Indexes

abbrev pub one_index : InvertedIndex
one_index = record {
  postings =
      ((97 ∷ []), record { doc_id = 1; term_freq = 2 } ∷ [])
      ∷ ((98 ∷ []), record { doc_id = 1; term_freq = 1 } ∷ [])
      ∷ [];
  doc_lengths = (1, 3) ∷ [];
  total_doc_length = 3;
  doc_count = 1;
}

abbrev pub one_doc : Docs
one_doc = (1, (97 ∷ []) ∷ (98 ∷ []) ∷ (97 ∷ []) ∷ []) ∷ []

-- Indexing the text builds this index.
index_run : index_document ascii 1 some_text Text.new ≡ one_index
unfolding index_document HashMap.get HashMap.insert HashMap.update bytes_eq
index_run = refl

pub one-Indexes : Indexes one_index one_doc
unfolding tokenize HashMap.insert HashMap.remove
one-Indexes = subst (λ i. Indexes i one_doc) index_run index-Indexes_example

pub one-Numbers : Numbers digits digits_documented (scores_of digits ascii one_index some_text)
unfolding tokenize score_terms avg_doc_length HashMap.get HashMap.update HashMap.insert contains
    bytes_eq
one-Numbers = (refl, tt)

search-matches_example :
    Distinct (scores_of digits ascii one_index some_text)
    × ((id : ℕ)
        → contains id (scores_of digits ascii one_index some_text)
          ≡ matches one_doc (tokenize ascii some_text) id)
    × (rest : List (Scored Digit)) × IsBest digits digits_documented 3
        (search digits ascii one_index some_text 3)
        rest
        (scores_of digits ascii one_index some_text)
search-matches_example =
    search-matches digits digits_documented ascii one_index one_doc some_text 3 one-Indexes
      one-Numbers

abbrev near_list : List (Scored Digit)
near_list = (1, digit_3) ∷ (2, digit_2) ∷ []

abbrev word_list : List (Scored Digit)
word_list = (2, digit_3) ∷ (3, digit_1) ∷ []

fused-Numbers :
    Numbers digits digits_documented (fuse_lists digits digit_0 (near_list ∷ word_list ∷ []) [])
unfolding fuse_lists HashMap.update
fused-Numbers = (refl, (refl, (refl, tt)))

fusion_ranks_example :
    Distinct (fuse_lists digits digit_0 (near_list ∷ word_list ∷ []) [])
    × ((id : ℕ)
        → HashMap.get id (fuse_lists digits digit_0 (near_list ∷ word_list ∷ []) [])
          ≡ grown digits none (all_shares digits digit_0 id (near_list ∷ word_list ∷ [])))
    × Perm
        (reciprocal_rank_fusion digits (near_list ∷ word_list ∷ []) digit_0)
        (fuse_lists digits digit_0 (near_list ∷ word_list ∷ []) [])
    × Descends digits digits_documented
        (reciprocal_rank_fusion digits (near_list ∷ word_list ∷ []) digit_0)
fusion_ranks_example =
    fusion_ranks digits digits_documented (near_list ∷ word_list ∷ []) digit_0 fused-Numbers
