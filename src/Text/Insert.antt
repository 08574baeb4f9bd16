-- ===== src/Text/Insert.antt =====
-- Indexing a document: the index then holds it with all its tokens, in the place of an older one.
use sift_core.HashMap
use sift_core.HashMap.{HashMap, bytes_key, nat_key, contains}
use sift_core.HashMap.Laws.{insert-Distinct, get-remove}
use sift_core.Text.{
  Text, Posting, InvertedIndex, term_freqs, add_document, Unicode, tokenize, remove_document,
  index_document,
}
use sift_core.Text.Docs.{
  Docs, Indexes, Counts, frequency, entries, postings_of, insert-lengths_of, total_of,
}
use sift_core.Text.Counts.{get-term_freqs_of, term_freqs-Distinct}
use sift_core.Prelude.{
  ℕ, ◌≡◌, ap, ◌∙◌, none, List, [], ◌∷◌, arith, ◌+◌, ◌-◌, ◌%◌, ◌^◌, ◌<◌, length, ◌≤◌,
}
use sift_core.Text.Remove.{remove-Indexes}
use sift_core.Text.Push.{push_postings-Distinct, push_postings-Lists, push_postings-Counts}

lacks_postings :
    (id : ℕ) (m : HashMap Text (List Posting)) (docs : Docs)
    → HashMap.get id docs ≡ none
    → Counts m docs
    → (t : Text) → HashMap.get id (entries (postings_of t m)) ≡ none
unfolding frequency
lacks_postings id m docs gone counts t = ground (arith, counts t id, gone)

pub sizes-insert :
    (id : ℕ) (tokens : List Text) (docs : Docs)
    → HashMap.get id docs ≡ none
    → (total_of (HashMap.insert id tokens docs) ≡ total_of docs + length tokens)
      × (length (HashMap.insert id tokens docs) ≡ length docs + 1)
unfolding HashMap.get HashMap.insert total_of
sizes-insert id tokens [] gone = ground arith
sizes-insert id tokens ((j, old) ∷ docs) gone = ground (arith, sizes-insert id tokens docs)

-- A removal makes no size larger.
pub sizes_fall :
    (id : ℕ) (docs : Docs)
    → (total_of (HashMap.remove id docs) ≤ total_of docs)
      × (length (HashMap.remove id docs) ≤ length docs)
unfolding total_of HashMap.remove
sizes_fall id [] = ground arith
sizes_fall id ((j, old) ∷ docs) = ground (arith, sizes_fall id docs)

add-Indexes :
    (id : ℕ) (tokens : List Text) (index : InvertedIndex) (docs : Docs)
    → HashMap.get id docs ≡ none
    → length tokens < 2 ^ 32
    → total_of docs + length tokens < 2 ^ 64
    → length docs < 2 ^ 64 - 1
    → Indexes index docs
    → Indexes (add_document id tokens index) (HashMap.insert id tokens docs)
unfolding add_document
add-Indexes id tokens index docs gone small total_fits count_fits is =
    let d = term_freqs-Distinct tokens [] tt in
    let (total, count) = sizes-insert id tokens docs gone in
    let same : length tokens % 2 ^ 32 ≡ length tokens = omega (arith, small) in
    let lacks = lacks_postings id index.postings docs gone is.counts in
    record {
      lengths =
          ap (λ n. HashMap.insert id n index.doc_lengths) same
          ∙ ap (HashMap.insert id (length tokens)) is.lengths
          ∙ insert-lengths_of id tokens docs;
      total = omega (arith, is.total, total, total_fits, small);
      count = omega (arith, is.count, count, count_fits);
      once = insert-Distinct id tokens docs is.once;
      terms = push_postings-Distinct id (term_freqs tokens []) index.postings is.terms;
      lists = push_postings-Lists id (term_freqs tokens []) index.postings d lacks is.lists;
      counts =
          push_postings-Counts id tokens (term_freqs tokens []) index.postings docs d
            (λ t. get-term_freqs_of tokens t small) gone is.counts;
    }

-- Where the index holds exactly the documents, and the sizes fit their integers, it then holds the
-- document in the place of an older one, with its tokens and how often each stands in it, and
-- exactly the same others.
pub index-Indexes :
    (u : Unicode) (id : ℕ) (text : Text) (index : InvertedIndex) (docs : Docs)
    → length (tokenize u text) < 2 ^ 32
    → total_of docs + length (tokenize u text) < 2 ^ 64
    → length docs < 2 ^ 64 - 1
    → Indexes index docs
    → Indexes
        (index_document u id text index)
        (HashMap.insert id (tokenize u text) (HashMap.remove id docs))
unfolding index_document
index-Indexes u id text index docs small total_fits count_fits is =
    let (less_total, less_docs) = sizes_fall id docs in
    add-Indexes id (tokenize u text) (remove_document id index) (HashMap.remove id docs)
      (ground (arith, get-remove id id docs is.once)) small (omega (arith, less_total, total_fits))
      (omega (arith, less_docs, count_fits)) (remove-Indexes id index docs is)
