-- ===== src/Text.antt =====
-- src/text.rs: the inverted index and its search. A text is a list of code points. `+=` on a machine
-- integer wraps around.
pub mod Docs
pub mod Remove
pub mod Counts
pub mod Push
pub mod Insert
pub mod Results
pub mod Search
use sift_core.HashMap
use sift_core.HashMap.{HashMap, bytes_key, nat_key, contains}
use sift_core.Floats.{Floats}
use sift_core.Ranking.{Scored, sort_scores}
use sift_core.Bytes.{Bytes}
use sift_core.Prelude.{
  ℕ, ◌+◌, ◌-◌, ◌%◌, ◌^◌, Bool, not, Option, none, some, List, [], ◌∷◌, ◌++◌, map, ◌==◌,
  if◌then◌else◌, length, take,
}
use sift_core.HashMap.Laws.{held}
use sift_core.Sstable.Bloom.{add}
use sift_core.Vector.Search.{score}

abbrev pub Text : Type 0
Text = List ℕ

-- What the index uses of `char` and `str`.
pub record Unicode : Type 0 where
  pub is_alphanumeric : ℕ → Bool
  pub to_lowercase : Text → Text
  pub as_bytes : Text → Bytes
  pub from_utf8 : Bytes → Option Text

pub record Posting : Type 0 where
  pub doc_id : ℕ
  pub term_freq : ℕ

pub record InvertedIndex : Type 0 where
  pub postings : HashMap Text (List Posting)
  pub doc_lengths : HashMap ℕ ℕ
  pub total_doc_length : ℕ
  pub doc_count : ℕ

-- `InvertedIndex::new` and `default`.
abbrev pub new : InvertedIndex
new = record { postings = []; doc_lengths = []; total_doc_length = 0; doc_count = 0 }

-- `text.split(sep)`: the pieces between the characters that separate, empty ones too.
unfoldable pub split : (ℕ → Bool) → Text → Text × List Text
split sep [] = ([], [])
split sep (c ∷ cs) =
    let (word, words) = split sep cs in if sep c then ([], word ∷ words) else (c ∷ word, words)

-- `.filter(|s| !s.is_empty())`.
unfoldable pub without_empty {ℓ} : {A : Type ℓ} → List (List A) → List (List A)
without_empty [] = []
without_empty ([] ∷ ws) = without_empty ws
without_empty ((c ∷ w) ∷ ws) = (c ∷ w) ∷ without_empty ws

unfoldable pub tokenize : Unicode → Text → List Text
unfolding split without_empty
tokenize u text =
    let (word, words) = split (λ c. not (u.is_alphanumeric c)) text in
    map u.to_lowercase (without_empty (word ∷ words))

-- `*term_freqs.entry(t).or_insert(0) += 1` for every token.
unfoldable pub term_freqs : List Text → HashMap Text ℕ → HashMap Text ℕ
term_freqs [] freqs = freqs
term_freqs (t ∷ ts) freqs = term_freqs ts (HashMap.update t 0 (λ n. (n + 1) % 2 ^ 32) freqs)

-- `self.postings.entry(term).or_default().push(...)` for every term.
unfoldable pub push_postings :
    ℕ → HashMap Text ℕ → HashMap Text (List Posting) → HashMap Text (List Posting)
push_postings id [] m = m
push_postings id ((term, freq) ∷ freqs) m =
    push_postings id freqs
      (HashMap.update term [] (λ ps. ps ++ (record { doc_id = id; term_freq = freq } ∷ [])) m)

-- `postings.retain(|p| p.doc_id != doc_id)`.
unfoldable pub retain : ℕ → List Posting → List Posting
retain id [] = []
retain id (p ∷ ps) = let rest = retain id ps in if p.doc_id == id then rest else p ∷ rest

-- Every list of postings, and then `self.postings.retain(|_, v| !v.is_empty())`.
unfoldable pub retain_all : ℕ → HashMap Text (List Posting) → HashMap Text (List Posting)
unfolding retain
retain_all id [] = []
retain_all id ((t, ps) ∷ m) = (t, retain id ps) ∷ retain_all id m

unfoldable pub drop_empty : HashMap Text (List Posting) → HashMap Text (List Posting)
drop_empty [] = []
drop_empty ((t, []) ∷ m) = drop_empty m
drop_empty ((t, p ∷ ps) ∷ m) = (t, p ∷ ps) ∷ drop_empty m

unfoldable pub remove_document : ℕ → InvertedIndex → InvertedIndex
unfolding retain_all drop_empty
remove_document id index = elim (HashMap.get id index.doc_lengths) [
  | none ↦ index
  | some removed ↦ record {
    postings = drop_empty (retain_all id index.postings);
    doc_lengths = HashMap.remove id index.doc_lengths;
    total_doc_length = index.total_doc_length - removed;
    doc_count = index.doc_count - 1;
  }
]

-- The part of `index_document` after the old terms are removed.
unfoldable pub add_document : ℕ → List Text → InvertedIndex → InvertedIndex
unfolding term_freqs push_postings
add_document id tokens index =
    let count = length tokens % 2 ^ 32 in
    record {
      postings = push_postings id (term_freqs tokens []) index.postings;
      doc_lengths = HashMap.insert id count index.doc_lengths;
      total_doc_length = (index.total_doc_length + count) % 2 ^ 64;
      doc_count = (index.doc_count + 1) % 2 ^ 64;
    }

unfoldable pub index_document : Unicode → ℕ → Text → InvertedIndex → InvertedIndex
unfolding tokenize remove_document add_document
index_document u id text index = add_document id (tokenize u text) (remove_document id index)

module _ (f : Floats) where
  open f use {F32, add, sub, mul, div, ln, fmax, literal}

  unfoldable pub avg_doc_length : InvertedIndex → F32
  avg_doc_length index =
      if index.doc_count == 0
      then literal 0 1
      else div (literal index.total_doc_length 1) (literal index.doc_count 1)

  -- `((n - df + 0.5) / (df + 0.5) + 1.0).ln()`.
  unfoldable pub idf : F32 → F32 → F32
  idf n df = ln (add (div (add (sub n df) (literal 1 2)) (add df (literal 1 2))) (literal 1 1))

  -- `K1`, 1.2, and `B`, 0.75.
  abbrev pub k1 : F32
  k1 = literal 12 10

  abbrev pub b : F32
  b = literal 75 100

  -- What one posting adds to the score of its document.
  unfoldable pub posting_score : F32 → F32 → F32 → ℕ → F32
  posting_score avgdl idf_term dl term_freq =
      let tf = literal term_freq 1 in
      let denom = add tf (mul k1 (add (sub (literal 1 1) b) (mul b (div dl avgdl)))) in
      div (mul idf_term (mul tf (add k1 (literal 1 1)))) denom

  -- `for p in postings { ... }`.
  unfoldable pub score_postings :
      HashMap ℕ ℕ → F32 → F32 → List Posting → HashMap ℕ F32 → HashMap ℕ F32
  unfolding posting_score
  score_postings lengths avgdl idf_term [] scores = scores
  score_postings lengths avgdl idf_term (p ∷ ps) scores =
      let dl = held 0 (HashMap.get p.doc_id lengths) in
      let score = posting_score avgdl idf_term (literal dl 1) p.term_freq in
      score_postings lengths avgdl idf_term ps
        (HashMap.update p.doc_id (literal 0 1) (λ s. add s score) scores)

  -- The body of `for term in tokenize(query)` for a term that was not seen before.
  unfoldable pub score_term : InvertedIndex → F32 → F32 → Text → HashMap ℕ F32 → HashMap ℕ F32
  unfolding idf score_postings
  score_term index avgdl n term scores = elim (HashMap.get term index.postings) [
    | none ↦ scores
    | some ps ↦ score_postings index.doc_lengths avgdl (idf n (literal (length ps) 1)) ps scores
  ]

  -- The whole loop, with `seen_terms`.
  unfoldable pub score_terms :
      InvertedIndex
      → F32
      → F32
      → List Text
      → HashMap {0, 0} Text Unit
      → HashMap ℕ F32
      → HashMap ℕ F32
  unfolding score_term
  score_terms index avgdl n [] seen scores = scores
  score_terms index avgdl n (t ∷ ts) seen scores =
      score_terms index avgdl n ts (HashMap.insert t tt seen)
        (if contains t seen then scores else score_term index avgdl n t scores)

  unfoldable pub search : Unicode → InvertedIndex → Text → ℕ → List (Scored F32)
  unfolding tokenize avg_doc_length score_terms sort_scores
  search u index query k =
      if index.doc_count == 0
      then []
      else let avgdl = fmax (avg_doc_length index) (literal 1 1) in
        let n = literal index.doc_count 1 in
        take k (sort_scores f (score_terms index avgdl n (tokenize u query) [] []))
