-- ===== src/Text/Results.antt =====
-- What a search of the inverted index returns.
use sift_core.HashMap
use sift_core.HashMap.{HashMap, bytes_key, nat_key, contains}
use sift_core.HashMap.Laws.{Distinct, contains-update, contains-insert, update-Distinct}
use sift_core.Floats.{Floats}
use sift_core.Text.{
  Text, Posting, InvertedIndex, score_postings, score_term, score_terms, Unicode, tokenize,
  avg_doc_length,
}
use sift_core.Text.Docs.{Docs, Indexes, frequency, entries, postings_of}
use sift_core.Prelude.{
  ℕ, ◌≡◌, refl, ap, ◌∙◌, inl, inr, Bool, true, false, ◌||◌, List, [], ◌∷◌, arith, Bool-cases,
  Option-cases, if◌then◌else◌,
}
use sift_core.Bytes.Order.{eq_of_bytes_eq}
use sift_core.Engine.{query}
use sift_core.HashMap.Moves.{is_some, contains-is_some}

-- The document has one of the tokens.
unfoldable pub matches : Docs → List Text → ℕ → Bool
unfolding frequency
matches docs [] id = false
matches docs (t ∷ ts) id = is_some (frequency t (HashMap.get id docs)) || matches docs ts id

-- The same of the postings.
posted : HashMap Text (List Posting) → List Text → ℕ → Bool
posted m [] id = false
posted m (t ∷ ts) id = contains id (entries (postings_of t m)) || posted m ts id

module _ (f : Floats) where
  open f use {F32, fmax, literal}

  contains-score_postings :
      (lengths : HashMap ℕ ℕ) (avgdl idf_term : F32) (ps : List Posting) (scores : HashMap ℕ F32)
      (id : ℕ)
      → contains id (score_postings f lengths avgdl idf_term ps scores)
        ≡ (contains id (entries ps) || contains id scores)
  unfolding score_postings entries contains
  contains-score_postings lengths avgdl idf_term [] scores id = ground arith
  contains-score_postings lengths avgdl idf_term (p ∷ ps) scores id =
      contains-score_postings lengths avgdl idf_term ps _ id
      ∙ ap (λ b. contains id (entries ps) || b) (contains-update p.doc_id id (literal 0 1) _ scores)
      ∙ ground arith

  score_postings-Distinct :
      (lengths : HashMap ℕ ℕ) (avgdl idf_term : F32) (ps : List Posting) (scores : HashMap ℕ F32)
      → Distinct scores
      → Distinct (score_postings f lengths avgdl idf_term ps scores)
  unfolding score_postings
  score_postings-Distinct lengths avgdl idf_term [] scores d = d
  score_postings-Distinct lengths avgdl idf_term (p ∷ ps) scores d =
      score_postings-Distinct lengths avgdl idf_term ps _
        (update-Distinct p.doc_id (literal 0 1) _ scores d)

  contains-score_term :
      (index : InvertedIndex) (avgdl n : F32) (t : Text) (scores : HashMap ℕ F32) (id : ℕ)
      → contains id (score_term f index avgdl n t scores)
        ≡ (contains id (entries (postings_of t index.postings)) || contains id scores)
  unfolding score_term postings_of entries contains
  contains-score_term index avgdl n t scores id =
      elim (Option-cases (HashMap.get t index.postings)) [
        | inl e ↦ rw (score_term, e) refl
        | inr (ps, e) ↦ rw (score_term, e) (contains-score_postings _ _ _ ps scores id)
      ]

  score_term-Distinct :
      (index : InvertedIndex) (avgdl n : F32) (t : Text) (scores : HashMap ℕ F32)
      → Distinct scores
      → Distinct (score_term f index avgdl n t scores)
  unfolding score_term
  score_term-Distinct index avgdl n t scores d =
      elim (Option-cases (HashMap.get t index.postings)) [
        | inl e ↦ rw (score_term, e) d
        | inr (ps, e) ↦ rw (score_term, e) (score_postings-Distinct _ _ _ ps scores d)
      ]

  pub score_terms-Distinct :
      (index : InvertedIndex) (avgdl n : F32) (ts : List Text) (seen : HashMap {0, 0} Text Unit)
      (scores : HashMap ℕ F32)
      → Distinct scores
      → Distinct (score_terms f index avgdl n ts seen scores)
  unfolding score_terms
  score_terms-Distinct index avgdl n [] seen scores d = d
  score_terms-Distinct index avgdl n (t ∷ ts) seen scores d =
      score_terms-Distinct index avgdl n ts (HashMap.insert t tt seen) _
        (elim (Bool-cases (contains t seen)) [
          | inl again ↦ rw again d
          | inr first ↦ rw first (score_term-Distinct index avgdl n t scores d)
        ])

  -- One token: one that was seen before has had its part.
  abbrev step :
      InvertedIndex → F32 → F32 → Text → HashMap {0, 0} Text Unit → HashMap ℕ F32 → HashMap ℕ F32
  step index avgdl n t seen scores =
      if contains t seen then scores else score_term f index avgdl n t scores

  contains-step :
      (index : InvertedIndex) (avgdl n : F32) (id : ℕ) (t : Text) (seen : HashMap {0, 0} Text Unit)
      (scores : HashMap ℕ F32)
      → (contains t seen ≡ true
          → contains id (entries (postings_of t index.postings)) ≡ true
          → contains id scores ≡ true)
      → contains id (step index avgdl n t seen scores)
        ≡ (contains id (entries (postings_of t index.postings)) || contains id scores)
  contains-step index avgdl n id t seen scores past = elim (Bool-cases (contains t seen)) [
    | inl again ↦ rw again (ground (arith, past again))
    | inr first ↦ rw first (contains-score_term index avgdl n t scores id)
  ]

  contains-score_terms :
      (index : InvertedIndex) (avgdl n : F32) (id : ℕ) (ts : List Text)
      (seen : HashMap {0, 0} Text Unit) (scores : HashMap ℕ F32)
      → ((t : Text)
          → contains t seen ≡ true
          → contains id (entries (postings_of t index.postings)) ≡ true
          → contains id scores ≡ true)
      → contains id (score_terms f index avgdl n ts seen scores)
        ≡ (posted index.postings ts id || contains id scores)
  unfolding score_terms posted
  contains-score_terms index avgdl n id [] seen scores past = refl
  contains-score_terms index avgdl n id (t ∷ ts) seen scores past =
      let now = contains-step index avgdl n id t seen scores (past t) in
      contains-score_terms index avgdl n id ts (HashMap.insert t tt seen)
        (step index avgdl n t seen scores)
        (λ s there has.
          let same : t ≡ s
              → contains id (entries (postings_of t index.postings))
                ≡ contains id (entries (postings_of s index.postings)) =
            ap (λ r. contains id (entries (postings_of r index.postings))) in
          ground
            (arith, contains-insert t s tt seen, eq_of_bytes_eq t s, same, past s, there, has, now))
      ∙ ap (λ b. posted index.postings ts id || b) now
      ∙ ground arith

  posted-matches :
      (index : InvertedIndex) (docs : Docs) (ts : List Text) (id : ℕ)
      → Indexes index docs
      → posted index.postings ts id ≡ matches docs ts id
  unfolding posted matches
  posted-matches index docs [] id is = refl
  posted-matches index docs (t ∷ ts) id is =
      ap (λ b. b || posted index.postings ts id)
        (contains-is_some id (entries (postings_of t index.postings)) ∙ ap is_some (is.counts t id))
      ∙ ap (λ b. is_some (frequency t (HashMap.get id docs)) || b)
          (posted-matches index docs ts id is)

  -- The scores of a query: the map that the loop of `search` fills.
  abbrev pub scores_of : Unicode → InvertedIndex → Text → HashMap ℕ F32
  scores_of u index query =
      score_terms f index (fmax (avg_doc_length f index) (literal 1 1)) (literal index.doc_count 1)
        (tokenize u query) [] []

  pub scores_of-matches :
      (u : Unicode) (index : InvertedIndex) (docs : Docs) (query : Text) (id : ℕ)
      → Indexes index docs
      → contains id (scores_of u index query) ≡ matches docs (tokenize u query) id
  unfolding contains
  scores_of-matches u index docs query id is =
      contains-score_terms index _ _ id (tokenize u query) [] [] (λ t there has. absurd (cc))
      ∙ ap (λ b. b || false) (posted-matches index docs (tokenize u query) id is)
      ∙ ground arith
