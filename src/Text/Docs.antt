-- ===== src/Text/Docs.antt =====
-- The inverted index as a map from documents to their tokens.
use sift_core.HashMap
use mathlib.Core.Option
use sift_core.HashMap.{HashMap, bytes_key, nat_key, contains}
use sift_core.HashMap.Laws.{Distinct, held}
use sift_core.Text.{Text, Posting, InvertedIndex}
use sift_core.Bytes.{bytes_eq}
use sift_core.Prelude.{
  ℕ, zero, suc, ◌+◌, ◌≡◌, refl, Option, none, some, List, [], ◌∷◌, arith, if◌then◌else◌, length,
  ◌≢◌,
}

abbrev pub Docs : Type 0
Docs = HashMap ℕ (List Text)

-- How often a token stands among the tokens.
unfoldable pub occurrences : Text → List Text → ℕ
occurrences t [] = 0
occurrences t (x ∷ xs) = let rest = occurrences t xs in if bytes_eq x t then rest + 1 else rest

-- A count as a map holds it: nothing for none.
unfoldable pub positive : ℕ → Option ℕ
positive zero = none
positive (suc n) = some (suc n)

-- How often a token stands in a document, where it does.
unfoldable pub frequency : Text → Option (List Text) → Option ℕ
unfolding positive occurrences
frequency t none = none
frequency t (some tokens) = positive (occurrences t tokens)

unfoldable pub lengths_of : Docs → HashMap ℕ ℕ
lengths_of [] = []
lengths_of ((id, tokens) ∷ docs) = (id, length tokens) ∷ lengths_of docs

unfoldable pub total_of : Docs → ℕ
total_of [] = 0
total_of ((id, tokens) ∷ docs) = length tokens + total_of docs

-- A list of postings as a map from documents to frequencies.
unfoldable pub entries : List Posting → HashMap ℕ ℕ
entries [] = []
entries (p ∷ ps) = (p.doc_id, p.term_freq) ∷ entries ps

-- The postings of a term.
unfoldable pub postings_of : Text → HashMap Text (List Posting) → List Posting
postings_of t m = held [] (HashMap.get t m)

-- Each document has at most one posting in a list, and no list is empty.
abbrev pub Lists : HashMap Text (List Posting) → Type 0
Lists m = (t : Text) → (HashMap.get t m ≢ some []) × Distinct (entries (postings_of t m))

-- The postings are those of the documents.
abbrev pub Counts : HashMap Text (List Posting) → Docs → Type 0
Counts m docs =
    (t : Text) (id : ℕ)
    → HashMap.get id (entries (postings_of t m)) ≡ frequency t (HashMap.get id docs)

-- The index of exactly these documents.
pub record Indexes (index : InvertedIndex) (docs : Docs) : Type 0 where
  pub lengths : index.doc_lengths ≡ lengths_of docs
  pub total : index.total_doc_length ≡ total_of docs
  pub count : index.doc_count ≡ length docs
  pub once : Distinct docs
  pub terms : Distinct index.postings
  pub lists : Lists index.postings
  pub counts : Counts index.postings docs

pub get-lengths_of :
    (id : ℕ) (docs : Docs)
    → HashMap.get id (lengths_of docs) ≡ Option.map length (HashMap.get id docs)
unfolding HashMap.get lengths_of
get-lengths_of id [] = refl
get-lengths_of id ((j, tokens) ∷ docs) = ground (arith, get-lengths_of id docs)

pub remove-lengths_of :
    (id : ℕ) (docs : Docs)
    → HashMap.remove id (lengths_of docs) ≡ lengths_of (HashMap.remove id docs)
unfolding HashMap.remove lengths_of
remove-lengths_of id [] = refl
remove-lengths_of id ((j, tokens) ∷ docs) = ground (arith, remove-lengths_of id docs)

pub insert-lengths_of :
    (id : ℕ) (tokens : List Text) (docs : Docs)
    → HashMap.insert id (length tokens) (lengths_of docs)
      ≡ lengths_of (HashMap.insert id tokens docs)
unfolding HashMap.insert lengths_of
insert-lengths_of id tokens [] = refl
insert-lengths_of id tokens ((j, old) ∷ docs) = ground (arith, insert-lengths_of id tokens docs)

-- The document that is there counts.
pub sizes-remove :
    (id : ℕ) (tokens : List Text) (docs : Docs)
    → HashMap.get id docs ≡ some tokens
    → (total_of docs ≡ length tokens + total_of (HashMap.remove id docs))
      × (length docs ≡ length (HashMap.remove id docs) + 1)
unfolding HashMap.get HashMap.remove total_of
sizes-remove id tokens [] h = absurd (cc)
sizes-remove id tokens ((j, old) ∷ docs) h = ground (arith, sizes-remove id tokens docs)

pub remove_missing :
    (id : ℕ) (docs : Docs) → HashMap.get id docs ≡ none → HashMap.remove id docs ≡ docs
unfolding HashMap.get HashMap.remove
remove_missing id [] h = refl
remove_missing id ((j, old) ∷ docs) h = ground (arith, remove_missing id docs)
