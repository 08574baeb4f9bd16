-- ===== src/Text/Remove.antt =====
-- Removing a document takes it, and nothing else, out of the index.
use mathlib.Core.Option
use sift_core.HashMap
use sift_core.HashMap.{HashMap, bytes_key, nat_key, contains}
use sift_core.HashMap.Laws.{Distinct, get-remove, remove-Distinct, get-none}
use sift_core.Text.{Text, Posting, InvertedIndex, retain, retain_all, drop_empty, remove_document}
use sift_core.Text.Docs.{
  Docs, Indexes, Lists, Counts, frequency, entries, postings_of, get-lengths_of, remove-lengths_of,
  sizes-remove, remove_missing,
}
use sift_core.Prelude.{
  ℕ, ◌≡◌, refl, ap, ◌∙◌, inl, inr, false, none, some, List, [], ◌∷◌, arith, ◌==◌, if◌then◌else◌,
  Bool-cases, Option-cases, length, subst, sym, ◌≢◌,
}
use sift_core.Bytes.{bytes_eq}

get-retain :
    (id j : ℕ) (ps : List Posting)
    → HashMap.get j (entries (retain id ps))
      ≡ (if id == j then none else HashMap.get j (entries ps))
unfolding HashMap.get entries retain
get-retain id j [] = ground arith
get-retain id j (p ∷ ps) = ground (arith, get-retain id j ps)

contains-retain :
    (id j : ℕ) (ps : List Posting)
    → contains j (entries ps) ≡ false
    → contains j (entries (retain id ps)) ≡ false
unfolding contains entries retain
contains-retain id j [] h = refl
contains-retain id j (p ∷ ps) h = ground (arith, contains-retain id j ps)

retain-Distinct :
    (id : ℕ) (ps : List Posting) → Distinct (entries ps) → Distinct (entries (retain id ps))
unfolding entries retain
retain-Distinct id [] d = tt
retain-Distinct id (p ∷ ps) d = elim (Bool-cases (p.doc_id == id)) [
  | inl gone ↦ rw gone (retain-Distinct id ps d.1)
  | inr kept ↦ rw kept (contains-retain id p.doc_id ps d.0, retain-Distinct id ps d.1)
]

postings_of-retain_all :
    (id : ℕ) (t : Text) (m : HashMap Text (List Posting))
    → postings_of t (retain_all id m) ≡ retain id (postings_of t m)
unfolding postings_of HashMap.get retain_all retain
postings_of-retain_all id t [] = refl
postings_of-retain_all id t ((s, ps) ∷ m) = ground (arith, postings_of-retain_all id t m)

contains-retain_all :
    (id : ℕ) (t : Text) (m : HashMap Text (List Posting))
    → contains t (retain_all id m) ≡ contains t m
unfolding contains retain_all
contains-retain_all id t [] = refl
contains-retain_all id t ((s, ps) ∷ m) = ground (arith, contains-retain_all id t m)

retain_all-Distinct :
    (id : ℕ) (m : HashMap Text (List Posting)) → Distinct m → Distinct (retain_all id m)
unfolding retain_all
retain_all-Distinct id [] d = tt
retain_all-Distinct id ((s, ps) ∷ m) d =
    (contains-retain_all id s m ∙ d.0, retain_all-Distinct id m d.1)

contains-drop_empty :
    (t : Text) (m : HashMap Text (List Posting))
    → contains t m ≡ false
    → contains t (drop_empty m) ≡ false
unfolding contains drop_empty
contains-drop_empty t [] h = refl
contains-drop_empty t ((s, []) ∷ m) h = ground (arith, contains-drop_empty t m)
contains-drop_empty t ((s, p ∷ ps) ∷ m) h = ground (arith, contains-drop_empty t m)

drop_empty-Distinct : (m : HashMap Text (List Posting)) → Distinct m → Distinct (drop_empty m)
unfolding drop_empty
drop_empty-Distinct [] d = tt
drop_empty-Distinct ((s, []) ∷ m) d = drop_empty-Distinct m d.1
drop_empty-Distinct ((s, p ∷ ps) ∷ m) d = (contains-drop_empty s m d.0, drop_empty-Distinct m d.1)

postings_of-drop_empty :
    (t : Text) (m : HashMap Text (List Posting))
    → Distinct m
    → postings_of t (drop_empty m) ≡ postings_of t m
unfolding postings_of HashMap.get drop_empty
postings_of-drop_empty t [] d = refl
postings_of-drop_empty t ((s, []) ∷ m) d =
    ground (arith, postings_of-drop_empty t m d.1, get-none s m d.0, bytes_key.same_iff s t)
postings_of-drop_empty t ((s, p ∷ ps) ∷ m) d = ground (arith, postings_of-drop_empty t m d.1)

drop_empty_filled :
    (t : Text) (m : HashMap Text (List Posting)) → HashMap.get t (drop_empty m) ≢ some []
unfolding drop_empty HashMap.get
drop_empty_filled t [] h = absurd (cc)
drop_empty_filled t ((s, []) ∷ m) h = drop_empty_filled t m h
drop_empty_filled t ((s, p ∷ ps) ∷ m) h = elim (Bool-cases (bytes_eq s t)) [
  | inl here ↦ absurd (ground (arith, here, h))
  | inr later ↦ drop_empty_filled t m (ground (arith, later, h))
]

postings_of_pruned :
    (id : ℕ) (t : Text) (m : HashMap Text (List Posting))
    → Distinct m
    → postings_of t (drop_empty (retain_all id m)) ≡ retain id (postings_of t m)
postings_of_pruned id t m terms =
    postings_of-drop_empty t (retain_all id m) (retain_all-Distinct id m terms)
    ∙ postings_of-retain_all id t m

pruned-Lists :
    (id : ℕ) (m : HashMap Text (List Posting))
    → Distinct m
    → Lists m
    → Lists (drop_empty (retain_all id m))
pruned-Lists id m terms lists t = (
  drop_empty_filled t (retain_all id m),
  subst (λ ps. Distinct (entries ps)) (sym (postings_of_pruned id t m terms))
      (retain-Distinct id (postings_of t m) (lists t).1),
)

pruned-Counts :
    (id : ℕ) (m : HashMap Text (List Posting)) (docs : Docs)
    → Distinct m
    → Distinct docs
    → Counts m docs
    → Counts (drop_empty (retain_all id m)) (HashMap.remove id docs)
unfolding frequency
pruned-Counts id m docs terms once counts t j =
    ap (λ ps. HashMap.get j (entries ps)) (postings_of_pruned id t m terms)
    ∙ ground (arith, get-retain id j (postings_of t m), get-remove id j docs once, counts t j)

remove_missing-Indexes :
    (id : ℕ) (index : InvertedIndex) (docs : Docs)
    → HashMap.get id docs ≡ none
    → Indexes index docs
    → Indexes (remove_document id index) (HashMap.remove id docs)
unfolding remove_document
remove_missing-Indexes id index docs missing is =
    let lookup : HashMap.get id index.doc_lengths ≡ none =
      ap (HashMap.get id) is.lengths ∙ get-lengths_of id docs ∙ ap (Option.map length) missing in
    rw (remove_document, lookup, remove_missing id docs missing) is

remove_found-Indexes :
    (id : ℕ) (tokens : List Text) (index : InvertedIndex) (docs : Docs)
    → HashMap.get id docs ≡ some tokens
    → Indexes index docs
    → Indexes (remove_document id index) (HashMap.remove id docs)
unfolding remove_document
remove_found-Indexes id tokens index docs found is =
    let lookup : HashMap.get id index.doc_lengths ≡ some (length tokens) =
      ap (HashMap.get id) is.lengths ∙ get-lengths_of id docs ∙ ap (Option.map length) found in
    let (total, count) = sizes-remove id tokens docs found in
    rw (remove_document, lookup)
      (record {
        lengths = ap (HashMap.remove id) is.lengths ∙ remove-lengths_of id docs;
        total = omega (arith, is.total, total);
        count = omega (arith, is.count, count);
        once = remove-Distinct id docs is.once;
        terms =
            drop_empty-Distinct (retain_all id index.postings)
              (retain_all-Distinct id index.postings is.terms);
        lists = pruned-Lists id index.postings is.terms is.lists;
        counts = pruned-Counts id index.postings docs is.terms is.once is.counts;
      })

-- Where the index holds exactly the documents, it holds exactly the others after a removal.
pub remove-Indexes :
    (id : ℕ) (index : InvertedIndex) (docs : Docs)
    → Indexes index docs
    → Indexes (remove_document id index) (HashMap.remove id docs)
remove-Indexes id index docs is = elim (Option-cases (HashMap.get id docs)) [
  | inl missing ↦ remove_missing-Indexes id index docs missing is
  | inr (tokens, found) ↦ remove_found-Indexes id tokens index docs found is
]
