-- ===== src/Text/Push.antt =====
-- The postings that `index_document` adds.
use sift_core.HashMap
use sift_core.HashMap.{HashMap, bytes_key, nat_key, contains}
use sift_core.HashMap.Moves.{contains-append, get-append, contains-none}
use sift_core.HashMap.Laws.{held, Distinct, get-insert, get-update, update-Distinct, get-none}
use sift_core.Text.{Text, Posting, push_postings}
use sift_core.Text.Docs.{
  Docs, Lists, Counts, frequency, positive, occurrences, entries, postings_of,
}
use sift_core.Bytes.{bytes_eq}
use sift_core.Prelude.{
  ℕ, ◌≡◌, sym, ap, ◌∙◌, ◌≢◌, inl, inr, Option, none, some, List, [], ◌∷◌, ◌++◌, append-nil,
  if◌then◌else◌, Bool-cases, refl, subst, false, arith, some_inj, ◌==◌,
}
use sift_core.Bytes.Order.{eq_of_bytes_eq}

-- The posting that a term gains.
abbrev added : ℕ → Option ℕ → List Posting
added id none = []
added id (some n) = record { doc_id = id; term_freq = n } ∷ []

-- One posting at the end of a term's list.
abbrev push : ℕ → Text → ℕ → HashMap Text (List Posting) → HashMap Text (List Posting)
push id term freq m =
    HashMap.update term [] (λ ps. ps ++ (record { doc_id = id; term_freq = freq } ∷ [])) m

postings_of-push :
    (id : ℕ) (t term : Text) (freq : ℕ) (m : HashMap Text (List Posting))
    → postings_of t (push id term freq m)
      ≡ postings_of t m ++ (if bytes_eq term t then added id (some freq) else [])
unfolding postings_of
postings_of-push id t term freq m =
    ap (held [])
      (get-update term t [] (λ ps. ps ++ (record { doc_id = id; term_freq = freq } ∷ [])) m)
    ∙ elim (Bool-cases (bytes_eq term t)) [
      | inl here ↦
          rw here (ap (λ s. postings_of s m ++ added id (some freq)) (eq_of_bytes_eq term t here))
      | inr other ↦ rw other (sym (append-nil _))
    ]

postings_of-push_postings :
    (id : ℕ) (t : Text) (freqs : HashMap Text ℕ) (m : HashMap Text (List Posting))
    → Distinct freqs
    → postings_of t (push_postings id freqs m) ≡ postings_of t m ++ added id (HashMap.get t freqs)
unfolding push_postings HashMap.get
postings_of-push_postings id t [] m d = sym (append-nil _)
postings_of-push_postings id t ((term, freq) ∷ freqs) m d =
    postings_of-push_postings id t freqs (push id term freq m) d.1
    ∙ ap (λ ps. ps ++ added id (HashMap.get t freqs)) (postings_of-push id t term freq m)
    ∙ elim (Bool-cases (bytes_eq term t)) [
      | inl here ↦
          let gone : HashMap.get t freqs ≡ none =
            ap (λ s. HashMap.get s freqs) (sym (eq_of_bytes_eq term t here))
            ∙ get-none term freqs d.0 in
          rw (here, gone) (append-nil _)
      | inr other ↦ rw other (ap (λ ps. ps ++ added id (HashMap.get t freqs)) (append-nil _))
    ]

pub push_postings-Distinct :
    (id : ℕ) (freqs : HashMap Text ℕ) (m : HashMap Text (List Posting))
    → Distinct m
    → Distinct (push_postings id freqs m)
unfolding push_postings
push_postings-Distinct id [] m d = d
push_postings-Distinct id ((term, freq) ∷ freqs) m d =
    push_postings-Distinct id freqs (push id term freq m) (update-Distinct term [] _ m d)

filled_end {ℓ} : {A : Type ℓ} (xs : List A) (x : A) → xs ++ (x ∷ []) ≢ []
filled_end [] x h = absurd (cc)
filled_end (y ∷ xs) x h = absurd (cc)

push_filled :
    (id : ℕ) (term : Text) (freq : ℕ) (m : HashMap Text (List Posting))
    → ((t : Text) → HashMap.get t m ≢ some [])
    → (t : Text) → HashMap.get t (push id term freq m) ≢ some []
push_filled id term freq m filled t h =
    let more = λ (ps : List Posting). ps ++ (record { doc_id = id; term_freq = freq } ∷ []) in
    let now = sym (get-update term t [] more m) ∙ h in
    elim (Bool-cases (bytes_eq term t)) [
      | inl here ↦
          filled_end (held [] (HashMap.get term m)) (record { doc_id = id; term_freq = freq })
            (some_inj (ground (arith, here, now)))
      | inr other ↦ filled t (ground (arith, other, now))
    ]

push_postings_filled :
    (id : ℕ) (freqs : HashMap Text ℕ) (m : HashMap Text (List Posting))
    → ((t : Text) → HashMap.get t m ≢ some [])
    → (t : Text) → HashMap.get t (push_postings id freqs m) ≢ some []
unfolding push_postings
push_postings_filled id [] m filled t = filled t
push_postings_filled id ((term, freq) ∷ freqs) m filled t =
    push_postings_filled id freqs (push id term freq m) (push_filled id term freq m filled) t

entries-append : (xs ys : List Posting) → entries (xs ++ ys) ≡ entries xs ++ entries ys
unfolding entries
entries-append [] ys = refl
entries-append (p ∷ xs) ys = ap (λ t. (p.doc_id, p.term_freq) ∷ t) (entries-append xs ys)

append_added-Distinct :
    (id : ℕ) (o : Option ℕ) (ps : List Posting)
    → contains id (entries ps) ≡ false
    → Distinct (entries ps)
    → Distinct (entries (ps ++ added id o))
unfolding entries contains
append_added-Distinct id none ps h d = subst (λ t. Distinct (entries t)) (sym (append-nil ps)) d
append_added-Distinct id (some n) [] h d = (refl, tt)
append_added-Distinct id (some n) (p ∷ ps) h d = (
  ground (
    arith,
    ap (contains p.doc_id) (entries-append ps (added id (some n))),
    contains-append p.doc_id (entries ps) ((id, n) ∷ []),
    d.0,
    h,
  ),
  append_added-Distinct id (some n) ps (ground (arith, h)) d.1,
)

pub push_postings-Lists :
    (id : ℕ) (freqs : HashMap Text ℕ) (m : HashMap Text (List Posting))
    → Distinct freqs
    → ((t : Text) → HashMap.get id (entries (postings_of t m)) ≡ none)
    → Lists m
    → Lists (push_postings id freqs m)
push_postings-Lists id freqs m d lacks lists t = (
  push_postings_filled id freqs m (λ s. (lists s).0) t,
  subst (λ ps. Distinct (entries ps)) (sym (postings_of-push_postings id t freqs m d))
      (append_added-Distinct id (HashMap.get t freqs) (postings_of t m)
        (contains-none id (entries (postings_of t m)) (lacks t)) (lists t).1),
)

get-added :
    (id j : ℕ) (o : Option ℕ) → HashMap.get j (entries (added id o)) ≡ (if id == j then o else none)
unfolding HashMap.get entries
get-added id j none = ground arith
get-added id j (some n) = refl

pub push_postings-Counts :
    (id : ℕ) (tokens : List Text) (freqs : HashMap Text ℕ) (m : HashMap Text (List Posting))
    (docs : Docs)
    → Distinct freqs
    → ((t : Text) → HashMap.get t freqs ≡ positive (occurrences t tokens))
    → HashMap.get id docs ≡ none
    → Counts m docs
    → Counts (push_postings id freqs m) (HashMap.insert id tokens docs)
unfolding frequency
push_postings-Counts id tokens freqs m docs d tallies gone counts t j =
    let same_lookup : id ≡ j → HashMap.get id docs ≡ HashMap.get j docs =
      ap (λ i. HashMap.get i docs) in
    ap (λ ps. HashMap.get j (entries ps)) (postings_of-push_postings id t freqs m d)
    ∙ ap (HashMap.get j) (entries-append (postings_of t m) (added id (HashMap.get t freqs)))
    ∙ get-append j (entries (postings_of t m)) (entries (added id (HashMap.get t freqs)))
    ∙ ground (
      arith,
      counts t j,
      get-added id j (HashMap.get t freqs),
      tallies t,
      get-insert id j tokens docs,
      gone,
      same_lookup,
    )
