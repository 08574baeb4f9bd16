-- ===== src/HashMap/Laws.antt =====
-- Lookups after writes, and keys that stay distinct.
use sift_core.HashMap.{Key, HashMap, get, insert, remove, update, contains}
use sift_core.Prelude.{
  ◌≡◌, refl, inl, inr, true, false, not, ◌&&◌, ◌||◌, Option, none, some, [], ◌∷◌, arith,
  if◌then◌else◌, Bool-cases, ◌++◌,
}

-- What stands under a key that may be missing.
abbrev pub held {ℓ} : {V : Type ℓ} → V → Option V → V
held d none = d
held d (some v) = v

module _ {ℓ κ} {K : Type ℓ} {V : Type κ} ⦃key : Key K⦄ where
  -- No key stands twice.
  abbrev pub Distinct : HashMap K V → Type 0
  Distinct [] = Unit
  Distinct ((j, w) ∷ m) = (contains j m ≡ false) × Distinct m

  pub get-insert :
      (k j : K) (v : V) (m : HashMap K V)
      → get j (insert k v m) ≡ (if key.same k j then some v else get j m)
  unfolding get insert
  get-insert k j v [] = refl
  get-insert k j v ((i, w) ∷ m) =
      ground (arith, get-insert k j v m, key.same_iff k j, key.same_iff i k, key.same_iff i j)

  pub get-update :
      (k j : K) (d : V) (f : V → V) (m : HashMap K V)
      → get j (update k d f m) ≡ (if key.same k j then some (f (held d (get k m))) else get j m)
  unfolding get update
  get-update k j d f [] = refl
  get-update k j d f ((i, w) ∷ m) =
      ground (arith, get-update k j d f m, key.same_iff k j, key.same_iff i k, key.same_iff i j)

  pub get-none : (k : K) (m : HashMap K V) → contains k m ≡ false → get k m ≡ none
  unfolding get contains
  get-none k [] h = refl
  get-none k ((i, w) ∷ m) h = ground (arith, get-none k m)

  pub get-some : (k : K) (m : HashMap K V) → contains k m ≡ true → (v : V) × (get k m ≡ some v)
  unfolding get contains
  get-some k [] h = absurd (cc)
  get-some k ((i, w) ∷ m) h = elim (Bool-cases (key.same i k)) [
    | inl here ↦ (w, rw here)
    | inr later ↦ let (v, e) = get-some k m (ground (arith, later)) in (v, rw later e)
  ]

  pub contains-get : (k : K) (v : V) (m : HashMap K V) → get k m ≡ some v → contains k m ≡ true
  unfolding get contains
  contains-get k v [] h = cc
  contains-get k v ((i, w) ∷ m) h = ground (arith, contains-get k v m)

  pub get-remove :
      (k j : K) (m : HashMap K V)
      → Distinct m
      → get j (remove k m) ≡ (if key.same k j then none else get j m)
  unfolding get remove
  get-remove k j [] d = ground arith
  get-remove k j ((i, w) ∷ m) d = ground (
    arith,
    get-remove k j m d.1,
    get-none i m d.0,
    key.same_iff k j,
    key.same_iff i k,
    key.same_iff i j,
  )

  pub contains-insert :
      (k j : K) (v : V) (m : HashMap K V)
      → contains j (insert k v m) ≡ (key.same k j || contains j m)
  unfolding contains insert
  contains-insert k j v [] = ground arith
  contains-insert k j v ((i, w) ∷ m) =
      ground (arith, contains-insert k j v m, key.same_iff k j, key.same_iff i k, key.same_iff i j)

  pub contains-update :
      (k j : K) (d : V) (f : V → V) (m : HashMap K V)
      → contains j (update k d f m) ≡ (key.same k j || contains j m)
  unfolding contains update
  contains-update k j d f [] = ground arith
  contains-update k j d f ((i, w) ∷ m) =
      ground
        (arith, contains-update k j d f m, key.same_iff k j, key.same_iff i k, key.same_iff i j)

  pub contains-remove :
      (k j : K) (m : HashMap K V)
      → Distinct m
      → contains j (remove k m) ≡ (not (key.same k j) && contains j m)
  unfolding contains remove
  contains-remove k j [] d = ground arith
  contains-remove k j ((i, w) ∷ m) d =
      ground (
        arith,
        contains-remove k j m d.1,
        d.0,
        key.same_iff k j,
        key.same_iff i k,
        key.same_iff i j,
      )

  pub insert-Distinct : (k : K) (v : V) (m : HashMap K V) → Distinct m → Distinct (insert k v m)
  unfolding insert contains
  insert-Distinct k v [] d = (refl, tt)
  insert-Distinct k v ((i, w) ∷ m) d =
      ground
        (arith, insert-Distinct k v m, contains-insert k i v m, key.same_iff i k, key.same_iff k i)

  pub update-Distinct :
      (k : K) (d : V) (f : V → V) (m : HashMap K V) → Distinct m → Distinct (update k d f m)
  unfolding update contains
  update-Distinct k d f [] h = (refl, tt)
  update-Distinct k d f ((i, w) ∷ m) h = ground (
    arith,
    update-Distinct k d f m,
    contains-update k i d f m,
    key.same_iff i k,
    key.same_iff k i,
  )

  pub remove-Distinct : (k : K) (m : HashMap K V) → Distinct m → Distinct (remove k m)
  unfolding remove contains
  remove-Distinct k [] d = tt
  remove-Distinct k ((i, w) ∷ m) d = ground (arith, remove-Distinct k m, contains-remove k i m d.1)

  -- Where the key stands behind a front without it.
  pub insert-split :
      (k : K) (v w : V) (front back : HashMap K V)
      → contains k front ≡ false
      → insert k v (front ++ ((k, w) ∷ back)) ≡ front ++ ((k, v) ∷ back)
  unfolding insert contains
  insert-split k v w [] back h = rw ((key.same_iff k k).1 refl) refl
  insert-split k v w ((i, u) ∷ front) back h = ground (arith, insert-split k v w front back)

  pub insert_absent :
      (k : K) (v : V) (m : HashMap K V) → contains k m ≡ false → insert k v m ≡ m ++ ((k, v) ∷ [])
  unfolding insert contains
  insert_absent k v [] h = refl
  insert_absent k v ((i, u) ∷ m) h = ground (arith, insert_absent k v m)
