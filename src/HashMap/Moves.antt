-- ===== src/HashMap/Moves.antt =====
-- Lookups in a map whose last entry takes the place of another one.
use sift_core.HashMap.{Key, HashMap, get, contains}
use sift_core.HashMap.Laws.{Distinct, get-none, get-some}
use sift_core.Prelude.{
  ◌≡◌, refl, ap, false, ◌||◌, none, some, [], ◌∷◌, ◌++◌, arith, if◌then◌else◌, inl, inr, Option,
  Bool-cases, Bool, true,
}

-- `o.or(o')`.
abbrev pub or_else {ℓ} : {V : Type ℓ} → Option V → Option V → Option V
or_else none o = o
or_else (some v) o = some v

abbrev pub is_some {ℓ} : {A : Type ℓ} → Option A → Bool
is_some none = false
is_some (some a) = true

module _ {ℓ κ} {K : Type ℓ} {V : Type κ} ⦃key : Key K⦄ where
  pub contains-append :
      (k : K) (xs ys : HashMap K V) → contains k (xs ++ ys) ≡ (contains k xs || contains k ys)
  unfolding contains
  contains-append k [] ys = refl
  contains-append k ((i, w) ∷ xs) ys = ground (arith, contains-append k xs ys)

  pub get-append : (k : K) (xs ys : HashMap K V) → get k (xs ++ ys) ≡ or_else (get k xs) (get k ys)
  unfolding get
  get-append k [] ys = refl
  get-append k ((j, v) ∷ xs) ys = ground (arith, get-append k xs ys)

  pub contains-is_some : (k : K) (m : HashMap K V) → contains k m ≡ is_some (get k m)
  unfolding contains get
  contains-is_some k [] = refl
  contains-is_some k ((j, v) ∷ m) = ground (arith, contains-is_some k m)

  pub contains-none : (k : K) (m : HashMap K V) → get k m ≡ none → contains k m ≡ false
  contains-none k m h = elim (Bool-cases (contains k m)) [
    | inl there ↦ let (v, e) = get-some k m there in absurd (cc)
    | inr gone ↦ gone
  ]

  pub Distinct-front : (xs ys : HashMap K V) → Distinct (xs ++ ys) → Distinct xs
  Distinct-front [] ys d = tt
  Distinct-front ((i, w) ∷ xs) ys d =
      (ground (arith, contains-append i xs ys, d.0), Distinct-front xs ys d.1)

  Distinct-last :
      (xs : HashMap K V) (k : K) (v : V) → Distinct (xs ++ ((k, v) ∷ [])) → contains k xs ≡ false
  unfolding contains
  Distinct-last [] k v d = refl
  Distinct-last ((i, w) ∷ xs) k v d = ground (
    arith,
    Distinct-last xs k v d.1,
    contains-append i xs ((k, v) ∷ []),
    d.0,
    key.same_iff i k,
    key.same_iff k i,
  )

  get-last :
      (xs : HashMap K V) (k j : K) (v : V)
      → contains k xs ≡ false
      → get j (xs ++ ((k, v) ∷ [])) ≡ (if key.same k j then some v else get j xs)
  unfolding get contains
  get-last [] k j v h = refl
  get-last ((i, w) ∷ xs) k j v h =
      ground (arith, get-last xs k j v, key.same_iff i j, key.same_iff k j, key.same_iff i k)

  -- The map without its last entry.
  pub get-without_last :
      (xs : HashMap K V) (k j : K) (v : V)
      → Distinct (xs ++ ((k, v) ∷ []))
      → get j xs ≡ (if key.same k j then none else get j (xs ++ ((k, v) ∷ [])))
  get-without_last xs k j v d = ground (
    arith,
    get-last xs k j v (Distinct-last xs k v d),
    get-none j xs,
    Distinct-last xs k v d,
    ap (λ t. contains t xs),
    key.same_iff k j,
  )

  -- The last entry in the place of another one.
  move_last :
      (k l : K) (w v : V) (mid : HashMap K V)
      → Distinct ((k, w) ∷ (mid ++ ((l, v) ∷ [])))
      → Distinct ((l, v) ∷ mid)
        × ((j : K)
            → get j ((l, v) ∷ mid)
              ≡ (if key.same k j then none else get j ((k, w) ∷ (mid ++ ((l, v) ∷ [])))))
  unfolding get contains
  move_last k l w v mid d =
      let last = Distinct-last mid l v d.1 in
      (
        (last, Distinct-front mid ((l, v) ∷ []) d.1),
        λ j. ground (
          arith,
          get-last mid l j v last,
          get-none j mid,
          contains-append k mid ((l, v) ∷ []),
          d.0,
          key.same_iff k j,
          key.same_iff l j,
          key.same_iff l k,
          ap (λ t. contains t mid),
        ),
      )

  contains-move_last :
      (k l i : K) (w v : V) (front mid : HashMap K V)
      → contains i (front ++ ((k, w) ∷ (mid ++ ((l, v) ∷ [])))) ≡ false
      → (contains i (front ++ ((l, v) ∷ mid)) ≡ false) × (key.same k i ≡ false)
  unfolding contains
  contains-move_last k l i w v front mid h = ground (
    arith,
    contains-append i front ((k, w) ∷ (mid ++ ((l, v) ∷ []))),
    contains-append i front ((l, v) ∷ mid),
    contains-append i mid ((l, v) ∷ []),
  )

  -- A map in which the last entry takes the place of the entry of `k` is the map without `k`.
  pub replace_by_last :
      (k l : K) (w v : V) (front mid : HashMap K V)
      → Distinct (front ++ ((k, w) ∷ (mid ++ ((l, v) ∷ []))))
      → Distinct (front ++ ((l, v) ∷ mid))
        × ((j : K)
            → get j (front ++ ((l, v) ∷ mid))
              ≡ (if key.same k j then none else get j (front ++ ((k, w) ∷ (mid ++ ((l, v) ∷ []))))))
  unfolding get
  replace_by_last k l w v [] mid d = move_last k l w v mid d
  replace_by_last k l w v ((i, u) ∷ front) mid d =
      let (distinct, reads) = replace_by_last k l w v front mid d.1 in
      let (lacks, other) = contains-move_last k l i w v front mid d.0 in
      (
        (lacks, distinct),
        λ j. ground (arith, reads j, other, key.same_iff k j, key.same_iff i j, key.same_iff k i),
      )
