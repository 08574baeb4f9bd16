-- ===== src/HashMap.antt =====
-- `std::collections::HashMap` as the sources use it: an association list in the order in which its
-- keys came in. The real order of iteration is not documented.
pub mod Laws
pub mod Moves
use sift_core.Prelude.{
  ◌↔◌, ◌≡◌, ==_iff, ◌==◌, ℕ, subst, Bool, true, false, Option, none, some, List, [], ◌∷◌,
  if◌then◌else◌,
}
use sift_core.Bytes.{Bytes, bytes_eq}
use sift_core.Bytes.Order.{eq_of_bytes_eq, bytes_eq_refl}

-- Keys that can be compared: `Eq` and `Hash`.
pub record Key {ℓ} (K : Type ℓ) : Type ℓ where
  pub same : K → K → Bool
  pub same_iff : (a b : K) → (same a b ≡ true) ↔ (a ≡ b)

instance abbrev pub nat_key : Key ℕ
nat_key = record { same = ◌==◌; same_iff = ==_iff }

pub bytes_eq_iff : (a b : Bytes) → (bytes_eq a b ≡ true) ↔ (a ≡ b)
bytes_eq_iff a b = (eq_of_bytes_eq a b, λ h. subst (λ t. bytes_eq a t ≡ true) h (bytes_eq_refl a))

instance abbrev pub bytes_key : Key Bytes
bytes_key = record { same = bytes_eq; same_iff = bytes_eq_iff }

abbrev pub HashMap {ℓ κ} : Type ℓ → Type κ → Type (ℓ ⊔ κ)
HashMap K V = List (K × V)

module _ {ℓ κ} {K : Type ℓ} {V : Type κ} ⦃key : Key K⦄ where
  unfoldable pub get : K → HashMap K V → Option V
  get k [] = none
  get k ((j, v) ∷ m) = if key.same j k then some v else get k m

  -- `insert`: the value of a key that is there is replaced.
  unfoldable pub insert : K → V → HashMap K V → HashMap K V
  insert k v [] = (k, v) ∷ []
  insert k v ((j, w) ∷ m) =
      let rest = insert k v m in if key.same j k then (j, v) ∷ m else (j, w) ∷ rest

  -- `remove`: what is left of the map.
  unfoldable pub remove : K → HashMap K V → HashMap K V
  remove k [] = []
  remove k ((j, w) ∷ m) = let rest = remove k m in if key.same j k then m else (j, w) ∷ rest

  -- `*m.entry(k).or_insert(v) = f(...)`.
  unfoldable pub update : K → V → (V → V) → HashMap K V → HashMap K V
  update k v f [] = (k, f v) ∷ []
  update k v f ((j, w) ∷ m) =
      let rest = update k v f m in if key.same j k then (j, f w) ∷ m else (j, w) ∷ rest

  -- The key is there.
  unfoldable pub contains : K → HashMap K V → Bool
  contains k [] = false
  contains k ((j, w) ∷ m) = let rest = contains k m in if key.same j k then true else rest
