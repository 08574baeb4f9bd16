-- ===== src/Fallible.antt =====
-- `Result` with an error type of the crate: a value, an error, or a panic.
use sift_core.Prelude.{◌≡◌, refl, ◌⊎◌, inl, inr, ap}

pub data Fallible {ℓ κ} (E : Type ℓ) (A : Type κ) : Type (ℓ ⊔ κ) where
  done : A → Fallible E A
  failed : E → Fallible E A
  crashed : Fallible E A

infixl 5 ◌>>=◌
abbrev pub ◌>>=◌ {ℓ κ μ} :
    {E : Type ℓ} {A : Type κ} {B : Type μ} → Fallible E A → (A → Fallible E B) → Fallible E B
done a >>= k = k a
failed e >>= k = failed e
crashed >>= k = crashed

-- The three outcomes.
pub Fallible-cases {ℓ κ} :
    {E : Type ℓ} {A : Type κ} (r : Fallible E A)
    → ((a : A) × (r ≡ done a)) ⊎ (((e : E) × (r ≡ failed e)) ⊎ (r ≡ crashed))
Fallible-cases (done a) = inl (a, refl)
Fallible-cases (failed e) = inr (inl (e, refl))
Fallible-cases crashed = inr (inr refl)

-- A run that goes on behind a result.
pub bind_done {ℓ κ μ} :
    {E : Type ℓ} {A : Type κ} {B : Type μ} {m : Fallible E A} {a : A} (k : A → Fallible E B)
    → m ≡ done a
    → (m >>= k) ≡ k a
bind_done k e = ap (λ r. r >>= k) e
