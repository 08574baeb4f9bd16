-- ===== src/Result.antt =====
-- `io::Result`, with panics as a third outcome.
use sift_core.Prelude.{◌≡◌, refl, ◌⊎◌, inl, inr}

pub data IoError : Type 0 where
  not_found unexpected_eof invalid_data os_fault : IoError

-- `panicked` is a slice index out of range or a failed `expect`.
pub data Result {ℓ} (A : Type ℓ) : Type ℓ where
  ok : A → Result A
  err : IoError → Result A
  panicked : Result A

infixl 5 ◌>>=◌
abbrev pub ◌>>=◌ {ℓ κ} : {A : Type ℓ} {B : Type κ} → Result A → (A → Result B) → Result B
ok a >>= f = f a
err e >>= f = err e
panicked >>= f = panicked

-- The three outcomes.
pub Result-cases {ℓ} :
    {A : Type ℓ} (r : Result A)
    → ((a : A) × (r ≡ ok a)) ⊎ (((e : IoError) × (r ≡ err e)) ⊎ (r ≡ panicked))
Result-cases (ok a) = inl (a, refl)
Result-cases (err e) = inr (inl (e, refl))
Result-cases panicked = inr (inr refl)
