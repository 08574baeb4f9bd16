-- ===== src/Prelude/Perms.antt =====
-- What every item of a list satisfies, every item of a permutation of it satisfies.
use Prim.Native.Nat.{ℕ, zero, suc, ◌+◌}
use native.Mathlib.Omega.{arith}
use mathlib.Core.Path.{◌≡◌, refl, ap, subst, sym, ◌∙◌}
use mathlib.Core.Logic.Or
use mathlib.Core.List.{
  List, [], ◌∷◌, ◌++◌, Mem, Perm, Permᴰ, not-mem-nil, mem-cons_self, mem-cons_of_mem,
  eq-or-mem_of_mem-cons,
}
use mathlib.Core.List.Perm as Perm
use mathlib.Core.Logic.{∥∥₁_elim}
use native.Mathlib.Nat.{ℕ_set}
use sift_core.Prelude.Lists.{All, set, length}

module _ {ℓ κ} {A : Type ℓ} (P : A → Type κ) (prop : (x : A) → IsProp (P x)) where
  pub All-Mem : (xs : List A) (x : A) → All P xs → Mem x xs → P x
  All-Mem [] x a m = absurd (not-mem-nil m)
  All-Mem (y ∷ ys) x a m =
      Or.elim (prop x) (eq-or-mem_of_mem-cons m) (λ e. subst P (sym e) a.0) (All-Mem ys x a.1)

  pub All-of_Mem : (xs : List A) → ((x : A) → Mem x xs → P x) → All P xs
  All-of_Mem [] h = tt
  All-of_Mem (y ∷ ys) h = (h y mem-cons_self, All-of_Mem ys (λ x m. h x (mem-cons_of_mem y m)))

  pub All-Perm : {xs ys : List A} → Perm xs ys → All P xs → All P ys
  All-Perm {xs} {ys} p a = All-of_Mem ys (λ x m. All-Mem xs x a ((Perm.mem_iff p).1 m))

module _ {ℓ} {A : Type ℓ} where
  pub set-set : (xs : List A) (i : ℕ) (v w : A) → set (set xs i v) i w ≡ set xs i w
  set-set [] i v w = refl
  set-set (x ∷ xs) zero v w = refl
  set-set (x ∷ xs) (suc i) v w = ap (λ t. x ∷ t) (set-set xs i v w)

Permᴰ-length {ℓ} : {A : Type ℓ} {xs ys : List A} → Permᴰ xs ys → length xs ≡ length ys
Permᴰ-length Permᴰ.nil = refl
Permᴰ-length (Permᴰ.cons e p) = ap suc (Permᴰ-length p)
Permᴰ-length (Permᴰ.swap e e') = refl
Permᴰ-length (Permᴰ.trans p q) = Permᴰ-length p ∙ Permᴰ-length q

pub length-Perm {ℓ} : {A : Type ℓ} {xs ys : List A} → Perm xs ys → length xs ≡ length ys
length-Perm p = ∥∥₁_elim p (ℕ_set _ _) Permᴰ-length

module _ {ℓ κ} {A : Type ℓ} (P : A → Type κ) where
  pub All-append_front : (xs ys : List A) → All P (xs ++ ys) → All P xs
  All-append_front [] ys a = tt
  All-append_front (x ∷ xs) ys a = (a.0, All-append_front xs ys a.1)

  pub All-append_back : (xs ys : List A) → All P (xs ++ ys) → All P ys
  All-append_back [] ys a = a
  All-append_back (x ∷ xs) ys a = All-append_back xs ys a.1

-- The sum of a measure over a list.
abbrev pub total {ℓ} : {A : Type ℓ} → (A → ℕ) → List A → ℕ
total f [] = 0
total f (x ∷ xs) = f x + total f xs

Permᴰ-total {ℓ} : {A : Type ℓ} (f : A → ℕ) {xs ys : List A} → Permᴰ xs ys → total f xs ≡ total f ys
Permᴰ-total f Permᴰ.nil = refl
Permᴰ-total f (Permᴰ.cons e p) = omega (arith, ap f e, Permᴰ-total f p)
Permᴰ-total f (Permᴰ.swap e e') = omega (arith, ap f e, ap f e')
Permᴰ-total f (Permᴰ.trans p q) = Permᴰ-total f p ∙ Permᴰ-total f q

pub total-Perm {ℓ} :
    {A : Type ℓ} (f : A → ℕ) {xs ys : List A} → Perm xs ys → total f xs ≡ total f ys
total-Perm f p = ∥∥₁_elim p (ℕ_set _ _) (Permᴰ-total f)

pub total-append {ℓ} :
    {A : Type ℓ} (f : A → ℕ) (xs ys : List A) → total f (xs ++ ys) ≡ total f xs + total f ys
total-append f [] ys = omega arith
total-append f (x ∷ xs) ys = omega (arith, total-append f xs ys)
