-- ===== src/Vector/Swap.antt =====
-- Swapping two blocks of equal length, element by element.
use sift_core.Vector.{swap, swap_rows}
use sift_core.Prelude.{
  ℕ, zero, suc, ◌+◌, ◌≤◌, ◌<◌, ◌≡◌, refl, sym, ap, ◌∙◌, some, List, [], ◌∷◌, ◌++◌, append_assoc,
  arith, some_inj, length, get_elem?, set, length-append, get_elem?-in_range,
}

module _ {ℓ} {A : Type ℓ} where
  get_elem?-at :
      (xs ys : List A) (a : A) (n : ℕ) → length xs ≡ n → get_elem? (xs ++ (a ∷ ys)) n ≡ some a
  get_elem?-at [] ys a zero h = refl
  get_elem?-at [] ys a (suc n) h = absurd (omega arith)
  get_elem?-at (x ∷ xs) ys a zero h = absurd (omega arith)
  get_elem?-at (x ∷ xs) ys a (suc n) h = get_elem?-at xs ys a n (omega arith)

  set_at :
      (xs ys : List A) (a b : A) (n : ℕ) → length xs ≡ n → set (xs ++ (a ∷ ys)) n b ≡ xs ++ (b ∷ ys)
  set_at [] ys a b zero h = refl
  set_at [] ys a b (suc n) h = absurd (omega arith)
  set_at (x ∷ xs) ys a b zero h = absurd (omega arith)
  set_at (x ∷ xs) ys a b (suc n) h = ap (λ t. x ∷ t) (set_at xs ys a b n (omega arith))

  -- A swap of two elements of a list that is split at both.
  pub swap-split :
      (xs ys zs : List A) (a b : A) (i j : ℕ)
      → length xs ≡ i
      → length xs + 1 + length ys ≡ j
      → swap (xs ++ (a ∷ (ys ++ (b ∷ zs)))) i j ≡ some (xs ++ (b ∷ (ys ++ (a ∷ zs))))
  unfolding swap
  swap-split xs ys zs a b i j hi hj = ground (
    arith,
    get_elem?-at xs (ys ++ (b ∷ zs)) a i hi,
    second,
    set_at xs (ys ++ (b ∷ zs)) a b i hi,
    written,
  )
    where
      long : length (xs ++ (a ∷ ys)) ≡ j
      long = omega (arith, length-append xs (a ∷ ys))

      long' : length (xs ++ (b ∷ ys)) ≡ j
      long' = omega (arith, length-append xs (b ∷ ys))

      second : get_elem? (xs ++ (a ∷ (ys ++ (b ∷ zs)))) j ≡ some b
      second =
          ap (λ t. get_elem? t j) (sym (append_assoc xs (a ∷ ys) (b ∷ zs)))
          ∙ get_elem?-at (xs ++ (a ∷ ys)) zs b j long

      written : set (xs ++ (b ∷ (ys ++ (b ∷ zs)))) j a ≡ xs ++ (b ∷ (ys ++ (a ∷ zs)))
      written =
          ap (λ t. set t j a) (sym (append_assoc xs (b ∷ ys) (b ∷ zs)))
          ∙ set_at (xs ++ (b ∷ ys)) zs b a j long'
          ∙ append_assoc xs (b ∷ ys) (a ∷ zs)

  set_same : (xs : List A) (i : ℕ) (x : A) → get_elem? xs i ≡ some x → set (set xs i x) i x ≡ xs
  set_same [] i x h = refl
  set_same (y ∷ xs) zero x h = ap (λ t. t ∷ xs) (sym (some_inj h))
  set_same (y ∷ xs) (suc i) x h = ap (λ t. y ∷ t) (set_same xs i x h)

  pub swap_self : (xs : List A) (i : ℕ) → i < length xs → swap xs i i ≡ some xs
  unfolding swap
  swap_self xs i h = let (x, e) = get_elem?-in_range xs i h in ground (arith, e, set_same xs i x e)

  pub swap_rows_self :
      (n d a : ℕ) (xs : List A) → a + d + n ≤ length xs → swap_rows n d a a xs ≡ some xs
  unfolding swap_rows
  swap_rows_self zero d a xs h = refl
  swap_rows_self (suc n) d a xs h =
      ground
        (arith, swap_self xs (a + d) (omega arith), swap_rows_self n (d + 1) a xs (omega arith))

  regroup :
      (xs block ys block' zs : List A) (p q : A)
      → xs ++ (q ∷ (block ++ (ys ++ (p ∷ (block' ++ zs)))))
        ≡ (xs ++ (q ∷ [])) ++ (block ++ ((ys ++ (p ∷ [])) ++ (block' ++ zs)))
  regroup xs block ys block' zs p q = simp append_assoc

  first_swap :
      (xs block ys rest : List A) (p q : A) (i j : ℕ)
      → length xs ≡ i
      → length xs + 1 + (length block + length ys) ≡ j
      → swap (xs ++ (p ∷ (block ++ (ys ++ (q ∷ rest))))) i j
        ≡ some (xs ++ (q ∷ (block ++ (ys ++ (p ∷ rest)))))
  first_swap xs block ys rest p q i j hi hj =
      ap (λ t. swap (xs ++ (p ∷ t)) i j) (sym (append_assoc block ys (q ∷ rest)))
      ∙ swap-split xs (block ++ ys) rest p q i j hi (omega (arith, length-append block ys))
      ∙ ap (λ t. some (xs ++ (q ∷ t))) (append_assoc block ys (p ∷ rest))

  -- The loop swaps two blocks.
  pub swap_rows-split :
      (n d a b : ℕ) (xs block ys block' zs : List A)
      → length block ≡ n
      → length block' ≡ n
      → length xs ≡ a + d
      → length xs + n + length ys ≡ b + d
      → swap_rows n d a b (xs ++ (block ++ (ys ++ (block' ++ zs))))
        ≡ some (xs ++ (block' ++ (ys ++ (block ++ zs))))
  unfolding swap_rows
  swap_rows-split zero d a b xs [] ys [] zs h h' ha hb = refl
  swap_rows-split zero d a b xs (p ∷ block) ys block' zs h h' ha hb = absurd (omega arith)
  swap_rows-split zero d a b xs [] ys (q ∷ block') zs h h' ha hb = absurd (omega arith)
  swap_rows-split (suc n) d a b xs [] ys block' zs h h' ha hb = absurd (omega arith)
  swap_rows-split (suc n) d a b xs (p ∷ block) ys [] zs h h' ha hb = absurd (omega arith)
  swap_rows-split (suc n) d a b xs (p ∷ block) ys (q ∷ block') zs h h' ha hb =
      let swapped = first_swap xs block ys (block' ++ zs) p q (a + d) (b + d) ha (omega arith) in
      let ih =
        swap_rows-split n (d + 1) a b (xs ++ (q ∷ [])) block (ys ++ (p ∷ [])) block' zs
          (omega arith) (omega arith) (omega (arith, length-append xs (q ∷ [])))
          (omega (arith, length-append xs (q ∷ []), length-append ys (p ∷ []))) in
      rw (swapped, swap_rows)
        (ap (swap_rows n (d + 1) a b) (regroup xs block ys block' zs p q)
          ∙ ih
          ∙ ap some (sym (regroup xs block' ys block zs p q)))
