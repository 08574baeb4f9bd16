-- ===== src/Bytes/Order.antt =====
-- The lexicographic order of byte strings is a total order.
use Prim.Native.Nat.Ordering.{lt, eq, gt}
use sift_core.Prelude.{◌≡◌, refl, arith, [], ◌∷◌, true}
use sift_core.Bytes.Defs.{Bytes, cmp_bytes, bytes_eq}

pub cmp_bytes_refl : (a : Bytes) → cmp_bytes a a ≡ eq
unfolding cmp_bytes
cmp_bytes_refl [] = refl
cmp_bytes_refl (x ∷ a) = ground (arith, cmp_bytes_refl a)

pub eq_of_cmp_bytes : (a b : Bytes) → cmp_bytes a b ≡ eq → a ≡ b
unfolding cmp_bytes
eq_of_cmp_bytes [] [] h = refl
eq_of_cmp_bytes [] (y ∷ b) h = cc
eq_of_cmp_bytes (x ∷ a) [] h = cc
eq_of_cmp_bytes (x ∷ a) (y ∷ b) h = ground (arith, eq_of_cmp_bytes a b)

pub gt_of_lt : (a b : Bytes) → cmp_bytes a b ≡ lt → cmp_bytes b a ≡ gt
unfolding cmp_bytes
gt_of_lt [] [] h = cc
gt_of_lt [] (y ∷ b) h = refl
gt_of_lt (x ∷ a) [] h = cc
gt_of_lt (x ∷ a) (y ∷ b) h = ground (arith, gt_of_lt a b)

pub lt_of_gt : (a b : Bytes) → cmp_bytes a b ≡ gt → cmp_bytes b a ≡ lt
unfolding cmp_bytes
lt_of_gt [] [] h = cc
lt_of_gt [] (y ∷ b) h = cc
lt_of_gt (x ∷ a) [] h = refl
lt_of_gt (x ∷ a) (y ∷ b) h = ground (arith, lt_of_gt a b)

pub lt_trans : (a b c : Bytes) → cmp_bytes a b ≡ lt → cmp_bytes b c ≡ lt → cmp_bytes a c ≡ lt
unfolding cmp_bytes
lt_trans [] [] c h k = cc
lt_trans [] (y ∷ b) [] h k = cc
lt_trans [] (y ∷ b) (z ∷ c) h k = refl
lt_trans (x ∷ a) [] c h k = cc
lt_trans (x ∷ a) (y ∷ b) [] h k = cc
lt_trans (x ∷ a) (y ∷ b) (z ∷ c) h k = ground (arith, lt_trans a b c)

pub bytes_eq_refl : (a : Bytes) → bytes_eq a a ≡ true
unfolding bytes_eq
bytes_eq_refl a = ground (arith, cmp_bytes_refl a)

pub eq_of_bytes_eq : (a b : Bytes) → bytes_eq a b ≡ true → a ≡ b
unfolding bytes_eq
eq_of_bytes_eq a b h = eq_of_cmp_bytes a b (ground arith)
