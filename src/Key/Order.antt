-- ===== src/Key/Order.antt =====
-- The order of internal keys is a total order, and sorted runs of entries.
use Prim.Native.Nat.Ordering.{lt, eq, gt}
use sift_core.Bytes.Order.{cmp_bytes_refl, eq_of_cmp_bytes, gt_of_lt, lt_of_gt, lt_trans}
use sift_core.Key.{InternalKey, cmp, Entry}
use sift_core.Prelude.{◌≡◌, List, [], ◌∷◌, arith, All, All-imp}

pub cmp_refl : (a : InternalKey) → cmp a a ≡ eq
unfolding cmp
cmp_refl a = ground (arith, cmp_bytes_refl a.user_key)

pub eq_of_cmp : (a b : InternalKey) → cmp a b ≡ eq → a ≡ b
unfolding cmp
eq_of_cmp a b h = ground (arith, eq_of_cmp_bytes a.user_key b.user_key)

pub cmp-gt_of_lt : (a b : InternalKey) → cmp a b ≡ lt → cmp b a ≡ gt
unfolding cmp
cmp-gt_of_lt a b h = ground (
  arith,
  gt_of_lt a.user_key b.user_key,
  eq_of_cmp_bytes a.user_key b.user_key,
  cmp_bytes_refl a.user_key,
)

pub cmp-lt_of_gt : (a b : InternalKey) → cmp a b ≡ gt → cmp b a ≡ lt
unfolding cmp
cmp-lt_of_gt a b h = ground (
  arith,
  lt_of_gt a.user_key b.user_key,
  eq_of_cmp_bytes a.user_key b.user_key,
  cmp_bytes_refl a.user_key,
)

pub cmp-lt_trans : (a b c : InternalKey) → cmp a b ≡ lt → cmp b c ≡ lt → cmp a c ≡ lt
unfolding cmp
cmp-lt_trans a b c h k = ground (
  arith,
  lt_trans a.user_key b.user_key c.user_key,
  eq_of_cmp_bytes a.user_key b.user_key,
  eq_of_cmp_bytes b.user_key c.user_key,
)

-- Every entry of the run lies behind the key.
abbrev pub Above : InternalKey → List Entry → Type 0
Above k es = All (λ (e : Entry). cmp k e.0 ≡ lt) es

-- The entries ascend strictly.
abbrev pub IsSorted : List Entry → Type 0
IsSorted [] = Unit
IsSorted (e ∷ es) = Above e.0 es × IsSorted es

pub Above-trans : (a b : InternalKey) (es : List Entry) → cmp a b ≡ lt → Above b es → Above a es
Above-trans a b es h above = All-imp (λ e k. cmp-lt_trans a b e.0 h k) es above
