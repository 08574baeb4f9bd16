-- ===== src/Key/Snapshot.antt =====
-- What a snapshot read means for a run of versions, apart from how any component finds it.
use Prim.Native.Nat.Ordering.{lt, gt}
use sift_core.Bytes.{Bytes, bytes_eq, cmp_bytes}
use sift_core.Bytes.Order.{cmp_bytes_refl, eq_of_bytes_eq, eq_of_cmp_bytes, gt_of_lt}
use sift_core.Key.{Seq, Value, cmp, Entry, InternalKey}
use sift_core.Key.Order.{IsSorted, Above}
use sift_core.Prelude.{
  ◌≤◌, ◌≡◌, refl, ap, inl, inr, Bool, true, false, ◌&&◌, Option, none, some, List, [], ◌∷◌, ◌++◌,
  arith, leb, if◌then◌else◌, Bool-cases, All, All-imp,
}

-- The entry is a version of the key that the snapshot sees.
unfoldable pub is_visible : Bytes → Seq → Entry → Bool
is_visible key as_of e = bytes_eq e.0.user_key key && leb e.0.seq as_of

-- The first visible version of a run.
unfoldable pub find_visible : Bytes → Seq → List Entry → Option Value
find_visible key as_of [] = none
find_visible key as_of (e ∷ es) =
    if is_visible key as_of e then some e.1 else find_visible key as_of es

-- `v` is the newest version of the key with a sequence number of at most `as_of`, or there is none.
pub data IsNewest (key : Bytes) (as_of : Seq) (es : List Entry) : Option Value → Type 0 where
  absent : All (λ (e : Entry). is_visible key as_of e ≡ false) es → IsNewest key as_of es none
  present :
      (front back : List Entry) (e : Entry)
      → es ≡ front ++ (e ∷ back)
      → is_visible key as_of e ≡ true
      → All (λ (x : Entry). is_visible key as_of x ≡ true → x.0.seq ≤ e.0.seq) es
      → IsNewest key as_of es (some e.1)

-- Behind a version of a key all versions of that key are older.
pub older_behind :
    (key : Bytes) (as_of : Seq) (e x : Entry)
    → is_visible key as_of e ≡ true
    → cmp e.0 x.0 ≡ lt
    → is_visible key as_of x ≡ true
    → x.0.seq ≤ e.0.seq
unfolding is_visible cmp
older_behind key as_of e x he h hx =
    ground
      (arith, eq_of_bytes_eq e.0.user_key key, eq_of_bytes_eq x.0.user_key key, cmp_bytes_refl key)

-- In a sorted run the first visible version is the newest one.
pub find_visible-IsNewest :
    (key : Bytes) (as_of : Seq) (es : List Entry)
    → IsSorted es
    → IsNewest key as_of es (find_visible key as_of es)
unfolding find_visible
find_visible-IsNewest key as_of [] h = absent tt
find_visible-IsNewest key as_of (e ∷ es) h = elim (Bool-cases (is_visible key as_of e)) [
  | inl yes_ ↦ rw yes_ (
      present [] es e refl yes_
        ((λ _. omega arith), All-imp (λ x lt_ hx. older_behind key as_of e x yes_ lt_ hx) es h.0))
  | inr no_ ↦ rw no_ (extend e no_ (find_visible-IsNewest key as_of es h.1))
]
  where
    extend :
        (e : Entry)
        → is_visible key as_of e ≡ false
        → {o : Option Value} → IsNewest key as_of es o
        → IsNewest key as_of (e ∷ es) o
    extend e no_ (absent a) = absent (no_, a)
    extend e no_ (present front back x p v a) =
        present (e ∷ front) back x (ap (λ t. e ∷ t) p) v ((λ hx. cc), a)

-- Behind the versions of a key there are no more of them.
pub find_visible-past :
    (key : Bytes) (as_of : Seq) (a : InternalKey) (es : List Entry)
    → cmp_bytes a.user_key key ≡ gt
    → Above a es
    → find_visible key as_of es ≡ none
unfolding find_visible is_visible cmp
find_visible-past key as_of a [] h above = refl
find_visible-past key as_of a (e ∷ es) h above = ground (
  arith,
  find_visible-past key as_of a es h above.1,
  eq_of_bytes_eq e.0.user_key key,
  gt_of_lt a.user_key e.0.user_key,
  eq_of_cmp_bytes a.user_key e.0.user_key,
  gt_of_lt a.user_key key,
  above.0,
)
