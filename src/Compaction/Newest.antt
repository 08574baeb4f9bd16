-- ===== src/Compaction/Newest.antt =====
-- Runs that are ordered by age: the first that has a version of a key has the newest one.
use mathlib.Core.List.{Mem, mem-cons_self, mem-cons_of_mem}
use Prim.Native.Nat.Ordering.{lt}
use sift_core.Bytes.{Bytes, bytes_eq}
use sift_core.Bytes.Order.{cmp_bytes_refl, bytes_eq_refl, eq_of_bytes_eq}
use sift_core.Compaction.Least.{NotAfter}
use sift_core.Compaction.Stored.{flat}
use sift_core.Key.{Seq, Value, cmp, Entry}
use sift_core.Key.Order.{IsSorted}
use sift_core.Key.Snapshot.{is_visible, find_visible}
use sift_core.Prelude.{
  ◌≤◌, ◌<◌, ◌≡◌, refl, inl, inr, true, false, Option, none, some, List, [], ◌∷◌, arith, Bool-cases,
  All, All-imp,
}

-- `x` is newer than `y`, or they are one write.
abbrev pub Supersedes : Entry → Entry → Type 0
Supersedes x y = (y.0.seq ≤ x.0.seq) × (y.0.seq ≡ x.0.seq → y.1 ≡ x.1)

-- Every version of a key in a run supersedes those of the later runs.
abbrev pub NewestFirst : List (List Entry) → Type 0
NewestFirst [] = Unit
NewestFirst (es ∷ runs) =
    All
      (λ (x : Entry).
        All (λ (y : Entry). bytes_eq x.0.user_key y.0.user_key ≡ true → Supersedes x y) (flat runs))
      es
    × NewestFirst runs

-- The first answer of the runs.
abbrev pub first_found : Bytes → Seq → List (List Entry) → Option Value
first_found key as_of [] = none
first_found key as_of (es ∷ runs) = elim (find_visible key as_of es) [
  | none ↦ first_found key as_of runs
  | some v ↦ some v
]

-- `e` is visible and supersedes whatever else is.
pub record IsBest (key : Bytes) (as_of : Seq) (e : Entry) (es : List Entry) : Type 1 where
  pub mem : Mem e es
  pub holds : (P : Entry → Type 0) → All P es → P e
  pub visible : is_visible key as_of e ≡ true
  pub best : All (λ (x : Entry). is_visible key as_of x ≡ true → Supersedes e x) es

-- What a search finds: a best entry, or nothing where nothing is visible.
pub data Finds (key : Bytes) (as_of : Seq) (es : List Entry) : Option Value → Type 1 where
  nothing : All (λ (x : Entry). is_visible key as_of x ≡ false) es → Finds key as_of es none
  best_of : (e : Entry) → IsBest key as_of e es → Finds key as_of es (some e.1)

newer_than :
    (key : Bytes) (as_of : Seq) (e x : Entry)
    → is_visible key as_of e ≡ true
    → cmp e.0 x.0 ≡ lt
    → is_visible key as_of x ≡ true
    → x.0.seq < e.0.seq
unfolding is_visible cmp
newer_than key as_of e x he h hx =
    ground
      (arith, eq_of_bytes_eq e.0.user_key key, eq_of_bytes_eq x.0.user_key key, cmp_bytes_refl key)

pub not_older :
    (key : Bytes) (as_of : Seq) (e x : Entry)
    → is_visible key as_of e ≡ true
    → NotAfter e.0 x.0
    → is_visible key as_of x ≡ true
    → x.0.seq ≤ e.0.seq
unfolding is_visible cmp
not_older key as_of e x he h hx =
    ground (
      arith,
      h,
      eq_of_bytes_eq e.0.user_key key,
      eq_of_bytes_eq x.0.user_key key,
      cmp_bytes_refl key,
    )

pub same_key :
    (key : Bytes) (as_of : Seq) (e x : Entry)
    → is_visible key as_of e ≡ true
    → is_visible key as_of x ≡ true
    → bytes_eq e.0.user_key x.0.user_key ≡ true
unfolding is_visible
same_key key as_of e x he hx =
    ground
      (arith, eq_of_bytes_eq e.0.user_key key, eq_of_bytes_eq x.0.user_key key, bytes_eq_refl key)

-- One sorted run.
pub find_visible-Finds :
    (key : Bytes) (as_of : Seq) (es : List Entry)
    → IsSorted es
    → Finds key as_of es (find_visible key as_of es)
unfolding find_visible
find_visible-Finds key as_of [] sorted = nothing tt
find_visible-Finds key as_of (e ∷ es) sorted = elim (Bool-cases (is_visible key as_of e)) [
  | inl yes_ ↦ rw yes_ (
      best_of e (record {
        mem = mem-cons_self;
        holds = λ P a. a.0;
        visible = yes_;
        best = (
          (λ _. (omega arith, λ _. refl)),
          All-imp
              (λ x behind hx.
                let newer = newer_than key as_of e x yes_ behind hx in
                (omega arith, λ same. absurd (omega arith)))
              es sorted.0,
        );
      }))
  | inr no_ ↦ rw no_ (behind e no_ (find_visible-Finds key as_of es sorted.1))
]
  where
    behind :
        (e : Entry)
        → is_visible key as_of e ≡ false
        → {o : Option Value} → Finds key as_of es o
        → Finds key as_of (e ∷ es) o
    behind e no_ (nothing a) = nothing (no_, a)
    behind e no_ (best_of x b) = best_of x (record {
      mem = mem-cons_of_mem e b.mem;
      holds = λ P a. b.holds P a.1;
      visible = b.visible;
      best = ((λ h. cc), b.best);
    })
