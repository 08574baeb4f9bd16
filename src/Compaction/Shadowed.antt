-- ===== src/Compaction/Shadowed.antt =====
-- src/compaction.rs: what of a run in merge order survives the compaction.
use Prim.Native.Nat.Ordering.{lt, gt}
use sift_core.Bytes.{Bytes, cmp_bytes, bytes_eq}
use sift_core.Bytes.Order.{lt_trans}
use sift_core.Compaction.{is_newest_for_key}
use sift_core.Compaction.Least.{NotAfter}
use sift_core.Compaction.Surviving.{is_written, surviving, Ascending}
use sift_core.Key.{InternalKey, cmp, Entry}
use sift_core.Key.Order.{IsSorted}
use sift_core.Prelude.{
  ◌≡◌, subst, sym, ◌≢◌, ◌⊎◌, inl, inr, Bool, true, false, Option, some, List, [], ◌∷◌, arith,
  if◌then◌else◌, Bool-cases, All, All-imp,
}

-- Every key of the run lies behind `key`.
abbrev pub KeysPast : Bytes → List Entry → Type 0
KeysPast key es = All (λ (x : Entry). cmp_bytes key x.0.user_key ≡ lt) es

key-NotAfter : (a b : InternalKey) → NotAfter a b → cmp_bytes a.user_key b.user_key ≢ gt
unfolding cmp
key-NotAfter a b h e = ground (arith, h, e)

newest_cases :
    (key : Bytes) (e : Entry)
    → cmp_bytes key e.0.user_key ≢ gt
    → (is_newest_for_key (some key) e.0.user_key ≡ false)
      ⊎ ((is_newest_for_key (some key) e.0.user_key ≡ true) × (cmp_bytes key e.0.user_key ≡ lt))
unfolding is_newest_for_key bytes_eq
newest_cases key e h = ground (arith, h)

-- The head of the run is shadowed, written, or a tombstone that is dropped.
pub surviving-shadowed :
    (is_last_level : Bool) (prev : Option Bytes) (e : Entry) (es : List Entry)
    → is_newest_for_key prev e.0.user_key ≡ false
    → surviving is_last_level prev (e ∷ es) ≡ surviving is_last_level prev es
unfolding surviving
surviving-shadowed is_last_level prev e es h = ground (arith, h)

pub surviving-newest :
    (is_last_level : Bool) (prev : Option Bytes) (e : Entry) (es : List Entry)
    → is_newest_for_key prev e.0.user_key ≡ true
    → surviving is_last_level prev (e ∷ es) ≡ (
        if is_written is_last_level e.1
        then e ∷ surviving is_last_level (some e.0.user_key) es
        else surviving is_last_level (some e.0.user_key) es)
unfolding surviving
surviving-newest is_last_level prev e es h = ground (arith, h)

All-if {κ} :
    (P : Entry → Type κ) (c : Bool) (e : Entry) (es : List Entry)
    → P e
    → All P es
    → All P (if c then e ∷ es else es)
All-if P true e es p a = (p, a)
All-if P false e es p a = a

pub All-surviving {κ} :
    (P : Entry → Type κ) (is_last_level : Bool) (prev : Option Bytes) (es : List Entry)
    → All P es
    → All P (surviving is_last_level prev es)
All-surviving P is_last_level prev [] a = unfold surviving in tt
All-surviving P is_last_level prev (e ∷ es) a =
    elim (Bool-cases (is_newest_for_key prev e.0.user_key)) [
      | inl newest ↦
          subst (All P) (sym (surviving-newest is_last_level prev e es newest))
            (All-if P _ e _ a.0 (All-surviving P is_last_level (some e.0.user_key) es a.1))
      | inr shadowed ↦
          subst (All P) (sym (surviving-shadowed is_last_level prev e es shadowed))
            (All-surviving P is_last_level prev es a.1)
    ]

-- Behind an entry of a key, only later keys survive.
surviving-KeysPast :
    (is_last_level : Bool) (key : Bytes) (es : List Entry)
    → Ascending es
    → All (λ (x : Entry). cmp_bytes key x.0.user_key ≢ gt) es
    → KeysPast key (surviving is_last_level (some key) es)
surviving-KeysPast is_last_level key [] up h = unfold surviving in tt
surviving-KeysPast is_last_level key (e ∷ es) up h = elim (newest_cases key e h.0) [
  | inl shadowed ↦
      subst (KeysPast key) (sym (surviving-shadowed is_last_level (some key) e es shadowed))
        (surviving-KeysPast is_last_level key es up.1 h.1)
  | inr (newest, past) ↦
      subst (KeysPast key) (sym (surviving-newest is_last_level (some key) e es newest)) (
        All-if _ (is_written is_last_level e.1) e _ past (
          All-imp (λ x later. lt_trans key e.0.user_key x.0.user_key past later)
            (surviving is_last_level (some e.0.user_key) es)
            (surviving-KeysPast is_last_level e.0.user_key es up.1
              (All-imp (λ x k. key-NotAfter e.0 x.0 k) es up.0))))
]

pub later-KeysPast :
    (is_last_level : Bool) (e : Entry) (es : List Entry)
    → Ascending (e ∷ es)
    → KeysPast e.0.user_key (surviving is_last_level (some e.0.user_key) es)
later-KeysPast is_last_level e es up =
    surviving-KeysPast is_last_level e.0.user_key es up.1
      (All-imp (λ x k. key-NotAfter e.0 x.0 k) es up.0)

cmp-of_key : (a b : InternalKey) → cmp_bytes a.user_key b.user_key ≡ lt → cmp a b ≡ lt
unfolding cmp
cmp-of_key a b h = ground (arith, h)

-- What survives of a run in merge order ascends strictly.
pub surviving-IsSorted :
    (is_last_level : Bool) (prev : Option Bytes) (es : List Entry)
    → Ascending es
    → IsSorted (surviving is_last_level prev es)
surviving-IsSorted is_last_level prev [] up = unfold surviving in tt
surviving-IsSorted is_last_level prev (e ∷ es) up =
    let later = surviving-IsSorted is_last_level (some e.0.user_key) es up.1 in
    elim (Bool-cases (is_newest_for_key prev e.0.user_key)) [
      | inr shadowed ↦
          subst IsSorted (sym (surviving-shadowed is_last_level prev e es shadowed))
            (surviving-IsSorted is_last_level prev es up.1)
      | inl newest ↦
          subst IsSorted (sym (surviving-newest is_last_level prev e es newest))
            (elim (is_written is_last_level e.1)
              as (λ c. IsSorted (
                if c
                then e ∷ surviving is_last_level (some e.0.user_key) es
                else surviving is_last_level (some e.0.user_key) es)) [
                  | true ↦ (
                    All-imp (λ x past. cmp-of_key e.0 x.0 past)
                        (surviving is_last_level (some e.0.user_key) es)
                        (later-KeysPast is_last_level e es up),
                    later,
                  )
                  | false ↦ later
                ])
    ]
