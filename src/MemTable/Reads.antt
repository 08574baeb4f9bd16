-- ===== src/MemTable/Reads.antt =====
-- The table stays sorted, and `get` finds the newest visible version.
use sift_core.MemTable.{put, delete, range, get, new}
use Prim.Native.Nat.Ordering.{lt}
use sift_core.Bytes.{Bytes, IsU64, cmp_bytes, bytes_eq}
use sift_core.Bytes.Order.{eq_of_cmp_bytes, lt_trans}
use sift_core.Key.{Seq, InternalKey, Value, cmp, Entry, max_seq}
use sift_core.Key.Order.{cmp-lt_of_gt, Above, IsSorted, Above-trans}
use sift_core.Key.Snapshot.{is_visible, find_visible, find_visible-past}
use sift_core.MemTable.{MemTable, insert, take_key, find_seq}
use sift_core.Prelude.{
  ◌+◌, ◌*◌, ◌≤◌, ◌≡◌, refl, List, [], ◌∷◌, arith, length, All, sym, ◌∙◌, inl, inr, Ordering-cases,
}

-- Sequence numbers are 64-bit words.
abbrev pub SeqFits : List Entry → Type 0
SeqFits es = All (λ (e : Entry). IsU64 e.0.seq) es

-- The entries are in order, and the size estimate counts every one of them.
pub record IsValid (m : MemTable) : Type 0 where
  pub sorted : IsSorted m.entries
  pub fits : SeqFits m.entries
  pub counted : 24 * length m.entries ≤ m.approx_bytes

pub new-IsValid : IsValid new
unfolding new
new-IsValid = record { sorted = tt; fits = tt; counted = omega arith }

Above-insert :
    (a k : InternalKey) (v : Value) (es : List Entry)
    → cmp a k ≡ lt
    → Above a es
    → Above a (insert k v es)
unfolding insert
Above-insert a k v [] h above = (h, tt)
Above-insert a k v (e ∷ es) h above = ground (arith, Above-insert a k v es)

insert-IsSorted :
    (k : InternalKey) (v : Value) (es : List Entry) → IsSorted es → IsSorted (insert k v es)
unfolding insert
insert-IsSorted k v [] h = (tt, tt)
insert-IsSorted k v (e ∷ es) h = ground (
  arith,
  insert-IsSorted k v es,
  Above-trans k e.0 es,
  Above-insert e.0 k v es,
  cmp-lt_of_gt k e.0,
)

insert-SeqFits :
    (k : InternalKey) (v : Value) (es : List Entry)
    → IsU64 k.seq
    → SeqFits es
    → SeqFits (insert k v es)
unfolding insert
insert-SeqFits k v [] h fits = (h, tt)
insert-SeqFits k v (e ∷ es) h fits = ground (arith, insert-SeqFits k v es)

length-insert :
    (k : InternalKey) (v : Value) (es : List Entry) → length (insert k v es) ≤ length es + 1
unfolding insert
length-insert k v [] = omega arith
length-insert k v (e ∷ es) = ground (arith, length-insert k v es)

-- A put and a delete with a 64-bit sequence number keep a valid table valid.
pub write-IsValid :
    (m : MemTable) (key val : Bytes) (seq : Seq)
    → IsU64 seq
    → IsValid m
    → IsValid (put m key val seq) × IsValid (delete m key seq)
unfolding put delete
write-IsValid m key val seq h valid = (
  record {
    sorted = insert-IsSorted _ _ m.entries valid.sorted;
    fits = insert-SeqFits _ _ m.entries h valid.fits;
    counted = omega (
      arith,
      length-insert (record { user_key = key; seq = seq }) (Value.put val) m.entries,
      valid.counted,
    );
  },
  record {
    sorted = insert-IsSorted _ _ m.entries valid.sorted;
    fits = insert-SeqFits _ _ m.entries h valid.fits;
    counted = omega (
      arith,
      length-insert (record { user_key = key; seq = seq }) Value.delete m.entries,
      valid.counted,
    );
  },
)

find_seq-take_key :
    (key : Bytes) (as_of : Seq) (es : List Entry)
    → IsSorted es
    → All (λ (e : Entry). (cmp_bytes e.0.user_key key ≡ lt) → ⊥) es
    → find_seq as_of (take_key key es) ≡ find_visible key as_of es
unfolding find_seq take_key find_visible is_visible bytes_eq
find_seq-take_key key as_of [] h ge = refl
find_seq-take_key key as_of (e ∷ es) h ge =
    ground (arith, find_seq-take_key key as_of es h.1 ge.1, find_visible-past key as_of e.0 es)

-- What lies behind an entry that is not below the key is not below it either.
not_below :
    (key : Bytes) (a : InternalKey) (es : List Entry)
    → ((cmp_bytes a.user_key key ≡ lt) → ⊥)
    → Above a es
    → All (λ (e : Entry). (cmp_bytes e.0.user_key key ≡ lt) → ⊥) es
unfolding cmp
not_below key a [] h above = tt
not_below key a (e ∷ es) h above = (
  λ p. ground (
    arith,
    h,
    above.0,
    eq_of_cmp_bytes a.user_key e.0.user_key,
    lt_trans a.user_key e.0.user_key key,
  ),
  not_below key a es h above.1,
)

find_seq-range :
    (key : Bytes) (as_of : Seq) (es : List Entry)
    → IsSorted es
    → SeqFits es
    → find_seq as_of (take_key key (range (record { user_key = key; seq = max_seq }) es))
      ≡ find_visible key as_of es
unfolding range
find_seq-range key as_of [] h fits = unfold find_seq take_key find_visible in refl
find_seq-range key as_of (e ∷ es) h fits = elim (Ordering-cases (cmp e.0 start)) [
  | inl below ↦ rw (below, range) (find_seq-range key as_of es h.1 fits.1 ∙ sym (skip below))
  | inr other ↦ ground (arith, other, keep (not_start other))
]
  where
    start : InternalKey
    start = record { user_key = key; seq = max_seq }

    skip : cmp e.0 start ≡ lt → find_visible key as_of (e ∷ es) ≡ find_visible key as_of es
    skip below = unfold find_visible is_visible cmp bytes_eq in ground (arith, below, fits.0)

    not_start : ((cmp e.0 start ≡ lt) → ⊥) → (cmp_bytes e.0.user_key key ≡ lt) → ⊥
    not_start other p = other (unfold cmp in ground (arith, p))

    keep :
        ((cmp_bytes e.0.user_key key ≡ lt) → ⊥)
        → find_seq as_of (take_key key (e ∷ es)) ≡ find_visible key as_of (e ∷ es)
    keep ge = find_seq-take_key key as_of (e ∷ es) h (ge, not_below key e.0 es ge h.0)

-- In a valid table the range scan finds what the plain search through all entries finds.
pub get-eq-find_visible :
    (m : MemTable) (key : Bytes) (as_of : Seq)
    → IsValid m
    → get m key as_of ≡ find_visible key as_of m.entries
unfolding get
get-eq-find_visible m key as_of valid = find_seq-range key as_of m.entries valid.sorted valid.fits
