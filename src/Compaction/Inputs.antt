-- ===== src/Compaction/Inputs.antt =====
-- src/compaction.rs: the inputs of a merge, between its heap, its buffer and its iterators.
use mathlib.Core.List.{Mem, Perm}
use mathlib.Core.List.Perm as Perm
use sift_core.Compaction.{HeapItem}
use sift_core.Key.{Value, Entry, InternalKey}
use sift_core.Prelude.{
  ℕ, zero, suc, ◌+◌, ◌≡◌, refl, subst, sym, ap, Option, none, some, List, [], ◌∷◌, ◌++◌, some_inj,
  get_elem?, set, arith, All, All-Mem,
}
use sift_core.Sstable.Iter.{SstableIter}
use sift_core.Sstable.Scan.{Yields}

-- What an input has left. The first entry of a `loaded` one stands in the heap and in the buffer.
pub data Input : Type 0 where
  waiting : List Entry → Input
  loaded : List Entry → Input

abbrev pub run_of : Input → List Entry
run_of (waiting es) = es
run_of (loaded es) = es

abbrev pub entries : List Input → List Entry
entries [] = []
entries (q ∷ qs) = run_of q ++ entries qs

-- The items that the heap has of the inputs from number `i` on.
abbrev pub heads : ℕ → List Input → List HeapItem
heads i [] = []
heads i (waiting es ∷ qs) = heads (i + 1) qs
heads i (loaded [] ∷ qs) = heads (i + 1) qs
heads i (loaded (e ∷ es) ∷ qs) = (e.0, i) ∷ heads (i + 1) qs

-- The buffer and the iterator of one input.
abbrev pub Slot : Option Value → SstableIter → Input → Type 0
Slot v it (waiting es) = (v ≡ none) × Yields it es
Slot v it (loaded []) = (v ≡ none) × Yields it []
Slot v it (loaded (e ∷ es)) = (v ≡ some e.1) × Yields it es

abbrev pub Slots : List (Option Value) → List SstableIter → List Input → Type 0
Slots [] [] [] = Unit
Slots (v ∷ vs) (it ∷ its) (q ∷ qs) = Slot v it q × Slots vs its qs
Slots _ _ _ = ⊥

pub Slots-get :
    (vs : List (Option Value)) (its : List SstableIter) (qs : List Input) (i : ℕ) (q : Input)
    → Slots vs its qs
    → get_elem? qs i ≡ some q
    → (v : Option Value) × (it : SstableIter) × (get_elem? vs i ≡ some v)
      × (get_elem? its i ≡ some it)
      × Slot v it q
Slots-get [] [] [] i q s h = absurd (cc)
Slots-get [] [] (q' ∷ qs) i q s h = elim s [ ]
Slots-get [] (it ∷ its) qs i q s h = elim s [ ]
Slots-get (v ∷ vs) [] qs i q s h = elim s [ ]
Slots-get (v ∷ vs) (it ∷ its) [] i q s h = elim s [ ]
Slots-get (v ∷ vs) (it ∷ its) (q' ∷ qs) zero q s h =
    (v, it, refl, refl, subst (Slot v it) (some_inj h) s.0)
Slots-get (v ∷ vs) (it ∷ its) (q' ∷ qs) (suc i) q s h = Slots-get vs its qs i q s.1 h

pub Slots-set :
    (vs : List (Option Value)) (its : List SstableIter) (qs : List Input) (i : ℕ) (v : Option Value)
    (it : SstableIter) (q : Input)
    → Slots vs its qs
    → Slot v it q
    → Slots (set vs i v) (set its i it) (set qs i q)
Slots-set [] [] [] i v it q s now = tt
Slots-set [] [] (q' ∷ qs) i v it q s now = elim s [ ]
Slots-set [] (it' ∷ its) qs i v it q s now = elim s [ ]
Slots-set (v' ∷ vs) [] qs i v it q s now = elim s [ ]
Slots-set (v' ∷ vs) (it' ∷ its) [] i v it q s now = elim s [ ]
Slots-set (v' ∷ vs) (it' ∷ its) (q' ∷ qs) zero v it q s now = (now, s.1)
Slots-set (v' ∷ vs) (it' ∷ its) (q' ∷ qs) (suc i) v it q s now =
    (s.0, Slots-set vs its qs i v it q s.1 now)

pub set-get_elem? {ℓ} :
    {A : Type ℓ} (xs : List A) (i : ℕ) {x : A} → get_elem? xs i ≡ some x → set xs i x ≡ xs
set-get_elem? [] i h = refl
set-get_elem? (y ∷ ys) zero h = ap (λ t. t ∷ ys) (sym (some_inj h))
set-get_elem? (y ∷ ys) (suc i) h = ap (λ t. y ∷ t) (set-get_elem? ys i h)

-- The key that an input has in the heap.
abbrev head_key : Input → Option InternalKey
head_key (waiting es) = none
head_key (loaded []) = none
head_key (loaded (e ∷ es)) = some e.0

abbrev key_at : List Input → ℕ → Option InternalKey
key_at [] i = none
key_at (q ∷ qs) zero = head_key q
key_at (q ∷ qs) (suc i) = key_at qs i

heads-All :
    (P : HeapItem → Type 0) (j : ℕ) (qs : List Input)
    → ((i n : ℕ) (k : InternalKey) → n ≡ j + i → key_at qs i ≡ some k → P (k, n))
    → All P (heads j qs)
heads-All P j [] h = tt
heads-All P j (waiting es ∷ qs) h = heads-All P (j + 1) qs (λ i n k at. h (suc i) n k (omega arith))
heads-All P j (loaded [] ∷ qs) h = heads-All P (j + 1) qs (λ i n k at. h (suc i) n k (omega arith))
heads-All P j (loaded (e ∷ es) ∷ qs) h =
    (h 0 j e.0 (omega arith) refl, heads-All P (j + 1) qs (λ i n k at. h (suc i) n k (omega arith)))

keys-IsSet : IsSet (Option InternalKey)
keys-IsSet = hlevel

-- An input that has the key in the heap is loaded, and the key is that of its first entry.
head_entry :
    (qs : List Input) (i : ℕ) (k : InternalKey)
    → key_at qs i ≡ some k
    → (e : Entry) × (es : List Entry) × (k ≡ e.0) × (get_elem? qs i ≡ some (loaded (e ∷ es)))
head_entry [] i k h = absurd (cc)
head_entry (waiting es ∷ qs) zero k h = absurd (cc)
head_entry (loaded [] ∷ qs) zero k h = absurd (cc)
head_entry (loaded (e ∷ es) ∷ qs) zero k h = (e, es, sym (some_inj h), refl)
head_entry (q ∷ qs) (suc i) k h = head_entry qs i k h

-- An item of the heap is the head of its input.
pub heads-Mem :
    (qs : List Input) (item : HeapItem)
    → Mem item (heads 0 qs)
    → (e : Entry) × (es : List Entry) × (item.0 ≡ e.0)
      × (get_elem? qs item.1 ≡ some (loaded (e ∷ es)))
heads-Mem qs item m = head_entry qs item.1 item.0 (
    All-Mem (λ (x : HeapItem). key_at qs x.1 ≡ some x.0) (λ x. keys-IsSet _ _) (heads 0 qs) item
      (heads-All _ 0 qs (λ i n k at h. subst (λ t. key_at qs t ≡ some k) (omega arith) h)) m)

-- The items without the one that is taken.
pub heads-waiting :
    (j : ℕ) (qs : List Input) (i n : ℕ) (e : Entry) (es : List Entry)
    → n ≡ j + i
    → get_elem? qs i ≡ some (loaded (e ∷ es))
    → Perm (heads j qs) ((e.0, n) ∷ heads j (set qs i (waiting es)))
heads-waiting j [] i n e es at h = absurd (cc)
heads-waiting j (q ∷ qs) zero n e es at h =
    subst (λ x. Perm (heads j (x ∷ qs)) ((e.0, n) ∷ heads (j + 1) qs)) (sym (some_inj h))
      (Perm.cons' (ap (λ t. (e.0, t)) (omega arith)) (Perm.refl _))
heads-waiting j (waiting xs ∷ qs) (suc i) n e es at h =
    heads-waiting (j + 1) qs i n e es (omega arith) h
heads-waiting j (loaded [] ∷ qs) (suc i) n e es at h =
    heads-waiting (j + 1) qs i n e es (omega arith) h
heads-waiting j (loaded (x ∷ xs) ∷ qs) (suc i) n e es at h =
    Perm.trans (Perm.cons (x.0, j) (heads-waiting (j + 1) qs i n e es (omega arith) h))
      (Perm.swap (e.0, n) (x.0, j) _)

pub heads-loaded :
    (j : ℕ) (qs : List Input) (i n : ℕ) (e : Entry) (es : List Entry)
    → n ≡ j + i
    → get_elem? qs i ≡ some (waiting (e ∷ es))
    → Perm ((e.0, n) ∷ heads j qs) (heads j (set qs i (loaded (e ∷ es))))
heads-loaded j [] i n e es at h = absurd (cc)
heads-loaded j (q ∷ qs) zero n e es at h =
    subst (λ x. Perm ((e.0, n) ∷ heads j (x ∷ qs)) ((e.0, j) ∷ heads (j + 1) qs)) (sym (some_inj h))
      (Perm.cons' (ap (λ t. (e.0, t)) (omega arith)) (Perm.refl _))
heads-loaded j (waiting xs ∷ qs) (suc i) n e es at h =
    heads-loaded (j + 1) qs i n e es (omega arith) h
heads-loaded j (loaded [] ∷ qs) (suc i) n e es at h =
    heads-loaded (j + 1) qs i n e es (omega arith) h
heads-loaded j (loaded (x ∷ xs) ∷ qs) (suc i) n e es at h =
    Perm.trans (Perm.swap (x.0, j) (e.0, n) _)
      (Perm.cons (x.0, j) (heads-loaded (j + 1) qs i n e es (omega arith) h))

-- An input without entries left adds nothing to the heap.
pub heads-loaded_none :
    (j : ℕ) (qs : List Input) (i : ℕ)
    → get_elem? qs i ≡ some (waiting [])
    → heads j (set qs i (loaded [])) ≡ heads j qs
heads-loaded_none j [] i h = refl
heads-loaded_none j (q ∷ qs) zero h =
    subst (λ x. heads (j + 1) qs ≡ heads j (x ∷ qs)) (sym (some_inj h)) refl
heads-loaded_none j (waiting xs ∷ qs) (suc i) h = heads-loaded_none (j + 1) qs i h
heads-loaded_none j (loaded [] ∷ qs) (suc i) h = heads-loaded_none (j + 1) qs i h
heads-loaded_none j (loaded (x ∷ xs) ∷ qs) (suc i) h =
    ap (λ t. (x.0, j) ∷ t) (heads-loaded_none (j + 1) qs i h)
