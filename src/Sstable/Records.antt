-- ===== src/Sstable/Records.antt =====
-- Records read back: one record, and the scan of `SSTable::get` over a sorted run of them.
use Prim.Native.Nat.Ordering.{lt, eq, gt}
use sift_core.Sstable.{value_op, value_bytes, encode_entry}
use sift_core.Reader.{read_exact-append, read_step, read_exact}
use sift_core.Sstable.Table.{get_loop, RawRecord, record_body, read_record, Sstable}
use sift_core.Bytes.{
  Bytes, IsU32, IsU64, u32_le, u64_le, length-u32_le, length-u64_le, cmp_bytes, from_le-u32_le,
  from_le-u64_le, from_le, bytes_eq,
}
use sift_core.Key.{Value, Entry, Seq}
use sift_core.Prelude.{
  ◌+◌, ◌≡◌, refl, some, ◌++◌, arith, ◌==◌, if◌then◌else◌, length, length-append, ℕ, suc, ◌<◌, sym,
  ap, ◌∙◌, Option, none, List, [], ◌∷◌, append_assoc, leb, drop, zero, All, drop-append, zero-add,
  suc-add,
}
use sift_core.Result.{ok, Result}
use sift_core.Key.Order.{IsSorted}
use sift_core.Key.Snapshot.{find_visible, is_visible, find_visible-past}

-- The lengths and the sequence number of an entry fit their fields.
pub record Fits (e : Entry) : Type 0 where
  pub key : IsU32 (length e.0.user_key)
  pub seq : IsU64 e.0.seq
  pub val : IsU32 (length (value_bytes e.1))

-- The record that a reader makes of an entry.
abbrev pub raw_of : Entry → RawRecord
raw_of e = record {
  user_key = e.0.user_key;
  seq = e.0.seq;
  value = e.1;
  encoded_len = 4 + length e.0.user_key + 8 + 1 + 4 + length (value_bytes e.1);
}

pub length-encode_entry :
    (e : Entry)
    → length (encode_entry e) ≡ 4 + length e.0.user_key + 8 + 1 + 4 + length (value_bytes e.1)
unfolding encode_entry
length-encode_entry e =
    rw
      (
        length-append (u32_le (length e.0.user_key)) _,
        length-u32_le (length e.0.user_key),
        length-append e.0.user_key _,
        length-append (u64_le e.0.seq) _,
        length-u64_le e.0.seq,
        length-append (u32_le (length (value_bytes e.1))) _,
        length-u32_le (length (value_bytes e.1)),
      )
      (omega arith)

-- The value that the op byte and the value bytes stand for.
value_back : (v : Value) → (if value_op v == 0 then Value.put (value_bytes v) else Value.delete) ≡ v
unfolding value_op value_bytes
value_back (Value.put v) = refl
value_back Value.delete = refl

-- The fields of an entry one after the other, before what follows the entry.
encode_fields :
    (e : Entry) (rest : Bytes)
    → encode_entry e ++ rest
      ≡ u32_le (length e.0.user_key)
        ++ (e.0.user_key
            ++ (u64_le e.0.seq
                ++ ((value_op e.1 ∷ [])
                    ++ (u32_le (length (value_bytes e.1)) ++ (value_bytes e.1 ++ rest)))))
unfolding encode_entry
encode_fields e rest = simp append_assoc

-- The fields behind the key length.
abbrev body_bytes : Entry → Bytes → Bytes
body_bytes e rest =
    e.0.user_key
    ++ (u64_le e.0.seq
        ++ ((value_op e.1 ∷ [])
            ++ (u32_le (length (value_bytes e.1)) ++ (value_bytes e.1 ++ rest))))

record_body-fields :
    (e : Entry) (rest : Bytes)
    → Fits e
    → record_body (length e.0.user_key) (body_bytes e rest) ≡ ok (raw_of e, rest)
unfolding record_body
record_body-fields e rest fits =
    read_step (length e.0.user_key) e.0.user_key _ _ refl
    ∙ read_step 8 (u64_le e.0.seq) _ _ (length-u64_le _)
    ∙ read_step 1 (value_op e.1 ∷ []) _ _ refl
    ∙ read_step 4 (u32_le (length (value_bytes e.1))) _ _ (length-u32_le _)
    ∙ read_step _ (value_bytes e.1) rest _ (sym (from_le-u32_le _ fits.val))
    ∙ rw (from_le-u64_le e.0.seq fits.seq, from_le-u32_le _ fits.val, value_back e.1)

read_record_step :
    (input klen_buf rest : Bytes) (r : RawRecord × Bytes)
    → read_exact 4 input ≡ ok (klen_buf, rest)
    → record_body (from_le klen_buf) rest ≡ ok r
    → read_record input ≡ ok (some r)
unfolding read_record
read_record_step input klen_buf rest r e f = rw (read_record, e, f)

-- `read_record` reads back an entry whose fields fit their widths, and leaves what follows it.
pub read_record-encode_entry :
    (e : Entry) (rest : Bytes)
    → Fits e
    → read_record (encode_entry e ++ rest) ≡ ok (some (raw_of e, rest))
read_record-encode_entry e rest fits =
    ap read_record (encode_fields e rest)
    ∙ read_record_step _ (u32_le (length e.0.user_key)) (body_bytes e rest) (raw_of e, rest)
        (read_exact-append 4 (u32_le (length e.0.user_key)) (body_bytes e rest) (length-u32_le _))
        (ap (λ k. record_body k (body_bytes e rest)) (from_le-u32_le _ fits.key)
          ∙ record_body-fields e rest fits)

-- A run of entries one after the other.
unfoldable pub encode_entries : List Entry → Bytes
encode_entries [] = []
encode_entries (e ∷ es) = encode_entry e ++ encode_entries es

pub encode_entries-cons :
    (e : Entry) (es : List Entry) (tail : Bytes)
    → (encode_entries (e ∷ es) ++ tail ≡ encode_entry e ++ (encode_entries es ++ tail))
      × (length (encode_entries (e ∷ es)) ≡ length (encode_entry e) + length (encode_entries es))
unfolding encode_entries
encode_entries-cons e es tail = (
  append_assoc (encode_entry e) (encode_entries es) tail,
  length-append (encode_entry e) (encode_entries es),
)

pub encode_entries-append :
    (es fs : List Entry) → encode_entries (es ++ fs) ≡ encode_entries es ++ encode_entries fs
unfolding encode_entries
encode_entries-append [] fs = refl
encode_entries-append (e ∷ es) fs =
    ap (λ t. encode_entry e ++ t) (encode_entries-append es fs)
    ∙ sym (append_assoc (encode_entry e) (encode_entries es) (encode_entries fs))

-- One round of the loop of `get` at an entry.
get_loop_round :
    (fuel : ℕ) (t : Sstable) (key : Bytes) (as_of : Seq) (offset : ℕ) (e : Entry) (rest : Bytes)
    → Fits e
    → offset < t.data_end
    → drop offset t.file ≡ encode_entry e ++ rest
    → get_loop (suc fuel) t key as_of offset
      ≡ elim (cmp_bytes e.0.user_key key) as (λ _. Result (Option Value)) [
        | gt ↦ ok none
        | lt ↦ get_loop fuel t key as_of (offset + length (encode_entry e))
        | eq ↦
            if leb e.0.seq as_of
            then ok (some e.1)
            else get_loop fuel t key as_of (offset + length (encode_entry e))
      ]
unfolding get_loop
get_loop_round fuel t key as_of offset e rest fits inside at_offset =
    ground (arith, at_offset, read_record-encode_entry e rest fits, length-encode_entry e)

-- The table's bytes from `offset` on are the entries, and its data block ends behind them.
pub record At (t : Sstable) (offset : ℕ) (es : List Entry) (tail : Bytes) : Type 0 where
  pub bytes : drop offset t.file ≡ encode_entries es ++ tail
  pub end : t.data_end ≡ offset + length (encode_entries es)

drop-nil {ℓ} : {A : Type ℓ} (m : ℕ) → drop {A = A} m [] ≡ []
drop-nil zero = refl
drop-nil (suc m) = refl

pub drop-drop {ℓ} : {A : Type ℓ} (n m : ℕ) (xs : List A) → drop (n + m) xs ≡ drop m (drop n xs)
drop-drop zero m xs = rw zero-add
drop-drop (suc n) m [] = drop-nil (suc n + m) ∙ sym (drop-nil m)
drop-drop (suc n) m (x ∷ xs) = rw suc-add (drop-drop n m xs)

At-step :
    (t : Sstable) (offset : ℕ) (e : Entry) (es : List Entry) (tail : Bytes)
    → At t offset (e ∷ es) tail
    → At t (offset + length (encode_entry e)) es tail
At-step t offset e es tail at = record {
  bytes =
      drop-drop offset (length (encode_entry e)) t.file
      ∙ ap (λ b. drop (length (encode_entry e)) b) (at.bytes ∙ (encode_entries-cons e es tail).0)
      ∙ drop-append (encode_entry e) (encode_entries es ++ tail) _ refl;
  end = omega (arith, at.end, (encode_entries-cons e es tail).1);
}

find_visible-cases :
    (key : Bytes) (as_of : Seq) (e : Entry) (es : List Entry) (on : Result (Option Value))
    → IsSorted (e ∷ es)
    → on ≡ ok (find_visible key as_of es)
    → elim (cmp_bytes e.0.user_key key) as (λ _. Result (Option Value)) [
      | gt ↦ ok none
      | lt ↦ on
      | eq ↦ if leb e.0.seq as_of then ok (some e.1) else on
    ]
      ≡ ok (find_visible key as_of (e ∷ es))
unfolding find_visible is_visible bytes_eq
find_visible-cases key as_of e es on sorted ih = ground (arith, find_visible-past key as_of e.0 es)

-- From any record on, the loop of `get` finds the newest version that the snapshot sees among the
-- records that follow.
pub get_loop-eq-find_visible :
    (es : List Entry) (fuel : ℕ) (t : Sstable) (key : Bytes) (as_of : Seq) (offset : ℕ)
    (tail : Bytes)
    → All Fits es
    → IsSorted es
    → At t offset es tail
    → length es < fuel
    → get_loop fuel t key as_of offset ≡ ok (find_visible key as_of es)
get_loop-eq-find_visible es zero t key as_of offset tail fits sorted at h = absurd (omega arith)
get_loop-eq-find_visible [] (suc fuel) t key as_of offset tail fits sorted at h =
    unfold get_loop find_visible encode_entries in ground (arith, at.end)
get_loop-eq-find_visible (e ∷ es) (suc fuel) t key as_of offset tail fits sorted at h =
    get_loop_round fuel t key as_of offset e (encode_entries es ++ tail) fits.0
      (omega (arith, at.end, (encode_entries-cons e es tail).1, length-encode_entry e))
      (at.bytes ∙ (encode_entries-cons e es tail).0)
    ∙ find_visible-cases key as_of e es _ sorted (
        get_loop-eq-find_visible es fuel t key as_of (offset + length (encode_entry e)) tail fits.1
          sorted.1 (At-step t offset e es tail at) (omega arith))
