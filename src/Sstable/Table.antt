-- ===== src/Sstable/Table.antt =====
-- src/sstable.rs: reading a table, `SSTable::open` and `get`.
use sift_core.Reader.{Reader, ◌>>=◌, pure, read_exact}
use sift_core.Bytes.{Bytes, from_le, cmp_bytes}
use sift_core.Disk.{FileName, Disk, read_file}
use sift_core.Key.{Seq, Value}
use sift_core.Prelude.{
  ℕ, zero, suc, ◌+◌, ◌-◌, ◌*◌, ◌/◌, ◌%◌, ◌^◌, Ordering, Bool, true, false, not, ◌||◌, Option, none,
  some, List, [], ◌∷◌, ltb, leb, ◌==◌, if◌then◌else◌, length, get_or, take, drop,
}
use sift_core.Result.{invalid_data, Result, ok, err, panicked}
use sift_core.Sstable.{footer_magic, footer_size, SstableMeta}
use sift_core.Sstable.Bloom.{BloomFilter, might_contain, from_raw}

-- `struct SSTable`. The file is immutable, so the table carries its bytes in place of its path.
pub record Sstable : Type 0 where
  pub path : FileName
  pub file : Bytes
  pub index : List (Bytes × ℕ)
  pub bloom : BloomFilter
  pub data_end : ℕ
  pub entry_count : ℕ

-- A slice of `n` bytes off the front; out of range it panics.
unfoldable pub slice : ℕ → Reader Bytes
slice n input = if leb n (length input) then ok (take n input, drop n input) else panicked

-- One entry of the sparse index.
unfoldable pub next_index_entry : Reader (Bytes × ℕ)
unfolding slice
next_index_entry = do
  klen ← slice 4
  key ← slice (from_le klen)
  off ← slice 8
  pure (key, from_le off)

abbrev pub cons_result {ℓ} : {A : Type ℓ} → A → Result (List A) → Result (List A)
cons_result a (ok as') = ok (a ∷ as')
cons_result a (err e) = err e
cons_result a panicked = panicked

-- `while cursor < index_buf.len()`, with fuel: every round takes bytes off.
unfoldable pub parse_index : ℕ → Bytes → Result (List (Bytes × ℕ))
parse_index fuel [] = ok []
parse_index zero (b ∷ bs) = ok []
parse_index (suc fuel) (b ∷ bs) = elim (next_index_entry (b ∷ bs)) [
  | ok (entry, rest) ↦ cons_result entry (parse_index fuel rest)
  | err e ↦ err e
  | panicked ↦ panicked
]

-- The `i`-th word of the footer.
unfoldable pub footer_word : Bytes → ℕ → ℕ
footer_word footer i = from_le (take 8 (drop (8 * i) footer))

-- The footer is the last 56 bytes.
unfoldable pub footer_of : Bytes → Bytes
footer_of file = drop (length file - footer_size) file

-- `Vec::with_capacity` panics where the 32-byte elements pass `isize::MAX`.
unfoldable pub capacity_overflows : ℕ → Bool
capacity_overflows count = ltb (2 ^ 63 - 1) (count * 32)

-- The blocks between the data and the footer, behind the checks of the offsets.
unfoldable pub read_blocks : FileName → Bytes → ℕ → ℕ → ℕ → ℕ → ℕ → ℕ → Result Sstable
unfolding parse_index
read_blocks path file bound index_offset bloom_offset num_bits num_hashes entry_count =
    let index_buf = take (bloom_offset - index_offset) (drop index_offset file) in
    let bits = take (bound - bloom_offset) (drop bloom_offset file) in
    elim (parse_index (length index_buf) index_buf) [
      | ok index ↦ ok (record {
        path = path;
        file = file;
        index = index;
        bloom = from_raw bits num_bits (num_hashes % 2 ^ 32);
        data_end = index_offset;
        entry_count = entry_count;
      })
      | err e ↦ err e
      | panicked ↦ panicked
    ]

-- `SSTable::open` on the bytes of a file.
unfoldable pub open_bytes : FileName → Bytes → Result Sstable
unfolding capacity_overflows
open_bytes path file =
    if ltb (length file) footer_size
    then err invalid_data
    else let footer = footer_of file in
      let index_offset = footer_word footer 0 in
      let bloom_offset = footer_word footer 2 in
      let bound = length file - footer_size in
      if not (footer_word footer 6 == footer_magic)
      then err invalid_data
      else if ltb bound index_offset || (ltb bound bloom_offset || ltb bloom_offset index_offset)
      then err invalid_data
      else if capacity_overflows (footer_word footer 1)
      then panicked
      else read_blocks path file bound index_offset bloom_offset (footer_word footer 3)
          (footer_word footer 4) (footer_word footer 5)

-- `SSTable::open`.
unfoldable pub open_table : FileName → Disk → Result Sstable
unfolding open_bytes
open_table path d = elim (read_file path d) [
  | ok file ↦ open_bytes path file
  | err e ↦ err e
  | panicked ↦ panicked
]

-- `SSTable::into_meta`.
unfoldable pub into_meta : Sstable → SstableMeta
into_meta t = record {
  path = t.path;
  min_key = elim t.index [ [] ↦ [] | e ∷ es ↦ e.0 ];
  max_key = [];
  entry_count = t.entry_count;
}

pub record RawRecord : Type 0 where
  pub user_key : Bytes
  pub seq : Seq
  pub value : Value
  pub encoded_len : ℕ

-- The fields of a record behind its key length.
unfoldable pub record_body : ℕ → Reader RawRecord
record_body klen = do
  key ← read_exact klen
  seq_buf ← read_exact 8
  op_buf ← read_exact 1
  vlen_buf ← read_exact 4
  val ← read_exact (from_le vlen_buf)
  pure (record {
    user_key = key;
    seq = from_le seq_buf;
    value = if get_or op_buf 0 0 == 0 then Value.put val else Value.delete;
    encoded_len = 4 + klen + 8 + 1 + 4 + from_le vlen_buf;
  })

-- `read_record`: no record where the key length cannot be read.
unfoldable pub read_record : Bytes → Result (Option (RawRecord × Bytes))
unfolding record_body
read_record input = elim (read_exact 4 input) [
  | ok (klen_buf, rest) ↦ elim (record_body (from_le klen_buf) rest) [
    | ok r ↦ ok (some r)
    | err e ↦ err e
    | panicked ↦ panicked
  ]
  | err e ↦ ok none
  | panicked ↦ panicked
]

abbrev pub index_key : List (Bytes × ℕ) → ℕ → Bytes
index_key index i = (get_or index i ([], 0)).0

-- `base = if cmp == Greater { base } else { mid }`.
unfoldable pub next_base : List (Bytes × ℕ) → Bytes → ℕ → ℕ → ℕ
next_base index key base mid = elim (cmp_bytes (index_key index mid) key) [
  | Ordering.gt ↦ base
  | _ ↦ mid
]

-- The loop of `slice::binary_search_by`, with fuel for the halvings.
unfoldable pub search_loop : ℕ → List (Bytes × ℕ) → Bytes → ℕ → ℕ → ℕ
unfolding next_base
search_loop zero index key size base = base
search_loop (suc fuel) index key size base =
    let rest =
      search_loop fuel index key (size - size / 2) (next_base index key base (base + size / 2)) in
    if ltb 1 size then rest else base

-- `binary_search_by(...).unwrap_or_else(|i| i)`.
unfoldable pub search_position : List (Bytes × ℕ) → Bytes → ℕ
unfolding search_loop
search_position [] key = 0
search_position (e ∷ es) key =
    let base = search_loop (length (e ∷ es)) (e ∷ es) key (length (e ∷ es)) 0 in
    elim (cmp_bytes (index_key (e ∷ es) base) key) [ Ordering.lt ↦ base + 1 | _ ↦ base ]

-- `SSTable::block_start_offset`.
unfoldable pub block_start_offset : Sstable → Bytes → ℕ
unfolding search_position
block_start_offset t key =
    let i = search_position t.index key in if ltb 0 i then (get_or t.index (i - 1) ([], 0)).1 else 0

-- The loop of `SSTable::get`, with fuel: every round passes a record.
unfoldable pub get_loop : ℕ → Sstable → Bytes → Seq → ℕ → Result (Option Value)
unfolding read_record
get_loop zero t key as_of offset = ok none
get_loop (suc fuel) t key as_of offset =
    if leb t.data_end offset then ok none else elim (read_record (drop offset t.file)) [
      | ok none ↦ ok none
      | ok (some (rec, rest)) ↦
          let on = get_loop fuel t key as_of (offset + rec.encoded_len) in
          elim (cmp_bytes rec.user_key key) [
            | Ordering.gt ↦ ok none
            | Ordering.lt ↦ on
            | Ordering.eq ↦ if leb rec.seq as_of then ok (some rec.value) else on
          ]
      | err e ↦ err e
      | panicked ↦ panicked
    ]

-- `SSTable::get`.
unfoldable pub get : Sstable → Bytes → Seq → Result (Option Value)
unfolding get_loop block_start_offset might_contain
get t key as_of = elim (might_contain t.bloom key) [
  | ok false ↦ ok none
  | ok true ↦ get_loop (t.data_end + 1) t key as_of (block_start_offset t key)
  | err e ↦ err e
  | panicked ↦ panicked
]

-- `min_max`: the first key of the index, and never a last one.
unfoldable pub min_max : Sstable → Option Bytes × Option Bytes
min_max t = (elim t.index [ [] ↦ none | (k, off) ∷ rest ↦ some k ], none)
