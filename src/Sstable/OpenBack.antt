-- ===== src/Sstable/OpenBack.antt =====
-- `SSTable::open` reads back the file that `SSTableWriter::finish` wrote.
use sift_core.Sstable.{
  SstableWriter, encode_index, encode_footer, file_bytes, footer_magic, footer_size,
}
use sift_core.Sstable.Table.{Sstable, parse_index, footer_word, footer_of, read_blocks, open_bytes}
use sift_core.Bytes.{
  Bytes, IsU32, IsU64, u32_le, u64_le, length-u32_le, length-u64_le, from_le-u64_le,
}
use sift_core.Disk.{FileName}
use sift_core.Prelude.{
  ℕ, ◌^◌, ◌≤◌, ◌<◌, ◌≡◌, refl, sym, ap, ◌∙◌, List, [], ◌∷◌, ◌++◌, arith, length, All, length-append,
  take-append, drop-append, ◌+◌, ◌-◌, ◌*◌, ◌%◌, subst, append_assoc, take, drop,
}
use sift_core.Result.{ok}
use sift_core.Sstable.Bloom.{from_raw}
use sift_core.Sstable.IndexBack.{IndexFits, parse_index-encode_index}

-- What a file must satisfy to be read back.
pub record WriterFits (w : SstableWriter) : Type 0 where
  pub offset : w.offset ≡ length w.data_block
  pub index : All IndexFits w.sparse_index
  pub small : length (file_bytes w) < 2 ^ 60
  pub count : IsU64 w.entry_count
  pub bits : IsU64 w.bloom.num_bits
  pub hashes : IsU32 w.bloom.num_hashes

-- The table that the file of a writer is.
abbrev pub table_of : FileName → SstableWriter → Sstable
table_of path w = record {
  path = path;
  file = file_bytes w;
  index = w.sparse_index;
  bloom = w.bloom;
  data_end = w.offset;
  entry_count = w.entry_count;
}

-- The words of the footer.
pub record Footer (w : SstableWriter) (io bo : ℕ) (footer : Bytes) : Type 0 where
  pub index_offset : footer_word footer 0 ≡ io
  index_count : footer_word footer 1 ≡ length w.sparse_index
  bloom_offset : footer_word footer 2 ≡ bo
  num_bits : footer_word footer 3 ≡ w.bloom.num_bits
  num_hashes : footer_word footer 4 ≡ w.bloom.num_hashes
  entry_count : footer_word footer 5 ≡ w.entry_count
  pub magic : footer_word footer 6 ≡ footer_magic

encode_footer-Footer :
    (w : SstableWriter) (io bo : ℕ)
    → IsU64 io
    → IsU64 bo
    → IsU64 (length w.sparse_index)
    → WriterFits w
    → Footer w io bo (encode_footer w io bo)
unfolding footer_word encode_footer u64_le
encode_footer-Footer w io bo hi hb hn fits = record {
  index_offset = from_le-u64_le io hi;
  index_count = from_le-u64_le (length w.sparse_index) hn;
  bloom_offset = from_le-u64_le bo hb;
  num_bits = from_le-u64_le w.bloom.num_bits fits.bits;
  num_hashes = from_le-u64_le w.bloom.num_hashes (omega (arith, fits.hashes));
  entry_count = from_le-u64_le w.entry_count fits.count;
  magic = from_le-u64_le footer_magic (omega arith);
}

-- The checks of `open` pass where the words of the footer are in range.
open_bytes_checks :
    (path : FileName) (file : Bytes) (io count bo nb nh ec : ℕ)
    → footer_word (footer_of file) 0 ≡ io
    → footer_word (footer_of file) 1 ≡ count
    → footer_word (footer_of file) 2 ≡ bo
    → footer_word (footer_of file) 3 ≡ nb
    → footer_word (footer_of file) 4 ≡ nh
    → footer_word (footer_of file) 5 ≡ ec
    → footer_word (footer_of file) 6 ≡ footer_magic
    → io ≤ bo
    → bo + 56 ≤ length file
    → count * 32 < 2 ^ 63
    → open_bytes path file ≡ read_blocks path file (length file - footer_size) io bo nb nh ec
unfolding open_bytes
open_bytes_checks path file io count bo nb nh ec w0 w1 w2 w3 w4 w5 w6 order room few = ground arith

read_blocks_lem :
    (path : FileName) (file : Bytes) (bound io bo nb nh ec : ℕ) (buf bits : Bytes)
    (index : List (Bytes × ℕ))
    → take (bo - io) (drop io file) ≡ buf
    → take (bound - bo) (drop bo file) ≡ bits
    → parse_index (length buf) buf ≡ ok index
    → nh % 2 ^ 32 ≡ nh
    → read_blocks path file bound io bo nb nh ec
      ≡ ok (record {
        path = path;
        file = file;
        index = index;
        bloom = record { bits = bits; num_bits = nb; num_hashes = nh };
        data_end = io;
        entry_count = ec;
      })
unfolding read_blocks from_raw
read_blocks_lem path file bound io bo nb nh ec buf bits index ebuf ebits parsed hashes =
    ground (arith, ebuf, ebits, hashes, parsed)

length-encode_index : (index : List (Bytes × ℕ)) → 12 * length index ≤ length (encode_index index)
unfolding encode_index
length-encode_index [] = omega arith
length-encode_index ((key, off) ∷ index) = omega (
  arith,
  length-encode_index index,
  length-append (u32_le (length key)) (key ++ (u64_le off ++ encode_index index)),
  length-u32_le (length key),
  length-append key (u64_le off ++ encode_index index),
  length-append (u64_le off) (encode_index index),
  length-u64_le off,
)

pub length-encode_footer : (w : SstableWriter) (io bo : ℕ) → length (encode_footer w io bo) ≡ 56
unfolding encode_footer u64_le
length-encode_footer w io bo = refl

-- The four blocks of a file.
module _ (w : SstableWriter) (fits : WriterFits w) where
  abbrev index_block : Bytes
  index_block = encode_index w.sparse_index

  abbrev bloom_offset : ℕ
  bloom_offset = w.offset + length index_block

  abbrev footer : Bytes
  footer = encode_footer w w.offset bloom_offset

  pub length-file_bytes :
      length (file_bytes w) ≡ length w.data_block + length index_block + length w.bloom.bits + 56
  unfolding file_bytes
  length-file_bytes = omega (
    arith,
    length-append w.data_block (index_block ++ (w.bloom.bits ++ footer)),
    length-append index_block (w.bloom.bits ++ footer),
    length-append w.bloom.bits footer,
    length-encode_footer w w.offset bloom_offset,
  )

  footer_of-file_bytes : footer_of (file_bytes w) ≡ footer
  unfolding footer_of
  footer_of-file_bytes =
      ap (λ b. drop (length (file_bytes w) - footer_size) b) regroup
      ∙ drop-append (w.data_block ++ (index_block ++ w.bloom.bits)) footer _ (
          omega (
            arith,
            length-file_bytes,
            length-append w.data_block (index_block ++ w.bloom.bits),
            length-append index_block w.bloom.bits,
          ))
    where
      regroup : file_bytes w ≡ (w.data_block ++ (index_block ++ w.bloom.bits)) ++ footer
      regroup = unfold file_bytes in simp append_assoc

  index_block-file_bytes :
      take (bloom_offset - w.offset) (drop w.offset (file_bytes w)) ≡ index_block
  unfolding file_bytes
  index_block-file_bytes =
      ap (λ b. take (bloom_offset - w.offset) b)
        (drop-append w.data_block (index_block ++ (w.bloom.bits ++ footer)) w.offset
          (omega (arith, fits.offset)))
      ∙ take-append index_block (w.bloom.bits ++ footer) _ (omega arith)

  bits-file_bytes :
      take (length (file_bytes w) - footer_size - bloom_offset) (drop bloom_offset (file_bytes w))
      ≡ w.bloom.bits
  bits-file_bytes =
      ap (λ b. take (length (file_bytes w) - footer_size - bloom_offset) (drop bloom_offset b))
        regroup
      ∙ ap (λ b. take (length (file_bytes w) - footer_size - bloom_offset) b)
          (drop-append (w.data_block ++ index_block) (w.bloom.bits ++ footer) bloom_offset
            (omega (arith, fits.offset, length-append w.data_block index_block)))
      ∙ take-append w.bloom.bits footer _ (omega (arith, length-file_bytes, fits.offset))
    where
      regroup : file_bytes w ≡ (w.data_block ++ index_block) ++ (w.bloom.bits ++ footer)
      regroup = unfold file_bytes in simp append_assoc

  pub words : Footer w w.offset bloom_offset (footer_of (file_bytes w))
  words =
      subst (λ f. Footer w w.offset bloom_offset f) (sym footer_of-file_bytes)
        (encode_footer-Footer w w.offset bloom_offset
          (omega (arith, fits.small, fits.offset, length-file_bytes))
          (omega (arith, fits.small, fits.offset, length-file_bytes))
          (omega (arith, fits.small, length-encode_index w.sparse_index, length-file_bytes)) fits)

  -- Opening the file that a writer within the bounds of the format finished gives back its index,
  -- its filter, its entry count and the end of its data block.
  pub open_bytes-file_bytes :
      (path : FileName) → open_bytes path (file_bytes w) ≡ ok (table_of path w)
  open_bytes-file_bytes path =
      open_bytes_checks path (file_bytes w) w.offset (length w.sparse_index) bloom_offset
        w.bloom.num_bits w.bloom.num_hashes w.entry_count words.index_offset words.index_count
        words.bloom_offset words.num_bits words.num_hashes words.entry_count words.magic
        (omega arith) (omega (arith, length-file_bytes, fits.offset))
        (omega (arith, fits.small, length-encode_index w.sparse_index, length-file_bytes))
      ∙ read_blocks_lem path (file_bytes w) _ w.offset bloom_offset w.bloom.num_bits
          w.bloom.num_hashes w.entry_count index_block w.bloom.bits w.sparse_index
          index_block-file_bytes bits-file_bytes
          (parse_index-encode_index w.sparse_index _ fits.index (omega arith))
          (omega (arith, fits.hashes))
