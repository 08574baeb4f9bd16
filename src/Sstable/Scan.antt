-- ===== src/Sstable/Scan.antt =====
-- src/sstable.rs, `SSTableIter` over a table that the writer wrote.
use sift_core.Sstable.Records.{
  Fits, encode_entries, raw_of, length-encode_entry, read_record-encode_entry, encode_entries-cons,
}
use sift_core.Bytes.{Bytes}
use sift_core.Disk.{FileName, Disk, lookup, read_file}
use sift_core.Key.{Entry}
use sift_core.Prelude.{
  ℕ, ◌-◌, ◌^◌, ◌≤◌, ◌<◌, ◌≡◌, refl, ap, ◌∙◌, none, some, List, [], ◌∷◌, ◌++◌, arith, length, All,
}
use sift_core.Result.{ok}
use sift_core.Sstable.{footer_magic, encode_entry, file_bytes}
use sift_core.Sstable.Iter.{SstableIter, open_iter, next}
use sift_core.Sstable.OpenBack.{length-file_bytes, words}
use sift_core.Sstable.ReadBack.{write_run, offset-encode_entries, write_run-WriterFits, tail_of}
use sift_core.Sstable.Table.{footer_word, footer_of, read_record}

-- The iterator has the entries left to yield.
pub record Yields (it : SstableIter) (es : List Entry) : Type 0 where
  pub fits : All Fits es
  pub tail : Bytes
  pub bytes : it.rest ≡ encode_entries es ++ tail
  pub end : it.remaining ≡ length (encode_entries es)

-- An iterator at the end of its table yields nothing.
pub next-none : (it : SstableIter) → Yields it [] → next it ≡ ok none
unfolding next encode_entries
next-none it y = ground (arith, y.end)

next-read :
    (it : SstableIter) (e : Entry) (rest : Bytes)
    → 0 < it.remaining
    → read_record it.rest ≡ ok (some (raw_of e, rest))
    → next it
      ≡ ok (some (e, record { rest = rest; remaining = it.remaining - length (encode_entry e) }))
unfolding next
next-read it e rest more read = ground (arith, read, length-encode_entry e)

-- An iterator yields the next entry of its table, and then has the others left.
pub next-some :
    (it : SstableIter) (e : Entry) (es : List Entry)
    → Yields it (e ∷ es)
    → (it' : SstableIter) × (next it ≡ ok (some (e, it'))) × Yields it' es
next-some it e es y =
    let (bytes, size) = encode_entries-cons e es y.tail in
    (
      record {
        rest = encode_entries es ++ y.tail;
        remaining = it.remaining - length (encode_entry e);
      },
      next-read it e (encode_entries es ++ y.tail)
          (omega (arith, y.end, size, length-encode_entry e))
          (ap read_record (y.bytes ∙ bytes)
            ∙ read_record-encode_entry e (encode_entries es ++ y.tail) y.fits.0),
      record { fits = y.fits.1; tail = y.tail; bytes = refl; end = omega (arith, y.end, size) },
    )

open_iter_ok :
    (path : FileName) (d : Disk) (file : Bytes) (n : ℕ)
    → lookup path d.files ≡ some file
    → 56 ≤ length file
    → footer_word (footer_of file) 6 ≡ footer_magic
    → footer_word (footer_of file) 0 ≡ n
    → open_iter path d ≡ ok (record { rest = file; remaining = n })
unfolding open_iter read_file
open_iter_ok path d file n found room magic data_end = ground (arith, found, magic, data_end)

-- The iterator over a table written from a run of entries has the run left to yield.
pub open_iter-write_run :
    (path : FileName) (d : Disk) (from : FileName) (expected : ℕ) (es : List Entry)
    → All Fits es
    → length (file_bytes (write_run from expected es)) < 2 ^ 60
    → lookup path d.files ≡ some (file_bytes (write_run from expected es))
    → (it : SstableIter) × (open_iter path d ≡ ok it) × Yields it es
open_iter-write_run path d from expected es fits small found =
    let w = write_run from expected es in
    let bounds = write_run-WriterFits from expected es fits small in
    let footer = words w bounds in
    let (tail, bytes) = tail_of from expected es fits small in
    (
      record { rest = file_bytes w; remaining = w.offset },
      open_iter_ok path d (file_bytes w) w.offset found (omega (arith, length-file_bytes w bounds))
          footer.magic footer.index_offset,
      record {
        fits = fits;
        tail = tail;
        bytes = bytes;
        end = offset-encode_entries from expected es fits small;
      },
    )
