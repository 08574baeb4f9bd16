-- ===== src/Compaction/Files.antt =====
-- What a finished table leaves in the directory.
use sift_core.Disk.{
  FileName, Disk, lookup, write, sync_data, rename, create, store, without, contents, name_eq,
  Files,
}
use sift_core.Sstable.{SstableMeta, SstableWriter, file_bytes, meta_of, add_entry, add_entries}
use sift_core.Key.{Entry}
use sift_core.Bytes.{Bytes}
use sift_core.Compaction.{finish, finish_and_rename}
use sift_core.Disk.Laws.{lookup-store, contents-of_lookup, name_eq_refl, lookup-without}
use sift_core.Prelude.{◌≡◌, refl, some, List, [], ◌∷◌, ◌++◌, arith, ap, ◌∙◌, none, if◌then◌else◌}
use sift_core.Result.{ok, Result, err, panicked}

pub create_ok :
    (n : FileName) (d : Disk) → (create n d).0 ≡ ok tt → (create n d).1.files ≡ store n [] d.files
unfolding create
create_ok n d h = ground arith

write_ok :
    (n : FileName) (b : Bytes) (d : Disk)
    → (write n b d).0 ≡ ok tt
    → (write n b d).1.files ≡ store n (contents n d.files ++ b) d.files
unfolding write
write_ok n b d h = ground arith

rename_ok :
    (n n' : FileName) (b : Bytes) (d : Disk)
    → lookup n d.files ≡ some b
    → (rename n n' d).0 ≡ ok tt
    → (rename n n' d).1.files ≡ store n' b (without n d.files)
unfolding rename
rename_ok n n' b d e h = ground (arith, e)

finish_ok :
    (w : SstableWriter) (d : Disk) (meta : SstableMeta)
    → (finish w d).0 ≡ ok meta
    → (finish w d).1.files ≡ store w.path (contents w.path d.files ++ file_bytes w) d.files
unfolding finish sync_data
finish_ok w d meta h = ground (arith, write_ok w.path (file_bytes w) d)

pub finished :
    (w : SstableWriter) (final : FileName) (d : Disk) (meta : SstableMeta)
    → lookup w.path d.files ≡ some []
    → (finish_and_rename w final d).0 ≡ ok meta
    → (meta.path ≡ final)
      × (meta.entry_count ≡ w.entry_count)
      × ((finish_and_rename w final d).1.files
          ≡ store final (file_bytes w) (without w.path (store w.path (file_bytes w) d.files)))
unfolding finish_and_rename finish meta_of
finished w final d meta empty h = ground (
  arith,
  finish_ok w d (meta_of w),
  contents-of_lookup w.path d.files [] empty,
  rename_ok w.path final (file_bytes w) (finish w d).1,
  lookup-store w.path w.path (file_bytes w) d.files,
  name_eq_refl w.path,
)

pub path-add_entries : (w : SstableWriter) (es : List Entry) → (add_entries w es).path ≡ w.path
unfolding add_entries add_entry
path-add_entries w [] = refl
path-add_entries w ((ik, v) ∷ es) = path-add_entries (add_entry w (ik, v)) es

-- A table with its whole way to the disk: the temporary file is created, filled, synced and renamed.
unfoldable pub write_table : FileName → SstableWriter → FileName → Disk → Result SstableMeta × Disk
write_table tmp w final d =
    let (r, d1) = create tmp d in
    elim r [ ok u ↦ finish_and_rename w final d1 | err e ↦ (err e, d1) | panicked ↦ (panicked, d1) ]

write_table_steps :
    (tmp : FileName) (w : SstableWriter) (final : FileName) (d : Disk) (meta : SstableMeta)
    → (write_table tmp w final d).0 ≡ ok meta
    → ((create tmp d).0 ≡ ok tt)
      × ((finish_and_rename w final (create tmp d).1).0 ≡ ok meta)
      × ((write_table tmp w final d).1 ≡ (finish_and_rename w final (create tmp d).1).1)
unfolding write_table
write_table_steps tmp w final d meta h = ground arith

replaced_lookup :
    (a b n : FileName) (x : Bytes) (fs : Files)
    → lookup n (store b x (without a (store a x (store a [] fs))))
      ≡ (if name_eq b n then some x else if name_eq a n then none else lookup n fs)
replaced_lookup a b n x fs = ground (
  arith,
  lookup-store b n x (without a (store a x (store a [] fs))),
  lookup-without a n (store a x (store a [] fs)),
  lookup-store a n x (store a [] fs),
  lookup-store a n [] fs,
)

-- A table that reached the disk stands under its name, and no other file changed but its temporary.
pub lookup-write_table :
    (tmp : FileName) (w : SstableWriter) (final : FileName) (d : Disk) (meta : SstableMeta)
    → w.path ≡ tmp
    → (write_table tmp w final d).0 ≡ ok meta
    → (meta.path ≡ final)
      × (meta.entry_count ≡ w.entry_count)
      × ((n : FileName)
          → lookup n (write_table tmp w final d).1.files ≡ (
              if name_eq final n
              then some (file_bytes w)
              else if name_eq tmp n
              then none
              else lookup n d.files))
lookup-write_table tmp w final d meta p h =
    let (made, ends, same) = write_table_steps tmp w final d meta h in
    let created = create_ok tmp d made in
    let empty : lookup w.path (create tmp d).1.files ≡ some [] =
      rw (p, created, lookup-store tmp tmp [] d.files, name_eq_refl tmp) refl in
    let (path, count, files) = finished w final (create tmp d).1 meta empty ends in
    (
      path,
      count,
      λ n.
          ap (λ t. lookup n t.files) same
          ∙ ap (λ f. lookup n f) files
          ∙ ap
              (λ t. lookup n (
                store final (file_bytes w)
                  (without t (store t (file_bytes w) (create tmp d).1.files))))
              p
          ∙ ap
              (λ fs.
                lookup n (store final (file_bytes w) (without tmp (store tmp (file_bytes w) fs))))
              created
          ∙ replaced_lookup tmp final n (file_bytes w) d.files,
    )
