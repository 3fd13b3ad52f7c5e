-- ===== src/Files/Reads.antt =====
-- What `read_file` answers, and a reader that reads a whole file chunk by chunk.
use custom_file_operation_pr.Prelude.{
  ℕ, ◌+◌, ◌-◌, ◌≤◌, min, ◌&&◌, if◌then◌else◌, ◌≡◌, ◌↔◌, refl, ◌∙◌, ap, Bool, true, false, not,
  Option, none, some, [], ◌∷◌, length, take, drop, length-take, length-drop, Text, Bytes, join_path,
  is_some, arith,
}
use custom_file_operation_pr.Prelude.Action.{ok, ◌>>◌, bind-ok}
use custom_file_operation_pr.Files.Disk.{next_refusal, later_refusals, called, write_at}
use custom_file_operation_pr.Files.Buffers.{
  FileState, FileReader, fresh_reader, marked_in, set_disk, get_buffer,
}
use custom_file_operation_pr.Files.Unbuffered.{read_through-fresh}
use custom_file_operation_pr.Files.Calls.{os_call, os_call-allowed}
use custom_file_operation_pr.Files.Writing.{write_file}
use custom_file_operation_pr.Files.Reading.{
  read_at, read_through, read_file, content_of, settle_reader, open_reader, read_with,
}
use custom_file_operation_pr.Files.Contents.{read-write_at}
use custom_file_operation_pr.Files.Views.{content, is_gone-lem, Readable}
use custom_file_operation_pr.Files.Writes.{write_file-Readable}

-- A chunk of a file: at most as many bytes as were asked for, and fewer only at its end; the
-- position after them; and whether that is the end.
pub read_at-bounds :
    (position nbytes : ℕ) (bytes : Bytes)
    → let (read_data, position', eof_reached) = read_at position nbytes bytes in
      (length read_data ≡ min nbytes (length bytes - position))
      × (position' ≡ position + length read_data)
      × ((eof_reached ≡ true) ↔ (length bytes ≤ position'))
read_at-bounds position nbytes bytes =
    let size : length (take nbytes (drop position bytes)) ≡ min nbytes (length bytes - position) =
      omega (arith, length-take nbytes (drop position bytes), length-drop position bytes) in
    (size, refl, ground arith)

settle_reader-disk :
    (fpath identifier : Text) (keepalive purge cached : Bool) (reader : FileReader) (s : FileState)
    → (settle_reader fpath identifier keepalive purge cached reader s).disk ≡ s.disk
settle_reader-disk fpath identifier keepalive true cached reader s = refl
settle_reader-disk fpath identifier true false cached reader s = refl
settle_reader-disk fpath identifier false false true reader s = refl
settle_reader-disk fpath identifier false false false reader s = refl

settle_reader-deleted_cache :
    (fpath identifier : Text) (keepalive purge cached : Bool) (reader : FileReader) (s : FileState)
    → (settle_reader fpath identifier keepalive purge cached reader s).deleted_cache
      ≡ s.deleted_cache
settle_reader-deleted_cache fpath identifier keepalive true cached reader s = refl
settle_reader-deleted_cache fpath identifier true false cached reader s = refl
settle_reader-deleted_cache fpath identifier false false true reader s = refl
settle_reader-deleted_cache fpath identifier false false false reader s = refl

settle_reader-read_cache :
    (fpath identifier : Text) (reader : FileReader) (s : FileState)
    → (settle_reader fpath identifier false false false reader s).read_cache ≡ s.read_cache
settle_reader-read_cache fpath identifier reader s = refl

read_with-chunk :
    (path fpath identifier : Text) (position nbytes : ℕ) (keepalive purge : Bool) (s : FileState)
    {bytes : Bytes}
    → content s path ≡ some bytes
    → let (r, s') = read_with path fpath identifier position nbytes keepalive purge none s in
      (r ≡ ok (read_at position nbytes bytes))
      × (s'.disk ≡ s.disk)
      × (s'.deleted_cache ≡ s.deleted_cache)
unfolding read_with
read_with-chunk path fpath identifier position nbytes keepalive purge s {bytes} h =
    let after = (read_through position nbytes (content_of path s) fresh_reader).1 in
    (
      ap ok (read_through-fresh position nbytes (content_of path s))
          ∙ ap (λ o. ok (read_at position nbytes (elim o [ none ↦ [] | some c ↦ c ]))) h,
      settle_reader-disk fpath identifier keepalive purge false after s,
      settle_reader-deleted_cache fpath identifier keepalive purge false after s,
    )

-- The run of a read for which no reader is kept.
read_file-run :
    (root fpath identifier : Text) (position nbytes : ℕ) (keepalive purge : Bool) (bytes : Bytes)
    (s : FileState)
    → Readable root fpath bytes s
    → get_buffer s.read_cache fpath identifier ≡ none
    → read_file root fpath identifier position nbytes keepalive purge s
      ≡ read_with
          (join_path root fpath)
          fpath
          identifier
          position
          nbytes
          keepalive
          purge
          none
          (set_disk (called s.disk) s)
unfolding read_file
read_file-run root fpath identifier position nbytes keepalive purge bytes s (calm, there, h)
      absent =
    let path = join_path root fpath in
    let read = read_with path fpath identifier position nbytes keepalive purge in
    let start = λ (o : Option FileReader). (open_reader (is_some o) >> read o) s in
    let here = is_gone-lem root fpath s there h in
    let run =
      ap start absent
      ∙ bind-ok os_call (λ _. read none) (os_call-allowed s (ap next_refusal calm)) in
    rw here run

-- A read of such a file, for which no reader is kept, answers with the chunk, changes no file, and
-- leaves the file readable.
pub read_file-chunk :
    (root fpath identifier : Text) (position nbytes : ℕ) (keepalive purge : Bool) (bytes : Bytes)
    (s : FileState)
    → Readable root fpath bytes s
    → get_buffer s.read_cache fpath identifier ≡ none
    → let (r, s') = read_file root fpath identifier position nbytes keepalive purge s in
      (r ≡ ok (read_at position nbytes bytes))
      × (s'.disk.files ≡ s.disk.files)
      × Readable root fpath bytes s'
read_file-chunk root fpath identifier position nbytes keepalive purge bytes s (calm, there, h)
      absent =
    let run =
      read_file-run root fpath identifier position nbytes keepalive purge bytes s (calm, there, h)
        absent in
    let (r, same, marks) =
      read_with-chunk (join_path root fpath) fpath identifier position nbytes keepalive purge
        (set_disk (called s.disk) s) h in
    rw (run, r, same) (refl, refl, (ap later_refusals calm, ap (marked_in fpath) marks ∙ there, h))

-- A reader that is not to be kept is not.
pub read_file-read_cache :
    (root fpath identifier : Text) (position nbytes : ℕ) (bytes : Bytes) (s : FileState)
    → Readable root fpath bytes s
    → get_buffer s.read_cache fpath identifier ≡ none
    → (read_file root fpath identifier position nbytes false false s).1.read_cache ≡ s.read_cache
unfolding read_with
read_file-read_cache root fpath identifier position nbytes bytes s readable absent =
    ap (λ x. x.1.read_cache)
      (read_file-run root fpath identifier position nbytes false false bytes s readable absent)

-- A read of a file that is there, not marked as deleted, on a disk that refuses nothing, by a user of
-- whom no cache keeps a reader of the file: it returns at most as many bytes as were asked for, and fewer only where the file ends; the position after
-- them; and that the end is reached just when no byte stands at that position.
pub read_file-bounds :
    (root fpath identifier : Text) (position nbytes : ℕ) (keepalive purge : Bool) (bytes : Bytes)
    (s : FileState)
    → Readable root fpath bytes s
    → get_buffer s.read_cache fpath identifier ≡ none
    → (read_data : Bytes) × (position' : ℕ) × (eof_reached : Bool) × ((read_file root fpath
          identifier position nbytes keepalive purge s).0
        ≡ ok (read_data, position', eof_reached))
      × (length read_data ≡ min nbytes (length bytes - position))
      × (position' ≡ position + length read_data)
      × ((eof_reached ≡ true) ↔ (length bytes ≤ position'))
read_file-bounds root fpath identifier position nbytes keepalive purge bytes s h absent =
    let (read_data, position', eof_reached) = read_at position nbytes bytes in
    let (size, _, ends) = read_at-bounds position nbytes bytes in
    (
      read_data,
      position',
      eof_reached,
      (read_file-chunk root fpath identifier position nbytes keepalive purge bytes s h absent).0,
      size,
      refl,
      ends,
    )

-- What a write leaves is read back. The write goes through a writer that no cache keeps, of at least
-- one byte, to a file that is there and not marked as deleted, on a disk that refuses nothing; then
-- a read, by any user of whom then no cache keeps a reader of the file, from the place of the write, of as many bytes, returns those bytes.
pub read_file-write_file :
    (root fpath : Text) (new old : Bytes) (identifier reader : Text) (position : ℕ)
    (truncate keepalive purge keepalive' purge' : Bool) (s : FileState) {b : ℕ} {bs : Bytes}
    → Readable root fpath old s
    → get_buffer s.amendment_cache fpath identifier ≡ none
    → (keepalive && not purge) ≡ false
    → new ≡ b ∷ bs
    → let s' = (write_file root fpath new identifier position truncate keepalive purge s).1 in
      get_buffer s'.read_cache fpath reader ≡ none
      → (eof_reached : Bool) × ((read_file root fpath reader position
            (length new)
            keepalive'
            purge'
            s').0
          ≡ ok (new, position + length new, eof_reached))
read_file-write_file root fpath new old identifier reader position truncate keepalive purge
      keepalive' purge' s (calm, there, h) fresh k e absent =
    let s' = (write_file root fpath new identifier position truncate keepalive purge s).1 in
    let base = if truncate then [] else old in
    let bytes = write_at position new base in
    let readable =
      (write_file-Readable root fpath new old identifier position truncate keepalive purge s
        (calm, there, h) fresh k e).1 in
    let back : take (length new) (drop position bytes) ≡ new = read-write_at position new base in
    let (_, _, eof_reached) = read_at position (length new) bytes in
    (
      eof_reached,
      (read_file-chunk root fpath reader position (length new) keepalive' purge' bytes s' readable
            absent).0
          ∙ ap (λ x. ok (x, position + length x, eof_reached)) back,
    )
