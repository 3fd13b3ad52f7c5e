-- ===== src/Files/Writes.antt =====
-- What `write_file` leaves on the disk.
use custom_file_operation_pr.Prelude.{
  ℕ, ◌+◌, if◌then◌else◌, ◌≡◌, ◌≢◌, refl, ◌∙◌, ap, Bool, true, false, not, ◌&&◌, none, some, [], ◌∷◌,
  length, Text, Bytes, join_path, is_some,
}
use custom_file_operation_pr.Prelude.Dict.{lookup, lookup-insert_self, lookup-insert_ne}
use custom_file_operation_pr.Prelude.Action.{ok, ◌>>=◌, ◌>>◌, pure, modify, bind-ok, catch-ok}
use custom_file_operation_pr.Files.Disk.{
  is_refused, next_refusal, write_at, put_file, called, later_refusals,
}
use custom_file_operation_pr.Files.Buffers.{
  Writer, put_bytes, FileState, marked_in, set_disk, get_buffer,
}
use custom_file_operation_pr.Files.Calls.{os_call, on_disk, os_call-allowed}
use custom_file_operation_pr.Files.Writing.{
  write_file, amend_with, write_and_settle, write_bytes, move_to, open_writer, writer_for,
  settle_writer, write_failed,
}
use custom_file_operation_pr.Files.Views.{
  Readable, Spares, written_over, is_gone-lem, move_to-quiet, settle_writer-disk,
}

pub write_bytes-allowed :
    (new : Bytes) (w : Writer) (s : FileState)
    → is_refused s.disk ≡ false
    → let (w', d') = put_bytes new w (called s.disk) in write_bytes new w s ≡ (ok w', set_disk d' s)
unfolding write_bytes
write_bytes-allowed new w s calm =
    bind-ok os_call (λ _ s. let (w', d') = put_bytes new w s.disk in (ok w', set_disk d' s))
      (os_call-allowed s calm)

settle_writer-deleted_cache :
    (fpath identifier : Text) (keepalive purge cached : Bool) (w : Writer) (s : FileState)
    → (settle_writer fpath identifier keepalive purge cached w s).deleted_cache ≡ s.deleted_cache
settle_writer-deleted_cache fpath identifier keepalive true cached w s = refl
settle_writer-deleted_cache fpath identifier true false cached w s = refl
settle_writer-deleted_cache fpath identifier false false true w s = refl
settle_writer-deleted_cache fpath identifier false false false w s = refl

-- The write of such a writer and its close.
write_and_settle-lem :
    (fpath identifier : Text) (new old : Bytes) (keepalive purge : Bool) (w : Writer)
    (s : FileState) {b : ℕ} {bs : Bytes}
    → is_refused s.disk ≡ false
    → lookup w.path s.disk.files ≡ some old
    → w.pending ≡ []
    → new ≡ b ∷ bs
    → (keepalive && not purge) ≡ false
    → let (r, s') = write_and_settle fpath identifier new keepalive purge false w s in
      (r ≡ ok tt)
      × (s'.disk ≡ put_file w.path (written_over w new old) (called s.disk))
      × (s'.deleted_cache ≡ s.deleted_cache)
unfolding write_and_settle
write_and_settle-lem fpath identifier new old keepalive purge w s calm h quiet e k =
    let settle = settle_writer fpath identifier keepalive purge false in
    let (w', d') = put_bytes new w (called s.disk) in
    let run =
      catch-ok (write_bytes new w >>= λ written. modify (settle written))
        (write_failed fpath identifier w)
        (bind-ok (write_bytes new w) (λ written. modify (settle written))
          (write_bytes-allowed new w s calm)) in
    let done =
      settle_writer-disk fpath identifier new old keepalive purge w (set_disk (called s.disk) s) h
        quiet e k in
    rw run (
      refl,
      done,
      settle_writer-deleted_cache fpath identifier keepalive purge false w' (set_disk d' s),
    )

amend_with-lem :
    (fpath identifier : Text) (new old : Bytes) (position : ℕ) (keepalive purge : Bool) (w : Writer)
    (s : FileState) {b : ℕ} {bs : Bytes}
    → is_refused s.disk ≡ false
    → lookup w.path s.disk.files ≡ some old
    → w.pending ≡ []
    → w.append ≡ false
    → new ≡ b ∷ bs
    → (keepalive && not purge) ≡ false
    → let (r, s') = amend_with fpath identifier new position keepalive purge false w s in
      (r ≡ ok (position + length new))
      × (s'.disk ≡ put_file w.path (write_at position new old) (called s.disk))
      × (s'.deleted_cache ≡ s.deleted_cache)
unfolding amend_with
amend_with-lem fpath identifier new old position keepalive purge w s calm h quiet a e k =
    let moved = record w { position = position; pending = [] } in
    let settle = write_and_settle fpath identifier new keepalive purge false in
    let (r, disk, marks) =
      write_and_settle-lem fpath identifier new old keepalive purge moved s calm h refl e k in
    let run : amend_with fpath identifier new position keepalive purge false w s
        ≡ (ok (position + length new), (settle moved s).1) =
      bind-ok (move_to position w) (λ m. settle m >> pure (position + length new))
        (move_to-quiet position w s quiet)
      ∙ bind-ok (settle moved) (λ _. pure (position + length new))
          (ap (λ x. (x, (settle moved s).1)) r) in
    rw run (refl, disk ∙ rw a refl, marks)

-- The state once a writer on the path is open.
abbrev opened : Bool → Text → FileState → FileState
opened true path s = set_disk (put_file path [] (called s.disk)) s
opened false path s = set_disk (called s.disk) s

abbrev fresh_writer : Text → Writer
fresh_writer path = record { path = path; append = false; position = 0; pending = [] }

open_writer-lem :
    (path : Text) (truncate : Bool) (s : FileState) {old : Bytes}
    → s.disk.refusals ≡ []
    → lookup path s.disk.files ≡ some old
    → (open_writer path truncate s ≡ (ok (fresh_writer path), opened truncate path s))
      × (lookup path (opened truncate path s).disk.files ≡ some (if truncate then [] else old))
      × ((opened truncate path s).disk.refusals ≡ [])
      × ((other : Text)
          → path ≢ other
          → lookup other (opened truncate path s).disk.files ≡ lookup other s.disk.files)
unfolding open_writer
open_writer-lem path true s calm h = (
  bind-ok os_call (λ _. on_disk (put_file path []) >> pure (fresh_writer path))
      (os_call-allowed s (ap next_refusal calm)),
  lookup-insert_self path [] s.disk.files,
  ap later_refusals calm,
  λ other ne. lookup-insert_ne path other [] s.disk.files ne,
)
open_writer-lem path false s calm h = (
  bind-ok os_call (λ _. pure (fresh_writer path)) (os_call-allowed s (ap next_refusal calm)),
  h,
  ap later_refusals calm,
  λ other ne. refl,
)

opened-deleted_cache :
    (truncate : Bool) (path : Text) (s : FileState)
    → (opened truncate path s).deleted_cache ≡ s.deleted_cache
opened-deleted_cache true path s = refl
opened-deleted_cache false path s = refl

-- A write of at least one byte through a writer that no cache keeps, to a file that is there and not
-- marked as deleted, when the disk refuses nothing: it answers with the position after the bytes,
-- and the file has the bytes at that place, over what it held, or over nothing where the write
-- truncates. The file is not marked, the disk still refuses nothing, and every other file is as it
-- was.
pub write_file-Readable :
    (root fpath : Text) (new old : Bytes) (identifier : Text) (position : ℕ)
    (truncate keepalive purge : Bool) (s : FileState) {b : ℕ} {bs : Bytes}
    → Readable root fpath old s
    → get_buffer s.amendment_cache fpath identifier ≡ none
    → (keepalive && not purge) ≡ false
    → new ≡ b ∷ bs
    → let (r, s') = write_file root fpath new identifier position truncate keepalive purge s in
      (r ≡ ok (position + length new))
      × Readable root fpath (write_at position new (if truncate then [] else old)) s'
      × Spares (join_path root fpath) s s'
unfolding write_file
write_file-Readable root fpath new old identifier position truncate keepalive purge s
      (calm, there, h) fresh k e =
    let path = join_path root fpath in
    let base = if truncate then [] else old in
    let (run_open, held, calm', same) = open_writer-lem path truncate s calm h in
    let s1 = opened truncate path s in
    let (r, disk, marks) =
      amend_with-lem fpath identifier new base position keepalive purge (fresh_writer path) s1
        (ap next_refusal calm') held refl refl e k in
    let written = write_at position new base in
    let reached : write_file root fpath new identifier position truncate keepalive purge s
        ≡ amend_with fpath identifier new position keepalive purge false (fresh_writer path) s1 =
      rw (is_gone-lem root fpath s there h) (
        ap
          (λ o.
            (writer_for path truncate o
                >>= amend_with fpath identifier new position keepalive purge (is_some o))
              s)
          fresh
        ∙ bind-ok (open_writer path truncate)
            (amend_with fpath identifier new position keepalive purge false) run_open) in
    rw (reached, disk)
      (
        r,
        (
          ap later_refusals calm',
          ap (marked_in fpath) (marks ∙ opened-deleted_cache truncate path s) ∙ there,
          lookup-insert_self path written s1.disk.files,
        ),
        λ other ne. lookup-insert_ne path other written s1.disk.files ne ∙ same other ne,
      )
