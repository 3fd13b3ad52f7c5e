-- ===== src/Files/Appends.antt =====
-- What `append_file` leaves on the disk.
use custom_file_operation_pr.Prelude.{
  ◌≡◌, refl, ◌∙◌, ap, Bool, true, false, none, some, [], ◌∷◌, ◌++◌, length, Text, Bytes, join_path,
  Bool-cases, Option-cases, inl, inr,
}
use custom_file_operation_pr.Prelude.Int.{ℤ, pos}
use custom_file_operation_pr.Prelude.Dict.{
  lookup, lookup-insert_self, lookup-insert_ne, lookup-erase_self, erase,
}
use custom_file_operation_pr.Prelude.Action.{
  ok, ◌>>=◌, ◌>>◌, pure, gets, modify, bind-ok, catch-ok, catch,
}
use custom_file_operation_pr.Files.Disk.{is_refused, next_refusal, later_refusals, called, put_file}
use custom_file_operation_pr.Files.Buffers.{
  Writer, FileState, marked_in, set_disk, get_buffer, drop_writer, remove_buffer, BufferCache,
  put_bytes, close_writer,
}
use custom_file_operation_pr.Files.Calls.{FileOp, os_call, os_call-allowed}
use custom_file_operation_pr.Files.Writing.{
  append_file, open_append, write_bytes, settle_append, append_failed,
}
use custom_file_operation_pr.Files.Views.{
  Readable, Spares, is_gone-lem, written_over, close_writer-put_bytes,
}
use custom_file_operation_pr.Files.Writes.{write_bytes-allowed}

drop_writer-none :
    (fpath identifier : Text) (s : FileState)
    → get_buffer s.amendment_cache fpath identifier ≡ none
    → (drop_writer fpath identifier s).disk ≡ s.disk
unfolding drop_writer
drop_writer-none fpath identifier s fresh = rw fresh refl

abbrev at_end : Text → Bytes → Writer
at_end path old = record { path = path; append = true; position = length old; pending = [] }

open_append-lem :
    (path : Text) (s : FileState) {old : Bytes}
    → is_refused s.disk ≡ false
    → lookup path s.disk.files ≡ some old
    → open_append path s ≡ (ok (at_end path old), set_disk (called s.disk) s)
unfolding open_append
open_append-lem path s {old} calm h =
    bind-ok os_call
      (λ _. gets (λ s. lookup path s.disk.files) >>= λ found. pure (record {
        path = path;
        append = true;
        position = elim found [ none ↦ 0 | some old ↦ length old ];
        pending = [];
      }))
      (os_call-allowed s calm)
    ∙ rw h refl

settle_append-disk :
    (fpath identifier : Text) (new old : Bytes) (purge : Bool) (w : Writer) (s : FileState) {b : _}
    {bs : Bytes}
    → lookup w.path s.disk.files ≡ some old
    → w.pending ≡ []
    → new ≡ b ∷ bs
    → get_buffer s.amendment_cache fpath identifier ≡ none
    → let (w', d') = put_bytes new w s.disk in
      (settle_append fpath identifier false purge false w' (set_disk d' s)).disk
      ≡ put_file w.path (written_over w new old) s.disk
settle_append-disk fpath identifier new old purge w s h quiet e fresh =
    let (w', d') = put_bytes new w s.disk in
    let same = drop_writer-none fpath identifier (set_disk d' s) fresh in
    let done = close_writer-put_bytes w s.disk new old h quiet e in
    elim (Bool-cases purge) [
      | inl on ↦ rw on (ap (close_writer w') same ∙ done)
      | inr off ↦ rw off done
    ]

settle_append-deleted_cache :
    (fpath identifier : Text) (purge : Bool) (w : Writer) (s : FileState)
    → (settle_append fpath identifier false purge false w s).deleted_cache ≡ s.deleted_cache
unfolding drop_writer
settle_append-deleted_cache fpath identifier true w s = refl
settle_append-deleted_cache fpath identifier false w s = refl

pub get_buffer-remove_buffer :
    {H : Type 0} (cache : BufferCache H) (fpath identifier : Text)
    → get_buffer (remove_buffer cache fpath identifier) fpath identifier ≡ none
unfolding get_buffer remove_buffer
get_buffer-remove_buffer cache fpath identifier = elim (Option-cases (lookup fpath cache)) [
  | inl absent ↦ rw (remove_buffer, absent, get_buffer, absent) refl
  | inr (buffers, held) ↦
      rw
        (remove_buffer, held, get_buffer, lookup-insert_self fpath (erase identifier buffers) cache)
        (lookup-erase_self identifier buffers)
]

settle_append-get_buffer :
    (fpath identifier : Text) (purge : Bool) (w : Writer) (s : FileState)
    → get_buffer s.amendment_cache fpath identifier ≡ none
    → get_buffer
        (settle_append fpath identifier false purge false w s).amendment_cache
        fpath
        identifier
      ≡ none
unfolding drop_writer
settle_append-get_buffer fpath identifier true w s h =
    get_buffer-remove_buffer s.amendment_cache fpath identifier
settle_append-get_buffer fpath identifier false w s h = h

-- An append of at least one byte through a writer that is not kept, by a user whose writer no cache
-- keeps, to a file that is there and not marked as deleted, when the disk refuses nothing: it
-- answers with the number of bytes, and the file has them after what it held. The file is not
-- marked, the disk still refuses nothing, every other file is as it was, and still no cache keeps a
-- writer of the user.
pub append_file-Readable :
    (root fpath : Text) (new old : Bytes) (identifier : Text) (purge : Bool) (s : FileState) {b : _}
    {bs : Bytes}
    → Readable root fpath old s
    → get_buffer s.amendment_cache fpath identifier ≡ none
    → new ≡ b ∷ bs
    → let (r, s') = append_file root fpath new identifier false purge false s in
      (r ≡ ok (pos (length new)))
      × Readable root fpath (old ++ new) s'
      × Spares (join_path root fpath) s s'
      × (get_buffer s'.amendment_cache fpath identifier ≡ none)
unfolding append_file
append_file-Readable root fpath new old identifier purge s (calm, there, h) fresh e =
    let path = join_path root fpath in
    let w = at_end path old in
    let s1 = set_disk (called s.disk) s in
    let settle = settle_append fpath identifier false purge false in
    let finish : Writer → FileOp ℤ =
      λ written. modify (settle written) >> pure (pos (length new)) in
    let (w', d') = put_bytes new w (called s1.disk) in
    let attempt : Writer → FileOp ℤ =
      λ w. catch (write_bytes new w >>= finish) (append_failed fpath identifier) in
    let run : append_file root fpath new identifier false purge false s
        ≡ (ok (pos (length new)), settle w' (set_disk d' s1)) =
      rw (is_gone-lem root fpath s there h) (
        bind-ok (open_append path) attempt (open_append-lem path s (ap next_refusal calm) h)
        ∙ catch-ok (write_bytes new w >>= finish) (append_failed fpath identifier) (
            bind-ok (write_bytes new w) finish
              (write_bytes-allowed new w s1 (ap (λ l. next_refusal (later_refusals l)) calm)))) in
    let done =
      settle_append-disk fpath identifier new old purge w (set_disk (called s1.disk) s1) h refl e
        fresh in
    let marks = settle_append-deleted_cache fpath identifier purge w' (set_disk d' s1) in
    rw (run, done)
      (
        refl,
        (
          ap (λ l. later_refusals (later_refusals l)) calm,
          ap (marked_in fpath) marks ∙ there,
          lookup-insert_self path (old ++ new) s.disk.files,
        ),
        λ other ne. lookup-insert_ne path other (old ++ new) s.disk.files ne,
        settle_append-get_buffer fpath identifier purge w' (set_disk d' s1) fresh,
      )
