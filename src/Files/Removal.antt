-- ===== src/Files/Removal.antt =====
-- What is left of a file that was deleted.
use custom_file_operation_pr.Prelude.{
  ℕ, if◌then◌else◌, ◌≡◌, refl, ◌∙◌, ap, Bool, true, false, none, some, [], ◌∷◌, Text, Bytes,
  text_eq, join_path, Bool-cases, Option-cases, List-cases, inl, inr, arith,
}
use custom_file_operation_pr.Prelude.Dict.{
  Dict, lookup, lookup-insert_ne, lookup-insert_self, lookup-erase_self,
}
use custom_file_operation_pr.Prelude.Action.{
  ok, err, pure, raise, bind-ok, bind-err, catch, catch-ok, catch-err,
}
use custom_file_operation_pr.Errors.{Exception, os_error, file_not_found_error}
use custom_file_operation_pr.Files.Disk.{Disk, is_refused, called, remove_path, change_file}
use custom_file_operation_pr.Files.Buffers.{
  Writer, close_writer, close_all, FileState, is_marked, marked_in, set_disk, relocate,
  purge_buffers, get_buffer, writers_of, flush_pending,
}
use custom_file_operation_pr.Files.Calls.{
  FileOp, os_call, os_call-allowed, os_call-refused, is_gone, is_os_error,
}
use custom_file_operation_pr.Files.Reading.{read_file}
use custom_file_operation_pr.Files.Writing.{write_file, append_file}
use custom_file_operation_pr.Files.Tree.{
  delete_file, remove_from_disk, forget_file, is_deleted, create_file,
}
use custom_file_operation_pr.Files.Views.{content}

-- A writer that closes brings no file back.
close_writer-none :
    (path : Text) (w : Writer) (d : Disk)
    → lookup path d.files ≡ none
    → lookup path (close_writer w d).files ≡ none
unfolding close_writer
close_writer-none path w d h = elim (List-cases w.pending) [
  | inl quiet ↦ rw quiet h
  | inr (b, bs, e) ↦ elim (Option-cases (lookup w.path d.files)) [
    | inl missing ↦ ground (arith)
    | inr (old, held) ↦
        rw (e, flush_pending, change_file, held)
          (lookup-insert_ne w.path path _ d.files (λ same. cc) ∙ h)
  ]
]

close_all-none :
    (path : Text) (writers : Dict Writer) (d : Disk)
    → lookup path d.files ≡ none
    → lookup path (close_all writers d).files ≡ none
unfolding close_all
close_all-none path [] d h = h
close_all-none path ((identifier, w) ∷ writers) d h =
    close_all-none path writers (close_writer w d) (close_writer-none path w d h)

abbrev forgotten : Text → Text → Text
forgotten path p = if text_eq p path then [] else p

-- The state after a deletion that answers true.
abbrev deleted : (root fpath : Text) → FileState → FileState
deleted root fpath s = purge_buffers fpath (
    relocate (forgotten (join_path root fpath))
      (set_disk (remove_path (join_path root fpath) (called s.disk)) s))

remove_from_disk-allowed :
    (root fpath : Text) (s : FileState)
    → is_refused s.disk ≡ false
    → remove_from_disk root fpath true s ≡ (ok true, deleted root fpath s)
remove_from_disk-allowed root fpath s calm =
    bind-ok os_call (λ _. forget_file root fpath true) (os_call-allowed s calm)

remove_from_disk-refused :
    (root fpath : Text) (s : FileState)
    → is_refused s.disk ≡ true
    → remove_from_disk root fpath true s ≡ (err os_error, set_disk (called s.disk) s)
remove_from_disk-refused root fpath s stop =
    bind-err os_call (λ _. forget_file root fpath true) (os_call-refused s stop)

abbrev except_os : FileOp Bool → FileOp Bool
except_os m = catch m (λ e. if is_os_error e then pure false else raise e)

delete_file-run :
    (root fpath : Text) (s : FileState)
    → (delete_file root fpath true s).0 ≡ ok true
    → (delete_file root fpath true s).1 ≡ deleted root fpath s
unfolding delete_file
delete_file-run root fpath s =
    let handler : Exception → FileOp Bool = λ e. if is_os_error e then pure false else raise e in
    elim (Bool-cases (is_deleted root fpath s)) [
      | inl gone ↦ rw gone (λ h. cc)
      | inr here ↦ elim (Bool-cases (is_refused s.disk)) [
        | inl stop ↦
            rw
              (
                here,
                catch-err (remove_from_disk root fpath true) handler
                    (remove_from_disk-refused root fpath s stop),
              )
              (λ h. cc)
        | inr calm ↦
            rw
              (
                here,
                catch-ok (remove_from_disk root fpath true) handler
                    (remove_from_disk-allowed root fpath s calm),
              )
              (λ h. refl)
      ]
    ]

is_gone-marked :
    (root fpath : Text) (s : FileState) → is_marked fpath s ≡ true → is_gone root fpath s ≡ true
unfolding is_gone
is_gone-marked root fpath s h = rw h refl

-- `create_file` does not look at the marks.
create_file-deleted_cache :
    (lower : Text → Text) (root owner filename : Text) (s : FileState)
    → (create_file lower root owner filename s).1.deleted_cache ≡ s.deleted_cache
unfolding create_file os_call
create_file-deleted_cache lower root owner filename s = ground arith

-- Nobody reads or writes: each of the three operations raises, and changes nothing.
abbrev pub Shut : (root fpath : Text) → FileState → Type 0
Shut root fpath s =
    ((identifier : Text) (position nbytes : ℕ) (keepalive purge : Bool)
      → read_file root fpath identifier position nbytes keepalive purge s
        ≡ (err file_not_found_error, s))
    × ((new : Bytes) (identifier : Text) (position : ℕ) (truncate keepalive purge : Bool)
        → write_file root fpath new identifier position truncate keepalive purge s
          ≡ (err file_not_found_error, s))
    × ((new : Bytes) (identifier : Text) (keepalive purge writer_cached : Bool)
        → append_file root fpath new identifier keepalive purge writer_cached s
          ≡ (err file_not_found_error, s))

marked-Shut : (root fpath : Text) (s : FileState) → is_marked fpath s ≡ true → Shut root fpath s
unfolding read_file write_file append_file
marked-Shut root fpath s h =
    let gone = is_gone-marked root fpath s h in
    (
      λ identifier position nbytes keepalive purge. rw gone refl,
      λ new identifier position truncate keepalive purge. rw gone refl,
      λ new identifier keepalive purge writer_cached. rw gone refl,
    )

-- A deletion that answers true: the file is gone from the disk, no cache has a reader or a writer of
-- any user for it, and no read, write or append of it goes through. That stays so when a file is
-- created right after it, under the same path too.
pub delete_file-Shut :
    (root fpath : Text) (lower : Text → Text) (owner filename : Text) (s : FileState)
    → (delete_file root fpath true s).0 ≡ ok true
    → let s' = (delete_file root fpath true s).1 in
      (content s' (join_path root fpath) ≡ none)
      × ((identifier : Text) → get_buffer s'.read_cache fpath identifier ≡ none)
      × ((identifier : Text) → get_buffer s'.amendment_cache fpath identifier ≡ none)
      × Shut root fpath s'
      × Shut root fpath (create_file lower root owner filename s').1
unfolding purge_buffers get_buffer
delete_file-Shut root fpath lower owner filename s h =
    let path = join_path root fpath in
    let s' = deleted root fpath s in
    let before = relocate (forgotten path) (set_disk (remove_path path (called s.disk)) s) in
    let marked : is_marked fpath s' ≡ true =
      ap (λ o. elim o [ none ↦ false | some b ↦ b ])
        (lookup-insert_self fpath true s.deleted_cache) in
    let still : is_marked fpath (create_file lower root owner filename s').1 ≡ true =
      ap (marked_in fpath) (create_file-deleted_cache lower root owner filename s') ∙ marked in
    rw (delete_file-run root fpath s h) (
      close_all-none path (writers_of (lookup fpath before.amendment_cache)) before.disk
          (lookup-erase_self path s.disk.files),
      λ identifier.
          ap (λ o. elim o [ none ↦ none | some buffers ↦ lookup identifier buffers ])
            (lookup-erase_self fpath s.read_cache),
      λ identifier.
          ap (λ o. elim o [ none ↦ none | some buffers ↦ lookup identifier buffers ])
            (lookup-erase_self fpath before.amendment_cache),
      marked-Shut root fpath s' marked,
      marked-Shut root fpath _ still,
    )
