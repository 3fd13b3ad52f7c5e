-- ===== src/Files/Permitted.antt =====
-- Who a handler of files works for.
use custom_file_operation_pr.Prelude.{
  ℕ, ◌≡◌, refl, ap, Bool, false, ◌&&◌, ◌||◌, any, none, some, Text, Bytes, Option-cases, inl, inr,
  arith,
}
use custom_file_operation_pr.Prelude.Int.{ℤ}
use custom_file_operation_pr.Prelude.Dict.{Dict}
use custom_file_operation_pr.Prelude.Action.{err, ◌>>=◌, Result-cases, bind-err}
use custom_file_operation_pr.Models.Request.{
  BaseHeaderComponent, BaseAuthComponent, BaseFileComponent,
}
use custom_file_operation_pr.Models.Responses.{ServerConfig}
use custom_file_operation_pr.Models.Roles.{FilePermissions}
use custom_file_operation_pr.Database.Tables.{Tables}
use custom_file_operation_pr.Database.Backend.{moderate, execute}
use custom_file_operation_pr.Database.Queries.{
  permits, check_file_existence, get_file_data, check_file_permission,
}
use custom_file_operation_pr.Database.Statements.{find, is_file}
use custom_file_operation_pr.Errors.{Exception}
use custom_file_operation_pr.Files.State.{FileServer, Handler, with_proxy}
use custom_file_operation_pr.Files.Handlers.{check_readable, handle_read, read_chunk, answer_read}
use custom_file_operation_pr.Files.Amendment.{
  write_data_of, check_amendable, amend_file, handle_amendment,
}

-- The call raises, and leaves the disk, the open files and the locks as they were.
abbrev pub Refused : {A : Type 0} → Handler A → FileServer → Type 0
Refused m s = ((x : Exception) × ((m s).0 ≡ err x)) × ((m s).1.files ≡ s.files)

-- A call that is refused at its start is refused.
Refused-bind :
    {A B : Type 0} (m : Handler A) (f : A → Handler B) (s : FileServer)
    → Refused m s
    → Refused (m >>= f) s
Refused-bind m f s ((x, e), same) = rw (bind-err m f (ap (λ r. (r, (m s).1)) e)) ((x, refl), same)

module _ (header : BaseHeaderComponent) (auth : BaseAuthComponent) (file : BaseFileComponent)
    (config : ServerConfig) where
  abbrev check_read : Handler (Unit {0})
  check_read = with_proxy moderate (check_readable header auth file config)

  -- `MayRead` as a test.
  abbrev pub may_read : Tables → Bool
  may_read t = elim (find (is_file file.subject_file_owner file.subject_file) t.files) [
    | none ↦ false
    | some row ↦
        row.public
        || permits file.subject_file file.subject_file_owner auth.identity FilePermissions.read
            header.sender_timestamp t
  ]

  check_read-Refused :
      (s : FileServer) → may_read s.storage.backend.tables ≡ false → Refused check_read s
  unfolding check_readable get_file_data check_file_permission execute
  check_read-Refused s h = elim (Result-cases (check_read s).0) [
    | inl (u, e) ↦
        elim (Option-cases (
          find (is_file file.subject_file_owner file.subject_file)
            s.storage.backend.tables.files)) [
              | inl missing ↦ absurd (ground arith)
              | inr (row, found) ↦ absurd (ground arith)
            ]
    | inr (x, e) ↦ ((x, e), ground arith)
  ]

  -- Whatever the database and the disk do, a request to read a file that the tables do not know, or
  -- that is not public and that the user may not read at the time of the request, raises, and leaves
  -- the disk, the open files and the locks as they were.
  pub handle_read-Refused :
      (s : FileServer)
      → may_read s.storage.backend.tables ≡ false
      → Refused (handle_read header auth file config) s
  unfolding handle_read
  handle_read-Refused s h =
      Refused-bind check_read
        (λ _. read_chunk header auth file config >>= answer_read header auth file config) s
        (check_read-Refused s h)

  abbrev pub may_write : Tables → Bool
  may_write t =
      any (is_file file.subject_file_owner file.subject_file) t.files
      && permits file.subject_file file.subject_file_owner auth.identity FilePermissions.write
          header.sender_timestamp t

  abbrev check_amend : Bytes → Handler ℤ
  check_amend new = with_proxy moderate (check_amendable header auth file config new)

  check_amend-Refused :
      (new : Bytes) (s : FileServer)
      → may_write s.storage.backend.tables ≡ false
      → Refused (check_amend new) s
  unfolding check_amendable check_file_existence check_file_permission execute
  check_amend-Refused new s h = elim (Result-cases (check_amend new s).0) [
    | inl (u, e) ↦ absurd (ground arith)
    | inr (x, e) ↦ ((x, e), ground arith)
  ]

  -- Whatever the database, the disk and the other tasks do, a request to amend a file that the tables
  -- do not know, or that the user may not write at the time of the request, raises, and leaves the
  -- disk, the open files and the locks as they were.
  pub handle_amendment-Refused :
      (patience : ℕ) (others : ℕ → Dict Text → Dict Text) (s : FileServer)
      → may_write s.storage.backend.tables ≡ false
      → Refused (handle_amendment header auth file config patience others) s
  unfolding handle_amendment
  handle_amendment-Refused patience others s h = elim (Option-cases (write_data_of file)) [
    | inl nothing ↦ rw nothing ((_, refl), refl)
    | inr (new, given) ↦ rw given (
        Refused-bind (check_amend new) (amend_file header auth file config patience others new) s
          (check_amend-Refused new s h))
  ]
