-- ===== src/Files/Handlers.antt =====
-- `handle_deletion`, `handle_read` and `handle_creation` of server/file_ops/file_subhandlers.py.
use custom_file_operation_pr.Prelude.{
  ℕ, if◌then◌else◌, Bool, true, false, not, ◌&&◌, Option, none, some, List, [], ◌∷◌, ◌++◌, select,
  Text, Bytes, text_eq, join_path, any,
}
use custom_file_operation_pr.Prelude.Int.{pos, leb_ℤ, ltb_ℤ}
use custom_file_operation_pr.Prelude.Action.{
  Result, ok, err, ◌>>=◌, ◌>>◌, pure, raise, gets, modify, or_raise, raise_if, catch,
}
use custom_file_operation_pr.Errors.{
  PgError, insufficient_permissions, file_not_found, file_conflict, file_operation_forbidden,
  invalid_file_data, unique_violation, foreign_key_violation,
}
use custom_file_operation_pr.Models.Flags.{has_flag, cursor_keepalive}
use custom_file_operation_pr.Models.Roles.{RoleTypes, FilePermissions}
use custom_file_operation_pr.Models.Request.{
  BaseHeaderComponent, BaseAuthComponent, BaseFileComponent,
}
use custom_file_operation_pr.Models.Responses.{
  ServerConfig, ResponseHeader, ResponseBody, from_server, successful_file_creation,
  successful_read, successful_file_deletion,
}
use custom_file_operation_pr.Database.Tables.{
  Tables, PermissionRow, trace, non_critical_failure, info, permission, internal, request,
}
use custom_file_operation_pr.Database.Backend.{moderate, execute}
use custom_file_operation_pr.Database.Queries.{get_file_data, check_file_permission}
use custom_file_operation_pr.Database.Statements.{
  is_file, has_user, delete_where, insert_permission,
}
use custom_file_operation_pr.Storage.Cache.{
  get_storage_data, update_file_count, get_file_size, reflect_removed_file,
}
use custom_file_operation_pr.Files.Buffers.{FileState, remove_buffer}
use custom_file_operation_pr.Files.Reading.{ReadResult, read_file}
use custom_file_operation_pr.Files.Tree.{create_file, delete_file}
use custom_file_operation_pr.Files.State.{
  Handler, on_storage, on_db, on_files, with_proxy, enqueue, require, on_pg_error, set_lock,
  drop_lock, is_locked,
}

-- A row of `file_permissions` for a file.
abbrev pub of_file : (owner filename : Text) → PermissionRow → Bool
of_file owner filename r = text_eq r.file_owner owner && text_eq r.filename filename

-- `DELETE FROM files`, which takes the permissions on the file along
abbrev pub delete_file_row : (owner filename : Text) → Tables → Tables
delete_file_row owner filename t = record t {
  files = delete_where (is_file owner filename) t.files;
  file_permissions = delete_where (of_file owner filename) t.file_permissions;
}

-- `INSERT INTO files`
abbrev pub insert_file_row : (owner filename : Text) → Tables → Result PgError (Tables × Unit {0})
insert_file_row owner filename t =
    if any (is_file owner filename) t.files
    then err unique_violation
    else if has_user owner t
    then ok (
      record t {
        files =
            t.files
            ++ record { filename = filename; owner = owner; file_size = pos 0; public = false }
              ∷ [];
      },
      tt,
    )
    else err foreign_key_violation

abbrev pub position_of : Option ℕ → ℕ
position_of none = 0
position_of (some n) = n

module _ (header : BaseHeaderComponent) (auth : BaseAuthComponent) (file : BaseFileComponent)
    (config : ServerConfig) where
  abbrev pub path_of : Text
  path_of = join_path file.subject_file_owner file.subject_file

  -- The deletion of the rows and of the file, on the connection that the handler holds.
  abbrev pub delete_rows : Text → Handler (List PermissionRow)
  delete_rows fpath = do
    on_db (execute (λ t. ok (t, tt)))
    revoked_info ←
        on_db (
          execute
            (λ t. ok (t, select (of_file auth.identity file.subject_file) t.file_permissions)))
    on_db (execute (λ t. ok (delete_file_row auth.identity file.subject_file t, tt)))
    file_deleted ← on_files (delete_file config.files_directory fpath true)
    if file_deleted
        then pure tt
        else (enqueue non_critical_failure internal (some auth.identity)
            >> raise insufficient_permissions)
    pure revoked_info

  abbrev pub delete_owned : Text → Handler (List PermissionRow)
  delete_owned fpath = do
    file_size ← on_storage (get_file_size auth.identity file.subject_file (some moderate) false)
    catch
        (delete_rows fpath >>= λ revoked.
          on_storage (reflect_removed_file auth.identity file_size (some moderate)) >> pure revoked)
        (on_pg_error (pure tt))

  unfoldable pub handle_deletion : Handler (ResponseHeader × ResponseBody (List PermissionRow))
  handle_deletion = do
    require (text_eq file.subject_file_owner auth.identity) permission (some auth.identity)
        insufficient_permissions
    on_files (set_lock path_of auth.identity)
    revoked_info ← with_proxy moderate (delete_owned path_of)
    on_files (drop_lock path_of)
    enqueue info request (some auth.identity)
    pure (
      from_server config successful_file_deletion (some header.version) header.finish,
      record {
        contents = some revoked_info;
        operation_ended = true;
        cursor_position = 0;
        cursor_keepalive_accepted = false;
      },
    )

  -- A public file is read by everyone.
  unfoldable pub check_readable : Handler (Unit {0})
  check_readable = do
    row ←
        or_raise file_not_found (← on_db (get_file_data file.subject_file file.subject_file_owner))
    allowed ←
        if row.public
        then pure true
        else on_db (
            check_file_permission file.subject_file file.subject_file_owner auth.identity
              FilePermissions.read header.sender_timestamp)
    require allowed permission (some auth.identity) insufficient_permissions

  abbrev pub keepalive : Bool
  keepalive = has_flag file.cursor_bitfield cursor_keepalive

  -- `cursor_killed`
  abbrev pub kill_cursor : Bool → FileState → FileState
  kill_cursor killed s =
      if killed
      then (record s { read_cache = remove_buffer s.read_cache path_of auth.identity })
      else s

  -- The response to what was read.
  abbrev pub answer_read : ReadResult → Handler (ResponseHeader × ResponseBody (Bytes × Bool))
  answer_read (read_data, position, eof_reached) = do
    ongoing_amendment ← gets (λ s. is_locked path_of s.files)
    let cursor_killed = eof_reached && not keepalive
    on_files (modify (kill_cursor cursor_killed))
    pure (
      from_server config successful_read (some header.version) header.finish,
      record {
        contents = some (read_data, ongoing_amendment);
        operation_ended = eof_reached;
        cursor_position = position;
        cursor_keepalive_accepted = not cursor_killed;
      },
    )

  abbrev pub read_chunk : Handler ReadResult
  read_chunk = on_files (
      read_file config.files_directory path_of auth.identity (position_of file.cursor_position)
        file.chunk_size keepalive false)

  unfoldable pub handle_read : Handler (ResponseHeader × ResponseBody (Bytes × Bool))
  handle_read = do with_proxy moderate check_readable; result ← read_chunk; answer_read result

  abbrev pub owner_role : PermissionRow
  owner_role = record {
    file_owner = auth.identity;
    filename = file.subject_file;
    grantee = auth.identity;
    role = RoleTypes.owner;
    granted_at = header.sender_timestamp;
    granted_by = some auth.identity;
    granted_until = none;
  }

  -- The rows of a new file, and the count of the user's files, which is checked again.
  abbrev pub register_rows : Text → Handler (Unit {0})
  register_rows fpath = do
    on_db (execute (insert_file_row auth.identity file.subject_file))
    on_db (execute (insert_permission owner_role))
    new_filecount ←
        on_storage (update_file_count auth.identity file.subject_file (pos 1) (some moderate) false)
    if ltb_ℤ config.user_max_files new_filecount
        then (on_files (delete_file config.files_directory fpath false)
            >> raise file_operation_forbidden)
        else pure tt

  abbrev pub register_file : Text → Handler (Unit {0})
  register_file fpath = with_proxy moderate (
      catch (register_rows fpath) (
        on_pg_error
          (on_files (delete_file config.files_directory file.subject_file false) >> pure tt)))

  abbrev pub register_created : Option Text → Handler Text
  register_created none = enqueue trace internal (some auth.identity) >> raise file_conflict
  register_created (some fpath) = register_file fpath >> pure fpath

  -- The contents are the path; the time of creation is left out.
  unfoldable pub handle_creation :
      (lower : Text → Text) → Handler (ResponseHeader × ResponseBody Text)
  handle_creation lower = do
    require (text_eq file.subject_file_owner auth.identity) permission (some auth.identity)
        invalid_file_data
    found ← on_storage (get_storage_data auth.identity none false)
    raise_if (leb_ℤ config.user_max_files found.filecount) file_operation_forbidden
    created ← on_files (create_file lower config.files_directory auth.identity file.subject_file)
    fpath ← register_created created
    pure (
      from_server config successful_file_creation (some header.version) header.finish,
      record {
        contents = some fpath;
        operation_ended = true;
        cursor_position = 0;
        cursor_keepalive_accepted = false;
      },
    )
