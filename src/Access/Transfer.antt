-- ===== src/Access/Transfer.antt =====
-- `transfer_ownership` of server/permission_ops/permission_subhandlers.py. `late` and `late_back` say
-- whether the thread that moves the file, and the one that moves it back, go on past the timeout.
use custom_file_operation_pr.Prelude.{
  ℕ, if◌then◌else◌, Bool, false, not, ◌&&◌, ◌||◌, Option, none, some, select, Text, text_eq,
  is_some, any, length, ltb, join_path,
}
use custom_file_operation_pr.Prelude.Action.{
  Result, ok, err, ◌>>=◌, ◌>>◌, pure, raise, or_raise, raise_if, raise_unless, catch,
}
use custom_file_operation_pr.Errors.{
  Exception, PgError, insufficient_permissions, operational_conflict, assertion_error,
  user_not_found, timeout_error, file_conflict, unique_violation, foreign_key_violation,
}
use custom_file_operation_pr.Models.Roles.{RoleTypes, FilePermissions}
use custom_file_operation_pr.Models.Request.{
  BaseHeaderComponent, BaseAuthComponent, BasePermissionComponent, truthy,
}
use custom_file_operation_pr.Models.Responses.{
  ServerConfig, ResponseHeader, from_server, successful_ownership_transfer,
}
use custom_file_operation_pr.Database.Tables.{Tables, FileRow, PermissionRow, trace, permission}
use custom_file_operation_pr.Database.Backend.{moderate, execute}
use custom_file_operation_pr.Database.Queries.{check_file_permission, get_user}
use custom_file_operation_pr.Database.Statements.{
  is_file, is_grant, has_user, update_where, delete_where, insert_permission,
}
use custom_file_operation_pr.Access.Errors.{pg_except}
use custom_file_operation_pr.Files.Tree.{transfer_file}
use custom_file_operation_pr.Files.State.{Handler, on_db, on_files, with_proxy, enqueue}
use custom_file_operation_pr.Files.Handlers.{of_file}

-- The key that a file's row gets, and the permissions on it through `ON UPDATE CASCADE`
abbrev pub rekey_file : (owner filename : Text) → FileRow → FileRow
rekey_file owner filename r = record r { owner = owner; filename = filename }

abbrev pub rekey_permission : (owner filename : Text) → PermissionRow → PermissionRow
rekey_permission owner filename r = record r { file_owner = owner; filename = filename }

-- `UPDATE files SET filename = %s, owner = %s WHERE filename = %s AND owner = %s`
unfoldable pub rename_file_row :
    (owner filename new_owner new_name : Text) → Tables → Result PgError (Tables × Unit {0})
rename_file_row owner filename new_owner new_name t =
    if not (any (is_file owner filename) t.files)
    then ok (t, tt)
    else if any (is_file new_owner new_name) (delete_where (is_file owner filename) t.files)
    then err unique_violation
    else if has_user new_owner t
    then ok (
      record t {
        files = update_where (is_file owner filename) (rekey_file new_owner new_name) t.files;
        file_permissions =
            update_where (of_file owner filename) (rekey_permission new_owner new_name)
              t.file_permissions;
      },
      tt,
    )
    else err foreign_key_violation

-- `UPDATE file_permissions SET file_owner = %s, filename = %s, grantee = %s WHERE file_owner = %s AND
-- filename = %s`: two rows cannot get the same key.
unfoldable pub regrant_rows :
    (owner filename new_owner new_name grantee : Text) → Tables → Result PgError (Tables × Unit {0})
regrant_rows owner filename new_owner new_name grantee t =
    let matching = select (of_file owner filename) t.file_permissions in
    if ltb 1 (length matching)
      || any (λ r. ltb 0 (length matching) && is_grant new_owner new_name grantee r)
          (delete_where (of_file owner filename) t.file_permissions)
    then err unique_violation
    else if ltb (length matching) 1
        || any (is_file new_owner new_name) t.files && has_user grantee t
    then ok (
      record t {
        file_permissions =
            update_where (of_file owner filename)
              (λ r. record r { file_owner = new_owner; filename = new_name; grantee = grantee })
              t.file_permissions;
      },
      tt,
    )
    else err foreign_key_violation

module _ (header : BaseHeaderComponent) (auth : BaseAuthComponent)
    (subject : BasePermissionComponent) (config : ServerConfig) where
  abbrev pub check_transfer : (user : Text) → (now : ℕ) → Handler (Unit {0})
  check_transfer user now = do
    allowed ← on_db (
        check_file_permission subject.subject_file auth.identity auth.identity
          FilePermissions.manage_super now)
    if allowed then pure tt else (enqueue trace permission none >> raise insufficient_permissions)
    found ← on_db (get_user user)
    raise_unless (is_some found) user_not_found
    on_db (execute (λ t. ok (t, tt)))

  abbrev pub manager_row : (user new_fname : Text) → (now : ℕ) → PermissionRow
  manager_row user new_fname now = record {
    file_owner = user;
    filename = new_fname;
    grantee = user;
    role = RoleTypes.manager;
    granted_at = now;
    granted_by = some user;
    granted_until = none;
  }

  abbrev pub transfer_rows : (user new_fname : Text) → (now : ℕ) → Handler (Unit {0})
  transfer_rows user new_fname now = do
    on_db (execute (rename_file_row auth.identity subject.subject_file user new_fname))
    on_db (execute (regrant_rows auth.identity subject.subject_file user new_fname auth.identity))
    on_db (execute (insert_permission (manager_row user new_fname now)))

  -- The file is moved back; what `transfer_file` answers is not looked at.
  abbrev pub move_back :
      (user new_fname fresh : Text) → (late_back : Bool) → Exception → Handler (Unit {0})
  move_back user new_fname fresh late_back e = do
    on_files (
        transfer_file config.files_directory user new_fname subject.subject_file_owner
          (some subject.subject_file) fresh)
    raise_if late_back timeout_error
    raise e

  -- `new_fname`
  abbrev pub moved_name : Option Text → Option Text
  moved_name name = if truthy name then name else none

  abbrev pub transfer_body :
      (user fresh fresh' : Text) → (late late_back : Bool) → (now : ℕ) → Handler Text
  transfer_body user fresh fresh' late late_back now = do
    check_transfer user now
    moved ← on_files (
        transfer_file config.files_directory subject.subject_file_owner subject.subject_file user
          none fresh)
    raise_if late timeout_error
    new_fname ← or_raise file_conflict (moved_name moved)
    catch (transfer_rows user new_fname now) (move_back user new_fname fresh' late_back)
    pure new_fname

  -- `fresh` and `fresh'` are the identifiers that the two moves may draw. The answer is the path
  -- before and after.
  unfoldable pub transfer_ownership :
      (fresh fresh' : Text)
      → (late late_back : Bool) → (now : ℕ) → Handler (ResponseHeader × (Text × Text))
  unfolding rename_file_row regrant_rows
  transfer_ownership fresh fresh' late late_back now = do
    raise_unless (text_eq auth.identity subject.subject_file_owner) insufficient_permissions
    raise_if
        (elim subject.subject_user [ none ↦ false | some u ↦ text_eq subject.subject_file_owner u ])
        operational_conflict
    user ← or_raise assertion_error (moved_name subject.subject_user)
    new_fname ←
        with_proxy moderate (
          catch (transfer_body user fresh fresh' late late_back now)
            (λ e. on_db (pg_except none e)))
    pure (
      from_server config successful_ownership_transfer (some header.version) header.finish,
      (join_path subject.subject_file_owner subject.subject_file, join_path user new_fname),
    )
