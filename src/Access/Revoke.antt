-- ===== src/Access/Revoke.antt =====
-- `revoke_permission`. `now` is what `datetime.now()` returns in the call.
use custom_file_operation_pr.Prelude.{
  ℕ, if◌then◌else◌, not, ◌&&◌, ◌||◌, false, Bool, none, some, text_eq,
}
use custom_file_operation_pr.Prelude.Action.{
  ok, ◌>>=◌, ◌>>◌, pure, or_raise, raise_if, raise_unless, catch,
}
use custom_file_operation_pr.Errors.{insufficient_permissions, operational_conflict}
use custom_file_operation_pr.Models.Roles.{
  RoleTypes, manager, FilePermissions, manage_rw, manage_super, role_eq,
}
use custom_file_operation_pr.Models.Request.{
  BaseHeaderComponent, BaseAuthComponent, BasePermissionComponent,
}
use custom_file_operation_pr.Models.Responses.{
  ServerConfig, ResponseHeader, from_server, successful_revoke,
}
use custom_file_operation_pr.Database.Tables.{Tables, PermissionRow}
use custom_file_operation_pr.Database.Backend.{Db, moderate, commit, execute, with_connection}
use custom_file_operation_pr.Database.Statements.{find, is_grant, later_than, is_null, delete_where}
use custom_file_operation_pr.Database.Queries.{check_file_permission}
use custom_file_operation_pr.Access.Errors.{pg_except}
use custom_file_operation_pr.Access.Grant.{granted_by_is}

-- The subject of a request that names none is NULL in SQL, which equals no grantee.
abbrev pub is_subject : BasePermissionComponent → PermissionRow → Bool
is_subject permission r = elim permission.subject_user [
  | none ↦ false
  | some user ↦ is_grant permission.subject_file_owner permission.subject_file user r
]

abbrev pub is_live : BasePermissionComponent → ℕ → PermissionRow → Bool
is_live permission now r =
    is_subject permission r && (later_than now r.granted_until || is_null r.granted_until)

-- Only the owner may unmake a manager.
abbrev pub check_permission : RoleTypes → FilePermissions
check_permission role = if role_eq role manager then manage_super else manage_rw

-- `DELETE FROM file_permissions WHERE file_owner = %s AND filename = %s AND grantee = %s`
abbrev pub delete_grants : BasePermissionComponent → Tables → Tables
delete_grants permission t = record t {
  file_permissions = delete_where (is_subject permission) t.file_permissions;
}

abbrev pub revoke_body :
    BaseHeaderComponent → BaseAuthComponent → BasePermissionComponent → ℕ → Db PermissionRow
revoke_body header auth permission now = do
  let owner = permission.subject_file_owner
  mapping ← execute (λ t. ok (t, find (is_live permission now) t.file_permissions))
  row ← or_raise operational_conflict mapping
  raise_if (granted_by_is owner row && not (text_eq auth.identity owner)) insufficient_permissions
  allowed ←
      check_file_permission permission.subject_file owner auth.identity (check_permission row.role)
        header.sender_timestamp
  raise_unless allowed insufficient_permissions
  execute (λ t. ok (delete_grants permission t, tt))
  commit
  pure row

-- The response's body carries the revoked row.
unfoldable pub revoke_permission :
    BaseHeaderComponent
    → BaseAuthComponent
    → BasePermissionComponent
    → ServerConfig
    → ℕ
    → Db (ResponseHeader × PermissionRow)
revoke_permission header auth permission config now = with_connection moderate (
    catch (revoke_body header auth permission now) (pg_except none) >>= λ row.
    pure (from_server config successful_revoke (some header.version) header.finish, row))
