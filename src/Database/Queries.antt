-- ===== src/Database/Queries.antt =====
-- The queries that the handlers share (server/database/utils.py). Each runs on the connection that
-- its caller holds; the keyword arguments that no handler passes are left out.
use custom_file_operation_pr.Prelude.{ℕ, Bool, ◌&&◌, ◌||◌, Option, any, Text}
use custom_file_operation_pr.Prelude.Action.{ok}
use custom_file_operation_pr.Models.Roles.{FilePermissions, role_permits}
use custom_file_operation_pr.Database.Tables.{Tables, UserRow, FileRow, PermissionRow}
use custom_file_operation_pr.Database.Backend.{Db, execute}
use custom_file_operation_pr.Database.Statements.{
  find, is_user, is_file, is_grant, later_than, is_null,
}

-- A grant of the permission that is not over: `granted_until > %s OR granted_until IS NULL`.
abbrev pub grants : Text → Text → Text → FilePermissions → ℕ → PermissionRow → Bool
grants filename owner grantee check_for until r =
    is_grant owner filename grantee r
    && (later_than until r.granted_until || is_null r.granted_until)
    && role_permits r.role check_for

-- The answer that `check_file_permission` reads off the tables.
abbrev pub permits : Text → Text → Text → FilePermissions → ℕ → Tables → Bool
permits filename owner grantee check_for until t =
    any (grants filename owner grantee check_for until) t.file_permissions

unfoldable pub check_file_permission :
    (filename owner grantee : Text) → FilePermissions → (check_until : ℕ) → Db Bool
unfolding execute
check_file_permission filename owner grantee check_for check_until =
    execute (λ t. ok (t, permits filename owner grantee check_for check_until t))

unfoldable pub get_user : Text → Db (Option UserRow)
unfolding execute find
get_user username = execute (λ t. ok (t, find (is_user username) t.users))

unfoldable pub get_file_data : (filename owner : Text) → Db (Option FileRow)
unfolding execute find
get_file_data filename owner = execute (λ t. ok (t, find (is_file owner filename) t.files))

unfoldable pub check_file_existence : (filename owner : Text) → Db Bool
unfolding execute
check_file_existence filename owner = execute (λ t. ok (t, any (is_file owner filename) t.files))
