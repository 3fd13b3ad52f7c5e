-- ===== src/Access/Grant.antt =====
-- `grant_permission`. `now` is what `datetime.now()` and `time.time()` return in the call.
use custom_file_operation_pr.Prelude.{
  ℕ, ◌+◌, ◌==◌, if◌then◌else◌, not, false, ◌&&◌, Option, none, some, Text, text_eq, Bool, is_some,
}
use Prim.Native.Nat.{bit_and}
use custom_file_operation_pr.Prelude.Action.{
  ok, err, ◌>>=◌, ◌>>◌, pure, or_raise, raise_if, raise_unless, catch,
}
use custom_file_operation_pr.Errors.{
  syntax_error, key_error, assertion_error, insufficient_permissions, user_not_found,
  operational_conflict,
}
use custom_file_operation_pr.Models.Flags.{has_flag, manager_bit, role_extraction_bitmask}
use custom_file_operation_pr.Models.Roles.{
  RoleTypes, FilePermissions, manage_rw, manage_super, role_eq, role_mapping,
}
use custom_file_operation_pr.Models.Request.{
  BaseHeaderComponent, BaseAuthComponent, BasePermissionComponent,
}
use custom_file_operation_pr.Models.Responses.{
  ServerConfig, ResponseHeader, from_server, successful_grant,
}
use custom_file_operation_pr.Database.Tables.{Tables, PermissionRow}
use custom_file_operation_pr.Database.Backend.{Db, moderate, commit, execute, with_connection}
use custom_file_operation_pr.Database.Statements.{find, is_grant, later_than, insert_permission}
use custom_file_operation_pr.Database.Queries.{check_file_permission, get_user}
use custom_file_operation_pr.Access.Errors.{pg_except}

-- Only the owner may make a manager.
abbrev pub allowed_permission : ℕ → FilePermissions
allowed_permission role_bits = if has_flag role_bits manager_bit then manage_super else manage_rw

-- `None if not effect_duration else now + effect_duration`
abbrev pub granted_until : ℕ → Option ℕ → Option ℕ
granted_until now none = none
granted_until now (some d) = if d == 0 then none else some (now + d)

-- `SELECT role, granted_by ... AND granted_until > %s FOR UPDATE NOWAIT`
abbrev pub find_grant : Text → Text → Text → ℕ → Tables → Option PermissionRow
find_grant owner file user now t =
    find (λ r. is_grant owner file user r && later_than now r.granted_until) t.file_permissions

abbrev pub select_grant : Text → Text → Text → ℕ → Db (Option PermissionRow)
select_grant owner file user now = execute (λ t. ok (t, find_grant owner file user now t))

-- `granted_by = x` for a column that may be NULL.
abbrev pub granted_by_is : Text → PermissionRow → Bool
granted_by_is x r = elim r.granted_by [ none ↦ false | some y ↦ text_eq y x ]

-- The `UPDATE` of an existing role: the comma before its `WHERE` is a syntax error.
abbrev pub update_role : Db (Unit {0})
update_role = execute (λ t. err syntax_error)

-- The branch on an existing row, and the one on a new role.
abbrev pub override_role : (identity owner : Text) → RoleTypes → PermissionRow → Db (Unit {0})
override_role identity owner role row = do
  raise_if (role_eq role row.role) operational_conflict
  raise_if (granted_by_is owner row && not (text_eq identity owner)) insufficient_permissions
  update_role

abbrev pub add_role : PermissionRow → Db (Unit {0})
add_role row = do
  user ← get_user row.grantee
  raise_unless (is_some user) user_not_found
  execute (insert_permission row)

abbrev pub write_role :
    (identity owner : Text) → PermissionRow → Option PermissionRow → Db (Unit {0})
write_role identity owner row none = add_role row
write_role identity owner row (some old) = override_role identity owner row.role old

abbrev pub new_row :
    BaseHeaderComponent
    → BaseAuthComponent
    → BasePermissionComponent
    → RoleTypes
    → Text
    → ℕ
    → PermissionRow
new_row header auth permission role user now = record {
  file_owner = permission.subject_file_owner;
  filename = permission.subject_file;
  grantee = user;
  role = role;
  granted_at = header.sender_timestamp;
  granted_by = some auth.identity;
  granted_until = granted_until now permission.effect_duration;
}

abbrev pub grant_body :
    BaseHeaderComponent
    → BaseAuthComponent
    → BasePermissionComponent
    → RoleTypes
    → ℕ
    → Db (Unit {0})
grant_body header auth permission role now = do
  let owner = permission.subject_file_owner
  let file = permission.subject_file
  allowed ←
      check_file_permission file owner auth.identity
        (allowed_permission (bit_and header.subcategory role_extraction_bitmask))
        header.sender_timestamp
  raise_unless allowed insufficient_permissions
  user ← or_raise assertion_error permission.subject_user
  found ← get_user user
  raise_unless (is_some found) user_not_found
  old ← select_grant owner file user now
  write_role auth.identity owner (new_row header auth permission role user now) old
  commit

unfoldable pub grant_permission :
    BaseHeaderComponent
    → BaseAuthComponent
    → BasePermissionComponent
    → ServerConfig
    → ℕ
    → Db ResponseHeader
grant_permission header auth permission config now = do
  -- `ROLE_MAPPING[...]` raises a `KeyError`, which the `except ValueError` lets through
  role ← or_raise key_error (role_mapping (bit_and header.subcategory role_extraction_bitmask))
  with_connection moderate (catch (grant_body header auth permission role now) (pg_except none))
  pure (from_server config successful_grant (some header.version) header.finish)
