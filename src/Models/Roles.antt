-- ===== src/Models/Roles.antt =====
-- The roles that a user can hold on a file and what each permits (models/permissions.py,
-- server/database/models.py).
use custom_file_operation_pr.Prelude.{
  ℕ, ◌==◌, if◌then◌else◌, Bool, true, false, Option, none, some, List, [], ◌∷◌, any,
}
use custom_file_operation_pr.Models.Flags.{reader_bit, editor_bit, manager_bit}

pub data RoleTypes : Type 0 where
  owner manager reader editor : RoleTypes

pub data FilePermissions : Type 0 where
  write read delete manage_super manage_rw : FilePermissions

-- `==` on the members of either enumeration.
abbrev pub role_eq : RoleTypes → RoleTypes → Bool
role_eq RoleTypes.owner RoleTypes.owner = true
role_eq RoleTypes.manager RoleTypes.manager = true
role_eq RoleTypes.reader RoleTypes.reader = true
role_eq RoleTypes.editor RoleTypes.editor = true
role_eq _ _ = false

abbrev pub permission_eq : FilePermissions → FilePermissions → Bool
permission_eq write write = true
permission_eq read read = true
permission_eq delete delete = true
permission_eq manage_super manage_super = true
permission_eq manage_rw manage_rw = true
permission_eq _ _ = false

-- `ROLE_MAPPING`, a dict keyed by permission flags
unfoldable pub role_mapping : ℕ → Option RoleTypes
role_mapping bits =
    if bits == reader_bit
    then some RoleTypes.reader
    else if bits == editor_bit
    then some RoleTypes.editor
    else if bits == manager_bit
    then some RoleTypes.manager
    else none

-- `ROLE_PERMISSION_MAPPING`
unfoldable pub role_permission_mapping : RoleTypes → List FilePermissions
role_permission_mapping RoleTypes.reader = read ∷ []
role_permission_mapping RoleTypes.editor = read ∷ write ∷ []
role_permission_mapping RoleTypes.manager = read ∷ write ∷ manage_rw ∷ []
role_permission_mapping RoleTypes.owner = read ∷ write ∷ manage_rw ∷ manage_super ∷ delete ∷ []

-- The rows (role, permission) of the table `roles` for one role and one permission.
unfoldable pub role_permits : RoleTypes → FilePermissions → Bool
unfolding role_permission_mapping
role_permits r p = any (permission_eq p) (role_permission_mapping r)
