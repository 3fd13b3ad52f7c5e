-- ===== src/Tests/Access.antt =====
-- The permission handlers on one file.
use custom_file_operation_pr.Database.Statements.{is_file}
use custom_file_operation_pr.Access.Transfer.{rename_file_row, regrant_rows, transfer_rows}
use custom_file_operation_pr.Access.Transferred.{transfer_rows-permits}
use custom_file_operation_pr.Tests.Files.{server}
use custom_file_operation_pr.Prelude.{
  any, ℕ, ◌≡◌, ◌≢◌, refl, true, false, some, [], ◌∷◌, text_eq, arith,
}
use mathlib.Core.Logic.{◌≢◌}
use custom_file_operation_pr.Prelude.Action.{ok}
use custom_file_operation_pr.Models.Roles.{
  RoleTypes, FilePermissions, role_mapping, role_permits, role_permission_mapping,
}
use custom_file_operation_pr.Models.Responses.{from_server, successful_grant, successful_revoke}
use custom_file_operation_pr.Database.Tables.{Tables, PermissionRow}
use custom_file_operation_pr.Database.Backend.{Backend, execute, with_connection}
use custom_file_operation_pr.Database.Statements.{find, update_where, delete_where}
use custom_file_operation_pr.Database.Queries.{check_file_permission, get_user, permits}
use custom_file_operation_pr.Access.Grant.{grant_permission, new_row}
use custom_file_operation_pr.Access.Revoke.{revoke_permission}
use custom_file_operation_pr.Access.Rights.{
  Granted, Revoked, grant_permission-Granted, revoke_permission-Revoked,
}
use custom_file_operation_pr.Tests.Fixtures.{
  alice, bob, notes, tables, backend, header, by_alice, for_bob, config, owner_row,
}

-- The row that a grant to bob adds, and the tables and back end after it.
abbrev bobs_row : PermissionRow
bobs_row = new_row header by_alice for_bob RoleTypes.reader bob 20

abbrev shared : Tables
shared = record tables { file_permissions = owner_row ∷ bobs_row ∷ [] }

abbrev sharing : Backend
sharing = record backend { tables = shared }

grant_permission_runs :
    (grant_permission header by_alice for_bob config 20 backend).0
    ≡ ok (from_server config successful_grant (some header.version) header.finish)
unfolding grant_permission execute with_connection find check_file_permission get_user text_eq
    role_mapping role_permits role_permission_mapping
grant_permission_runs = refl

grant_permission_tables :
    (grant_permission header by_alice for_bob config 20 backend).1.tables ≡ shared
unfolding grant_permission execute with_connection find check_file_permission get_user text_eq
    role_mapping role_permits role_permission_mapping
grant_permission_tables = refl

grant_permission-Granted_example :
    (role : RoleTypes) × (role_mapping 0b00100000 ≡ some role)
    × Granted header by_alice for_bob 20 role tables
        (grant_permission header by_alice for_bob config 20 backend).1.tables
grant_permission-Granted_example =
    grant_permission-Granted header by_alice for_bob config 20 backend grant_permission_runs

revoke_permission_runs :
    (revoke_permission header by_alice for_bob config 30 sharing).0
    ≡ ok (from_server config successful_revoke (some header.version) header.finish, bobs_row)
unfolding revoke_permission execute with_connection find delete_where check_file_permission text_eq
    role_permits role_permission_mapping
revoke_permission_runs = refl

revoke_permission-Revoked_example :
    Revoked header by_alice for_bob 30 shared bobs_row
      (revoke_permission header by_alice for_bob config 30 sharing).1.tables
revoke_permission-Revoked_example =
    revoke_permission-Revoked header by_alice for_bob config 30 sharing revoke_permission_runs

alice-ne-bob : bob ≢ alice
alice-ne-bob = ground arith

bob_is_not_alice : text_eq bob alice ≡ false
unfolding text_eq
bob_is_not_alice = refl

notes_known : any (is_file alice notes) server.storage.backend.tables.files ≡ true
unfolding text_eq
notes_known = refl

transfer_rows_runs : (transfer_rows header by_alice for_bob config bob notes 3 server).0 ≡ ok tt
unfolding execute rename_file_row regrant_rows update_where delete_where text_eq
transfer_rows_runs = refl

transfer_rows-permits_example :
    let t = server.storage.backend.tables in
    let t' =
      (transfer_rows header by_alice for_bob config bob notes 3 server).1.storage.backend.tables in
    ((p : FilePermissions) (until : ℕ)
      → permits notes alice alice p until t ≡ true
      → permits notes bob alice p until t' ≡ true)
    × ((p : FilePermissions) (until : ℕ)
        → role_permits RoleTypes.manager p ≡ true
        → permits notes bob bob p until t' ≡ true)
transfer_rows-permits_example =
    transfer_rows-permits header by_alice for_bob config bob notes 3 server notes_known
      bob_is_not_alice transfer_rows_runs
