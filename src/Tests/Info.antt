-- ===== src/Tests/Info.antt =====
-- Information requests about one file and its owner's directory.
use custom_file_operation_pr.Prelude.{
  ◌+◌, ◌≡◌, ◌↔◌, refl, true, false, some, [], ◌∷◌, ◌++◌, Text, codes, text_eq, join_path,
}
use custom_file_operation_pr.Prelude.Dict.{lookup, insert}
use custom_file_operation_pr.Prelude.Action.{ok}
use custom_file_operation_pr.Models.Roles.{RoleTypes, role_permits, role_permission_mapping}
use custom_file_operation_pr.Models.Request.{BaseInfoComponent}
use custom_file_operation_pr.Database.Backend.{with_connection, execute}
use custom_file_operation_pr.Database.Queries.{check_file_permission}
use custom_file_operation_pr.Files.Disk.{is_directory, put_file, Disk}
use custom_file_operation_pr.Files.Tree.{below}
use custom_file_operation_pr.Info.Identity.{
  split_slash, derive_file_identity, derive_file_identity_iff, has_slash,
}
use custom_file_operation_pr.Info.Usage.{
  StorageUsage, entry_name, get_local_storage_data, size_of, get_local_storage_data-put_file,
}
use custom_file_operation_pr.Info.Queries.{
  handle_permission_query, by_grantee, query_header, role_only,
}
use custom_file_operation_pr.Info.Grants.{Told, handle_permission_query-Told}
use custom_file_operation_pr.Tests.Fixtures.{alice, notes, header, by_alice, config, backend}

derive_file_identity_iff_example :
    (derive_file_identity (codes "alice/notes") ≡ ok (alice, notes)) ↔ (
      (codes "alice/notes" ≡ alice ++ b'/' ∷ notes)
      × (has_slash alice ≡ false)
      × (has_slash notes ≡ false))
derive_file_identity_iff_example = derive_file_identity_iff (codes "alice/notes") alice notes

abbrev disk : Disk
disk = record {
  files = (codes "files/alice/notes", codes "hello") ∷ [];
  directories = codes "files/alice" ∷ [];
  refusals = [];
}

directory_is_there : is_directory (join_path (codes "files") alice) disk ≡ true
unfolding join_path text_eq
directory_is_there = refl

notes_are_there :
    entry_name (join_path (codes "files") alice) (codes "files/alice/notes") ≡ some notes
unfolding entry_name below join_path
notes_are_there = refl

get_local_storage_data-put_file_example :
    (before : StorageUsage) × (after : StorageUsage) × (get_local_storage_data
        (codes "files")
        alice
        disk
      ≡ ok before)
    × (get_local_storage_data
          (codes "files")
          alice
          (put_file (codes "files/alice/notes") (codes "hi") disk)
        ≡ ok after)
    × (after.storage_used + size_of (lookup (codes "files/alice/notes") disk.files)
        ≡ before.storage_used + 2)
get_local_storage_data-put_file_example =
    get_local_storage_data-put_file (codes "files") alice (codes "files/alice/notes") (codes "hi")
      disk {name = notes} directory_is_there notes_are_there

abbrev about_notes : BaseInfoComponent
about_notes = record { subject_resource = some (codes "alice/notes") }

alice_is_told :
    (handle_permission_query header by_alice config 5 about_notes backend).0
    ≡ ok (query_header header by_alice config 5, (alice, role_only RoleTypes.owner) ∷ [])
unfolding handle_permission_query derive_file_identity split_slash by_grantee check_file_permission
    with_connection execute text_eq role_permits role_permission_mapping insert
alice_is_told = refl

handle_permission_query-Told_example :
    (owner : Text) × (filename : Text) × (some (codes "alice/notes")
      ≡ some (owner ++ b'/' ∷ filename))
    × Told header by_alice config 5 owner filename backend.tables
        (query_header header by_alice config 5, (alice, role_only RoleTypes.owner) ∷ [])
        (handle_permission_query header by_alice config 5 about_notes backend).1.tables
handle_permission_query-Told_example =
    handle_permission_query-Told header by_alice config 5 about_notes backend alice_is_told
