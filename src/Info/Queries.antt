-- ===== src/Info/Queries.antt =====
-- The subhandlers of information requests (server/info_ops/info_subhandlers.py). The time limit of
-- the scan of a directory, and the times of a file, are left out.
use custom_file_operation_pr.Prelude.{
  ℕ, if◌then◌else◌, false, Option, none, some, List, [], ◌∷◌, select, length, Text, Bytes,
  join_path,
}
use custom_file_operation_pr.Prelude.Int.{ℤ, pos, ◌-ℤ◌}
use custom_file_operation_pr.Prelude.Dict.{Dict, lookup, insert}
use custom_file_operation_pr.Prelude.Action.{
  Result, ok, err, Action, ◌>>=◌, ◌>>◌, pure, gets, or_raise, raise_unless,
}
use custom_file_operation_pr.Errors.{
  Exception, invalid_body_values, insufficient_permissions, file_not_found, assertion_error,
  file_not_found_error,
}
use custom_file_operation_pr.Models.Flags.{has_flag, verbose_bit}
use custom_file_operation_pr.Models.Roles.{RoleTypes, FilePermissions}
use custom_file_operation_pr.Models.Request.{
  BaseHeaderComponent, BaseAuthComponent, BaseInfoComponent, truthy,
}
use custom_file_operation_pr.Models.Responses.{
  ServerConfig, ResponseHeader, from_server, heartbeat, successful_query_answer,
}
use custom_file_operation_pr.Database.Tables.{Tables, PermissionRow, FileRow}
use custom_file_operation_pr.Database.Backend.{Db, moderate, execute, with_connection}
use custom_file_operation_pr.Database.Queries.{
  check_file_permission, check_file_existence, get_file_data,
}
use custom_file_operation_pr.Files.Disk.{Disk}
use custom_file_operation_pr.Files.State.{Handler, on_db, with_proxy}
use custom_file_operation_pr.Files.Handlers.{of_file}
use custom_file_operation_pr.Info.Identity.{derive_file_identity}
use custom_file_operation_pr.Info.Usage.{StorageUsage, get_local_storage_data}

-- What the answer says of a grantee: the columns that were selected, without the grantee.
pub data Grant : Type 0 where
  role_only : RoleTypes → Grant
  whole_row : PermissionRow → Grant

-- `{result.pop('grantee') : result for result in result_set}`
unfoldable pub by_grantee : (PermissionRow → Grant) → List PermissionRow → Dict Grant → Dict Grant
by_grantee view [] contents = contents
by_grantee view (row ∷ rows) contents =
    by_grantee view rows (insert row.grantee (view row) contents)

-- The row of the file, and its size on the disk if that was asked for.
pub record FileData : Type 0 where
  pub row : FileRow
  pub file_size_on_disk : Option ℕ

pub record StorageAnswer : Type 0 where
  pub usage : StorageUsage
  pub storage_left : ℤ
  pub files_left : ℤ

unfoldable pub handle_heartbeat : BaseHeaderComponent → ServerConfig → ResponseHeader
handle_heartbeat header config = from_server config heartbeat (some header.version) header.finish

abbrev pub or_error : {S A : Type 0} → Result Exception A → Action Exception S A
or_error r s = (r, s)

-- `if not info_component.subject_resource: raise`, and the parts of the resource
abbrev pub subject_of : {S : Type 0} → BaseInfoComponent → Action Exception S (Text × Text)
subject_of info = do
  raise_unless (truthy info.subject_resource) invalid_body_values
  resource ← or_raise invalid_body_values info.subject_resource
  or_error (derive_file_identity resource)

-- The size in `get_local_filedata`.
unfoldable pub get_local_filedata : Text → Disk → Result Exception ℕ
unfolding lookup
get_local_filedata fpath d = elim (lookup fpath d.files) [
  | none ↦ err file_not_found_error
  | some content ↦ ok (length content)
]

module _ (header : BaseHeaderComponent) (auth : BaseAuthComponent) (config : ServerConfig)
    (now : ℕ) where
  abbrev pub query_header : ResponseHeader
  query_header = from_server config successful_query_answer none header.finish

  abbrev pub view : PermissionRow → Grant
  view row = if has_flag header.subcategory verbose_bit then whole_row row else role_only row.role

  abbrev pub select_grants : (owner filename : Text) → Tables → List PermissionRow
  select_grants owner filename t = select (of_file owner filename) t.file_permissions

  -- The part of `handle_permission_query` on a connection.
  abbrev pub query_grants : (owner filename : Text) → Db (ResponseHeader × Dict Grant)
  query_grants owner filename = do
    allowed ← check_file_permission filename owner auth.identity FilePermissions.manage_rw now
    raise_unless allowed insufficient_permissions
    result_set ← execute (λ t. ok (t, select_grants owner filename t))
    pure (query_header, by_grantee view result_set [])

  unfoldable pub handle_permission_query : BaseInfoComponent → Db (ResponseHeader × Dict Grant)
  unfolding derive_file_identity by_grantee check_file_permission
  handle_permission_query info = do
    subject ← subject_of info
    with_connection moderate (query_grants subject.0 subject.1)

  abbrev stat_size : (owner filename : Text) → Handler (Option ℕ)
  stat_size owner filename = do
    let fpath = join_path (join_path config.files_directory owner) filename
    size ← or_error (← gets (λ s. get_local_filedata fpath s.files.disk))
    pure (some size)

  abbrev pub local_size : (owner filename : Text) → Handler (Option ℕ)
  local_size owner filename =
      if has_flag header.subcategory verbose_bit then stat_size owner filename else pure none

  -- The part of `handle_filedata_query` on a connection.
  abbrev pub query_filedata : (owner filename : Text) → Handler (ResponseHeader × FileData)
  query_filedata owner filename = do
    exists ← on_db (check_file_existence filename owner)
    raise_unless exists file_not_found
    allowed ←
        on_db (check_file_permission filename owner auth.identity FilePermissions.manage_rw now)
    raise_unless allowed insufficient_permissions
    row ← or_raise assertion_error (← on_db (get_file_data filename owner))
    size ← local_size owner filename
    pure (query_header, record { row = row; file_size_on_disk = size })

  unfoldable pub handle_filedata_query : BaseInfoComponent → Handler (ResponseHeader × FileData)
  unfolding derive_file_identity check_file_existence check_file_permission get_file_data
  handle_filedata_query info = do
    subject ← subject_of info
    with_proxy moderate (query_filedata subject.0 subject.1)

  abbrev pub remaining : StorageUsage → StorageAnswer
  remaining usage = record {
    usage = usage;
    storage_left = config.user_max_storage -ℤ pos usage.storage_used;
    files_left = config.user_max_files -ℤ pos usage.files_made;
  }

  unfoldable pub handle_storage_query : Handler (ResponseHeader × StorageAnswer)
  unfolding get_local_storage_data
  handle_storage_query = do
    usage ←
        or_error
          (← gets (λ s. get_local_storage_data config.files_directory auth.identity s.files.disk))
    pure (query_header, remaining usage)

-- `rollover_data` is the content of the file of that name, if there is one, and `loads` is
-- `orjson.loads`. An empty dict is `none`.
unfoldable pub handle_ssl_query :
    {S A : Type 0}
    → (loads : Bytes → Result Exception A) → (rollover_data : Option Bytes) → ServerConfig
    → Action Exception S (ResponseHeader × Option A)
handle_ssl_query loads none config =
    pure (from_server config successful_query_answer none false, none)
handle_ssl_query loads (some []) config =
    pure (from_server config successful_query_answer none false, none)
handle_ssl_query loads (some (b ∷ bs)) config = do
  rollover ← or_error (loads (b ∷ bs))
  pure (from_server config successful_query_answer none false, some rollover)
