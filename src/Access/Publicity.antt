-- ===== src/Access/Publicity.antt =====
-- `publicise_file` and `hide_file`.
use custom_file_operation_pr.Prelude.{true, false, Option, none, some, Text, Bool}
use custom_file_operation_pr.Prelude.Action.{
  ok, ◌>>=◌, ◌>>◌, pure, or_raise, raise_if, raise_unless, catch,
}
use custom_file_operation_pr.Errors.{file_not_found, file_conflict}
use custom_file_operation_pr.Models.Request.{
  BaseHeaderComponent, BaseAuthComponent, BasePermissionComponent,
}
use custom_file_operation_pr.Models.Responses.{
  ServerConfig, ResponseHeader, from_server, successful_file_publicise, successful_file_hide,
}
use custom_file_operation_pr.Database.Tables.{Tables, FileRow}
use custom_file_operation_pr.Database.Backend.{Db, low, moderate, commit, execute, with_connection}
use custom_file_operation_pr.Database.Statements.{find, is_file, update_where}
use custom_file_operation_pr.Access.Errors.{pg_except}

-- `SELECT ... FROM files WHERE owner = %s AND filename = %s FOR UPDATE NOWAIT`
abbrev pub select_file : Text → Text → Db (Option FileRow)
select_file owner filename = execute (λ t. ok (t, find (is_file owner filename) t.files))

-- `UPDATE files SET public = ... WHERE owner = %s AND filename = %s`
abbrev pub set_public : Bool → Text → Text → Tables → Tables
set_public b owner filename t = record t {
  files = update_where (is_file owner filename) (λ r. record r { public = b }) t.files;
}

abbrev pub publicise_body : Text → Text → Db (Unit {0})
publicise_body identity file = do
  row ← or_raise file_not_found (← select_file identity file)
  raise_if row.public file_conflict
  execute (λ t. ok (set_public true identity file t, tt))
  commit

unfoldable pub publicise_file :
    BaseHeaderComponent
    → BaseAuthComponent
    → BasePermissionComponent
    → ServerConfig
    → Db ResponseHeader
publicise_file header auth permission config = do
  with_connection low (
      catch (publicise_body auth.identity permission.subject_file) (pg_except (some auth.identity)))
  pure (from_server config successful_file_publicise (some header.version) header.finish)

abbrev pub hide_body : Text → Text → Db (Unit {0})
hide_body identity file = do
  row ← or_raise file_not_found (← select_file identity file)
  raise_unless row.public file_conflict
  execute (λ t. ok (set_public false identity file t, tt))
  commit

unfoldable pub hide_file :
    BaseHeaderComponent
    → BaseAuthComponent
    → BasePermissionComponent
    → ServerConfig
    → Db ResponseHeader
hide_file header auth permission config = do
  with_connection moderate
      (catch (hide_body auth.identity permission.subject_file) (pg_except none))
  pure (from_server config successful_file_hide (some header.version) header.finish)
