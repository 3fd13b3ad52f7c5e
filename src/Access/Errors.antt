-- ===== src/Access/Errors.antt =====
-- The `except` clauses that the handlers of `PERMISSION` requests share.
use custom_file_operation_pr.Prelude.{if◌then◌else◌, Bool, true, false, Option, Text}
use custom_file_operation_pr.Prelude.Action.{◌>>◌, raise}
use custom_file_operation_pr.Errors.{
  Exception, PgError, pg, lock_not_available, operation_contested, database_failure,
}
use custom_file_operation_pr.Database.Tables.{
  ActivityLog, non_critical_failure, LogType, file_handler,
}
use custom_file_operation_pr.Database.Backend.{Db, enqueue_log}

abbrev pub is_lock : PgError → Bool
is_lock lock_not_available = true
is_lock _ = false

-- The entry for a failed database operation.
abbrev pub failure_log : Option Text → ActivityLog
failure_log user = record {
  reported_severity = non_critical_failure;
  logged_by = file_handler;
  log_category = LogType.database;
  user_concerned = user;
}

-- `except LockNotAvailable: raise OperationContested`, `except Error: log, raise DatabaseFailure`
abbrev pub pg_except : {A : Type 0} → Option Text → Exception → Db A
pg_except user (pg e) =
    if is_lock e
    then raise operation_contested
    else (enqueue_log (failure_log user) >> raise database_failure)
pg_except user e = raise e
