-- ===== src/Files/State.antt =====
-- What a handler of files works on: the storage cache with the back end behind it, and the disk with
-- the caches of open files.
use custom_file_operation_pr.Prelude.{Bool, true, false, Option, Text}
use custom_file_operation_pr.Prelude.Dict.{lookup, insert, erase}
use custom_file_operation_pr.Prelude.Action.{Action, ok, ◌>>◌, modify, raise}
use custom_file_operation_pr.Errors.{Exception, database_failure, pg}
use custom_file_operation_pr.Models.Request.{truthy}
use custom_file_operation_pr.Database.Tables.{ActivityLog, Severity, trace, LogType, file_handler}
use custom_file_operation_pr.Database.Backend.{
  Db, ConnectionPriority, requested, reclaimed, enqueue_log,
}
use custom_file_operation_pr.Storage.Cache.{StorageCache, Storage, on_backend, pool_event}
use custom_file_operation_pr.Files.Buffers.{FileState}
use custom_file_operation_pr.Files.Calls.{FileOp}

pub record FileServer : Type 0 where
  pub storage : StorageCache
  pub files : FileState

abbrev pub Handler : Type 0 → Type 0
Handler = Action Exception FileServer

abbrev pub on_storage : {A : Type 0} → Storage A → Handler A
on_storage m s = let (r, c) = m s.storage in (r, record s { storage = c })

abbrev pub on_db : {A : Type 0} → Db A → Handler A
on_db m = on_storage (on_backend m)

abbrev pub on_files : {A : Type 0} → FileOp A → Handler A
on_files m s = let (r, f) = m s.files in (r, record s { files = f })

-- `async with await connection_master.request_connection(level) as proxy:`
abbrev pub with_proxy : {A : Type 0} → ConnectionPriority → Handler A → Handler A
with_proxy level body s =
    let requesting = on_storage (pool_event (requested level)) s in
    let (r, s') = body requesting.1 in (r, (on_storage (pool_event (reclaimed level)) s').1)

-- `asyncio.create_task(logger.enqueue_log(log))`
abbrev pub log_of : Severity → LogType → Option Text → ActivityLog
log_of severity category user = record {
  reported_severity = severity;
  logged_by = file_handler;
  log_category = category;
  user_concerned = user;
}

abbrev pub enqueue : Severity → LogType → Option Text → Handler (Unit {0})
enqueue severity category user = on_db (enqueue_log (log_of severity category user))

-- A refusal that is logged.
abbrev pub require :
    Bool → (category : LogType) → (user : Option Text) → Exception → Handler (Unit {0})
require true category user e s = (ok tt, s)
require false category user e s = (enqueue trace category user >> raise e) s

-- `except psycopg.errors.Error: raise DatabaseFailure`
abbrev pub on_pg_error : {A : Type 0} → Handler (Unit {0}) → Exception → Handler A
on_pg_error cleanup (pg e) = cleanup >> raise database_failure
on_pg_error cleanup e = raise e

abbrev pub set_lock : (fpath holder : Text) → FileOp (Unit {0})
set_lock fpath holder = modify (λ s. record s { file_locks = insert fpath holder s.file_locks })

abbrev pub drop_lock : Text → FileOp (Unit {0})
drop_lock fpath = modify (λ s. record s { file_locks = erase fpath s.file_locks })

-- `bool(file_locks.get(fpath))`
abbrev pub is_locked : Text → FileState → Bool
is_locked fpath s = truthy (lookup fpath s.file_locks)
