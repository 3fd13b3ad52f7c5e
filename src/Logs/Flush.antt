-- ===== src/Logs/Flush.antt =====
-- `Logger`: its queue, and the flushes that write it to `activity_logs`. Its queue is unbounded, so
-- `enqueue_log` never waits. A request for a connection waits until one is there; a call that waits
-- forever has no result.
use custom_file_operation_pr.Prelude.{
  ℕ, zero, suc, if◌then◌else◌, Bool, true, false, Option, none, some, List, [], ◌∷◌, ◌++◌, take,
  drop,
}
use custom_file_operation_pr.Prelude.Action.{
  Action, Result, ok, err, ◌>>=◌, ◌>>◌, pure, catch, modify,
}
use custom_file_operation_pr.Errors.{
  Exception, PgError, pg, lock_not_available, connection_timeout, operational_error,
  interface_error,
}
use custom_file_operation_pr.Database.Tables.{
  ActivityLog, critical_failure, LogType, exception_fallback,
}
use custom_file_operation_pr.Database.Backend.{
  Backend, Db, ConnectionPriority, low, high, requested, reclaimed, execute, commit,
}

pub record Logger : Type 0 where
  pub log_queue : List ActivityLog
  pub batch_size : ℕ
  pub max_retries : ℕ
  pub backend : Backend
  -- how many of the logger's requests for a connection are answered yet
  pub answered : ℕ
  -- the rows of `activity_logs`, oldest first
  pub activity_logs : List ActivityLog

abbrev pub Logging : Type 0 → Type 0
Logging = Action Exception Logger

abbrev pub on_backend : {A : Type 0} → Db A → Logging A
on_backend m s = let (r, b) = m s.backend in (r, record s { backend = b })

-- `await self._log_queue.put(log)`
abbrev pub put_log : ActivityLog → Logger → Logger
put_log l s = record s { log_queue = s.log_queue ++ l ∷ [] }

-- `executemany` of the `INSERT` into `activity_logs`: no entry, no statement.
abbrev pub insert_logs : List ActivityLog → Logging (Unit {0})
insert_logs [] = pure tt
insert_logs (l ∷ batch) = do
  on_backend (execute (λ t. ok (t, tt)))
  modify (λ s. record s { activity_logs = s.activity_logs ++ l ∷ batch })

-- A call that may wait forever: `none`.
abbrev pub Waiting : Type 0 → Type 0
Waiting A = Logger → Option (Result Exception A × Logger)

abbrev pub take_connection : ConnectionPriority → Logger → Option Logger
take_connection level s = elim s.answered [
  | zero ↦ none
  | suc n ↦ some (record s {
    answered = n;
    backend = record (s.backend) { pool = requested level ∷ s.backend.pool };
  })
]

-- What goes on with the connection.
abbrev pub with_answer :
    {A : Type 0} → Option Logger → Logging A → Option (Result Exception A × Logger)
with_answer none m = none
with_answer (some s) m = some (m s)

abbrev pub write_batch : List ActivityLog → Logging (Unit {0})
write_batch batch = insert_logs batch >> on_backend commit

-- The connection is not given back.
unfoldable pub flush_batch : List ActivityLog → ConnectionPriority → Waiting (Unit {0})
unfolding execute
flush_batch batch priority s = with_answer (take_connection priority s) (write_batch batch)

-- `RECOVERABLE_ERRORS`: `LockNotAvailable` and `ConnectionTimeout` are kinds of `OperationalError`.
unfoldable pub is_recoverable : PgError → Bool
is_recoverable lock_not_available = true
is_recoverable connection_timeout = true
is_recoverable operational_error = true
is_recoverable interface_error = true
is_recoverable _ = false

abbrev pub meta_log : ActivityLog
meta_log = record {
  reported_severity = critical_failure;
  logged_by = exception_fallback;
  log_category = LogType.database;
  user_concerned = none;
}

-- `async with` gives the connection back. An exception of the `INSERT` is passed over, whose effect is
-- then missing, and so is one of the `commit`, which comes after the connection is given back.
abbrev pub insert_meta : Logging (Unit {0})
insert_meta = do
  written ← on_backend (catch (execute (λ t. ok (t, true))) (λ e. pure false))
  modify (λ s. if written then record s { activity_logs = s.activity_logs ++ meta_log ∷ [] } else s)
  modify (λ s. record s { backend = record (s.backend) { pool = reclaimed high ∷ s.backend.pool } })

unfoldable pub emit_meta_log : Waiting (Unit {0})
unfolding execute
emit_meta_log s = with_answer (take_connection high s) insert_meta

-- What follows an attempt, `again` being the attempts that are left. An exception that is no error of
-- the database is passed on.
abbrev pub after_attempt :
    Waiting (Unit {0})
    → Option (Result Exception (Unit {0}) × Logger)
    → Option (Result Exception (Unit {0}) × Logger)
after_attempt again none = none
after_attempt again (some (ok u, s)) = some (ok u, s)
after_attempt again (some (err (pg e), s)) = if is_recoverable e then again s else emit_meta_log s
after_attempt again (some (err e, s)) = some (err e, s)

unfoldable pub flush_with_retries : ℕ → List ActivityLog → ConnectionPriority → Waiting (Unit {0})
unfolding flush_batch emit_meta_log is_recoverable
flush_with_retries zero batch priority s = some (ok tt, s)
flush_with_retries (suc retries) batch priority s =
    after_attempt (flush_with_retries retries batch priority) (flush_batch batch priority s)

-- `if not log_entries: continue`, else the flush.
abbrev pub flush_entries : ℕ → List ActivityLog → Waiting (Unit {0})
flush_entries retries [] s = some (ok tt, s)
flush_entries retries (l ∷ entries) s = flush_with_retries retries (l ∷ entries) low s

-- One round of `flush_logs`, with what the queue holds when it starts.
unfoldable pub flush_round : Waiting (Unit {0})
flush_round s =
    flush_entries s.max_retries (take s.batch_size s.log_queue)
      (record s { log_queue = drop s.batch_size s.log_queue })

-- `shutdown_handler`, once the shutdown event is set
unfoldable pub shutdown_flush : Waiting (Unit {0})
shutdown_flush s = flush_with_retries s.max_retries s.log_queue high (record s { log_queue = [] })
