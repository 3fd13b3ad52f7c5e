-- ===== src/Authz/Bans.antt =====
-- The ban methods of `UserManager` (server/authz/user_manager.py). `now` is what `datetime.now()`
-- returns in the call.
use custom_file_operation_pr.Prelude.{
  ℕ, if◌then◌else◌, Bool, true, ◌&&◌, Option, none, some, [], ◌∷◌, ◌++◌, any, Text, text_eq, strip,
}
use custom_file_operation_pr.Prelude.Action.{
  Result, ok, err, ◌>>=◌, ◌>>◌, pure, raise, or_raise, catch, modify,
}
use custom_file_operation_pr.Errors.{
  Exception, PgError, pg, lock_not_available, unique_violation, foreign_key_violation,
  user_authentication_error, database_failure,
}
use custom_file_operation_pr.Database.Tables.{
  Tables, BanRow, non_critical_failure, critical_failure, LogType,
}
use custom_file_operation_pr.Database.Backend.{
  Db, ConnectionPriority, high, moderate, reclaimed, execute, with_connection, enqueue_log,
}
use custom_file_operation_pr.Database.Statements.{earlier_than, is_null, has_user, update_where}
use custom_file_operation_pr.Authz.Library.{Library, check_username_validity}
use custom_file_operation_pr.Authz.State.{log_of}

-- `WHERE username = %s AND lifted_at IS NOT NULL and lifted_at < %s`
abbrev pub is_lifted : Text → ℕ → BanRow → Bool
is_lifted username now r = text_eq r.username username && earlier_than now r.lifted_at

-- `reclaim_connection` on the connection of the caller
abbrev pub reclaim : ConnectionPriority → Db (Unit {0})
reclaim level = modify (λ b. record b { pool = reclaimed level ∷ b.pool })

-- The `except` clauses: a failed query counts as a ban, and gives the caller's connection back.
abbrev pub ban_check_except : Text → ConnectionPriority → Exception → Db Bool
ban_check_except username level (pg lock_not_available) = pure true
ban_check_except username level e =
    enqueue_log (log_of non_critical_failure LogType.database username)
    >> reclaim level
    >> pure true

-- `check_banned` on the connection of its caller, which has the given level
unfoldable pub check_banned : Text → ConnectionPriority → ℕ → Db Bool
unfolding execute
check_banned username level now =
    catch (execute (λ t. ok (t, any (is_lifted username now) t.ban_logs)))
      (ban_check_except username level)

-- `INSERT INTO ban_logs VALUES (%s, %s, %s)`, with its keys; `ban_time` defaults to the clock.
abbrev pub insert_ban : BanRow → Tables → Result PgError (Tables × Unit {0})
insert_ban r t =
    if any (λ s. text_eq s.username r.username && text_eq (s.ban_time ∷ []) (r.ban_time ∷ []))
      t.ban_logs
    then err unique_violation
    else if has_user r.username t
    then ok (record t { ban_logs = t.ban_logs ++ r ∷ [] }, tt)
    else err foreign_key_violation

-- `except pg_errors.Error` of `ban`, which logs the failure and goes on
abbrev pub ban_except : Text → Exception → Db (Unit {0})
ban_except username (pg e) = enqueue_log (log_of critical_failure LogType.database username)
ban_except username e = raise e

abbrev pub new_ban : Text → Text → Option Text → ℕ → BanRow
new_ban username reason description now = record {
  username = username;
  ban_reason = strip reason;
  ban_description = elim description [
    | none ↦ none
    | some [] ↦ none
    | some (c ∷ d) ↦ some (strip (c ∷ d))
  ];
  ban_time = now;
  lifted_at = none;
}

-- The body on the connection: a user who counts as banned is logged and the method returns; on any
-- other path `raise DatabaseFailure` stands after the `try`, so what follows it is never reached.
abbrev pub ban_body : Text → Text → Option Text → ℕ → Db (Unit {0})
ban_body username reason description now = do
  banned ← check_banned username high now
  if banned
      then enqueue_log (log_of non_critical_failure LogType.user username)
      else (catch (execute (insert_ban (new_ban username reason description now)))
            (ban_except username)
          >> raise database_failure)

unfoldable pub ban : Library → Text → Text → Option Text → ℕ → Db (Unit {0})
unfolding check_banned with_connection check_username_validity
ban lib username reason description now = do
  name ← or_raise user_authentication_error (check_username_validity lib username)
  with_connection high (ban_body name reason description now)

-- `UPDATE ban_logs SET lifted_at = %s WHERE username = %s AND lifted_at is null`
abbrev pub lift_bans : Text → ℕ → Tables → Tables
lift_bans username now t = record t {
  ban_logs =
      update_where (λ r. text_eq r.username username && is_null r.lifted_at)
        (λ r. record r { lifted_at = some now }) t.ban_logs;
}

abbrev pub unban_body : Text → ℕ → Db (Unit {0})
unban_body username now = do
  banned ← check_banned username moderate now
  if banned
      then execute (λ t. ok (lift_bans username now t, tt))
      else enqueue_log (log_of non_critical_failure LogType.user username)

unfoldable pub unban : Library → Text → ℕ → Db (Unit {0})
unfolding check_banned with_connection check_username_validity execute
unban lib username now = do
  name ← or_raise user_authentication_error (check_username_validity lib username)
  with_connection moderate (unban_body name now)
