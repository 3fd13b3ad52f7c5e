-- ===== src/Tests/Logs.antt =====
-- A logger with two entries in its queue, and a database that is locked for one statement.
use custom_file_operation_pr.Prelude.{◌≡◌, refl, some, none, [], ◌∷◌, ◌++◌, arith}
use custom_file_operation_pr.Prelude.Action.{ok}
use custom_file_operation_pr.Errors.{pg, lock_not_available}
use custom_file_operation_pr.Database.Tables.{ActivityLog, LogType, info, user_master}
use custom_file_operation_pr.Database.Backend.{high}
use custom_file_operation_pr.Logs.Flush.{Logger, flush_with_retries, flush_round, is_recoverable}
use custom_file_operation_pr.Logs.Retries.{
  Recovers, flush_with_retries-Recovers, flush_round-append,
}
use custom_file_operation_pr.Tests.Fixtures.{backend}

abbrev entry : ActivityLog
entry = record {
  reported_severity = info;
  logged_by = user_master;
  log_category = LogType.user;
  user_concerned = none;
}

abbrev logger : Logger
logger = record {
  log_queue = entry ∷ entry ∷ [];
  batch_size = 1;
  max_retries = 3;
  backend = record backend { faults = some (pg lock_not_available) ∷ [] };
  activity_logs = [];
  answered = 3;
}

it-Recovers : Recovers 3 logger.backend.faults
unfolding is_recoverable
it-Recovers = (refl, tt)

flush_with_retries-Recovers_example :
    (s' : Logger) × (flush_with_retries 3 (entry ∷ []) high logger ≡ some (ok tt, s'))
    × (s'.activity_logs ≡ entry ∷ [])
    × (s'.log_queue ≡ entry ∷ entry ∷ [])
flush_with_retries-Recovers_example =
    flush_with_retries-Recovers 3 (entry ∷ []) high logger it-Recovers (omega arith)

flush_round-append_example :
    (s' : Logger) × (flush_round logger ≡ some (ok tt, s'))
    × (s'.activity_logs ≡ entry ∷ [])
    × (s'.activity_logs ++ s'.log_queue ≡ entry ∷ entry ∷ [])
flush_round-append_example = flush_round-append logger it-Recovers (omega arith)
