-- ===== src/Authz/State.antt =====
-- The state of `UserManager`: the sessions, the refresh digests that were used up, and the back end
-- that it works on.
use custom_file_operation_pr.Prelude.{ℕ, ◌*◌, ◌/◌, Bool, some, List, ◌∷◌, Text}
use custom_file_operation_pr.Prelude.Dict.{Dict}
use custom_file_operation_pr.Prelude.Action.{Action, modify}
use custom_file_operation_pr.Errors.{Exception}
use custom_file_operation_pr.Models.Session.{SessionMetadata}
use custom_file_operation_pr.Database.Tables.{ActivityLog, Severity, LogType, user_master}
use custom_file_operation_pr.Database.Backend.{Backend, Db}

-- The background tasks that a method starts.
pub data Task : Type 0 where
  -- `terminate_user_cache(username, *caches)`, with the two buffer caches or with none
  terminate_user_cache : Text → (with_caches : Bool) → Task

pub record UserManager (Digests : Type 0) : Type 0 where
  pub session : Dict SessionMetadata
  pub previous_digests_mapping : Digests
  pub session_lifespan : ℕ
  pub session_refresh_nbf : ℕ
  pub backend : Backend
  -- latest first
  pub tasks : List Task

-- The ticks of the clock in a second.
abbrev pub second : ℕ
second = 1_000_000

-- `session_lifespan // 2`, which rounds down to whole seconds
abbrev pub refresh_nbf : ℕ → ℕ
refresh_nbf lifespan = lifespan / (2 * second) * second

abbrev pub Method : Type 0 → Type 0 → Type 0
Method Digests = Action Exception (UserManager Digests)

-- A call on the back end.
abbrev pub on_backend : {Digests A : Type 0} → Db A → Method Digests A
on_backend m s = let (r, b) = m s.backend in (r, record s { backend = b })

-- `enqueue_activity`
abbrev pub log_of : Severity → LogType → Text → ActivityLog
log_of severity category user = record {
  reported_severity = severity;
  logged_by = user_master;
  log_category = category;
  user_concerned = some user;
}

abbrev pub enqueue_activity : {Digests : Type 0} → ActivityLog → Method Digests (Unit {0})
enqueue_activity l =
    modify (λ s. record s { backend = record (s.backend) { activity = l ∷ s.backend.activity } })

abbrev pub create_task : {Digests : Type 0} → Task → Method Digests (Unit {0})
create_task t = modify (λ s. record s { tasks = t ∷ s.tasks })
