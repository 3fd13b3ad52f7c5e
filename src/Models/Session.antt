-- ===== src/Models/Session.antt =====
-- Session metadata (models/session_metadata.py). Times are numbers of ticks; the constructor and
-- `update_digest` take the instant that `time.time()` returns in them.
use custom_file_operation_pr.Prelude.{ℕ, ◌+◌, Bytes}

pub record SessionMetadata : Type 0 where
  pub token : Bytes
  pub refresh_digest : Bytes
  pub last_refresh : ℕ
  pub lifespan : ℕ
  pub valid_until : ℕ
  pub iteration : ℕ

-- `SessionMetadata.__init__`
abbrev pub new_session : Bytes → Bytes → ℕ → ℕ → SessionMetadata
new_session token refresh_digest lifespan now = record {
  token = token;
  refresh_digest = refresh_digest;
  last_refresh = now;
  lifespan = lifespan;
  valid_until = now + lifespan;
  iteration = 1;
}

abbrev pub update_digest : Bytes → ℕ → SessionMetadata → SessionMetadata
update_digest new_digest now s = record s {
  refresh_digest = new_digest;
  last_refresh = now;
  valid_until = now + s.lifespan;
  iteration = s.iteration + 1;
}

abbrev pub get_validity : SessionMetadata → ℕ
get_validity s = s.last_refresh + s.lifespan
