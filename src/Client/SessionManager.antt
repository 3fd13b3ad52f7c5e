-- ===== src/Client/SessionManager.antt =====
-- The client's own record of its session (client/session_manager.py). Its host and port are left out.
use custom_file_operation_pr.Prelude.{
  ℕ, ◌≡◌, Bool, if◌then◌else◌, ◌&&◌, Option, none, some, Text, Bytes, is_some,
}
use custom_file_operation_pr.Prelude.Action.{Action, ok, err}
use custom_file_operation_pr.Errors.{Exception, value_error}
use custom_file_operation_pr.Models.Session.{SessionMetadata, update_digest}
use custom_file_operation_pr.Models.Request.{BaseAuthComponent, truthy}

-- What JSON makes of `bytes`: pydantic writes them as the UTF-8 text that they are, or raises, and reads
-- a text into a field of `bytes` by encoding it.
pub record Utf8 : Type 0 where
  pub decode : Bytes → Option Text
  pub encode : Text → Bytes
  pub encode-decode : (b : Bytes) (t : Text) → decode b ≡ some t → encode t ≡ b

-- The metadata hold the token and the digest as the texts that the server sent. The auth component
-- has what the server reads when it is sent.
pub record SessionManager : Type 0 where
  pub identity : Option Text
  pub session_metadata : Option SessionMetadata
  pub auth_component : Option BaseAuthComponent

-- `SessionMetadata.from_response`
abbrev pub from_response :
    (token digest : Text) → (lifespan last_refresh valid_until iteration : ℕ) → SessionMetadata
from_response token digest lifespan last_refresh valid_until iteration = record {
  token = token;
  refresh_digest = digest;
  last_refresh = last_refresh;
  lifespan = lifespan;
  valid_until = valid_until;
  iteration = iteration;
}

unfoldable pub local_authenticate :
    (encode : Text → Bytes)
    → (identity : Text) → (token refresh_digest : Text)
    → (lifespan last_refresh valid_until iteration : ℕ) → SessionManager
    → SessionManager
local_authenticate encode identity token refresh_digest lifespan last_refresh valid_until iteration
      m =
    record {
      identity = some identity;
      session_metadata =
          some (from_response token refresh_digest lifespan last_refresh valid_until iteration);
      auth_component = some (record {
        identity = identity;
        password = none;
        token = some (encode token);
        refresh_digest = some (encode refresh_digest);
      });
    }

unfoldable pub clear_auth_data : SessionManager → SessionManager
clear_auth_data m = record { identity = none; session_metadata = none; auth_component = none }

-- Also the test of `requires_authentication`.
unfoldable pub check_authentication_integrity : SessionManager → Bool
check_authentication_integrity m =
    is_some m.session_metadata && truthy m.identity && is_some m.auth_component

abbrev pub set_digest :
    (encode : Text → Bytes) → (new_digest : Text) → (now : ℕ) → SessionManager → SessionManager
set_digest encode new_digest now m = elim m.session_metadata [
  | none ↦ m
  | some metadata ↦ elim m.auth_component [
    | none ↦ m
    | some auth ↦ record m {
      session_metadata = some (update_digest new_digest now metadata);
      auth_component = some (record auth { refresh_digest = some (encode new_digest) });
    }
  ]
]

-- `reauthorize`, under its decorator
unfoldable pub reauthorize_locally :
    (encode : Text → Bytes)
    → (new_digest : Text) → (now : ℕ) → Action Exception SessionManager (Unit {0})
unfolding check_authentication_integrity
reauthorize_locally encode new_digest now m =
    if check_authentication_integrity m
    then (ok tt, set_digest encode new_digest now m)
    else (err value_error, m)
