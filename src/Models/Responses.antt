-- ===== src/Models/Responses.antt =====
-- The header of a successful response (models/response_models.py, models/response_codes.py), and
-- the settings that the handlers read (server/config/server_config.py). The server's address, its
-- clock and the size of the body are left out.
use custom_file_operation_pr.Prelude.{ℕ, Bool, Option, none, some, Text, codes}
use custom_file_operation_pr.Prelude.Int.{ℤ, pos, negsuc}

pub data SuccessFlags : Type 0 where
  successful_file_creation successful_amend successful_read successful_file_publicise : SuccessFlags
  successful_file_hide successful_file_deletion successful_ownership_transfer : SuccessFlags
  successful_query_answer successful_user_creation successful_authentication : SuccessFlags
  successful_password_change successful_session_refresh successful_session_termination :
      SuccessFlags
  successful_user_deletion successful_grant successful_revoke heartbeat : SuccessFlags

pub record ServerConfig : Type 0 where
  pub version : Text
  pub files_directory : Text
  pub session_lifespan : ℕ
  pub user_max_files : ℤ
  pub user_max_storage : ℤ

pub record ResponseHeader : Type 0 where
  pub version : Text
  pub code : SuccessFlags
  pub ended_connection : Bool

-- `version or config.version`
abbrev pub version_or : ServerConfig → Option Text → Text
version_or config none = config.version
version_or config (some v) = v

abbrev pub from_server : ServerConfig → SuccessFlags → Option Text → Bool → ResponseHeader
from_server config code version ended_connection = record {
  version = version_or config version;
  code = code;
  ended_connection = ended_connection;
}

-- `C` is what the handler puts in `contents`.
pub record ResponseBody (C : Type 0) : Type 0 where
  pub contents : Option C
  pub operation_ended : Bool
  pub cursor_position : ℕ
  pub cursor_keepalive_accepted : Bool

-- `Field(ge=0)`: a negative position is a `ValidationError`.
abbrev pub cursor_of : ℤ → Option ℕ
cursor_of (pos n) = some n
cursor_of (negsuc n) = none

-- The texts of `SuccessFlags`.
unfoldable pub success_code : SuccessFlags → Text
success_code successful_file_creation = codes "1:fnew"
success_code successful_amend = codes "1:amnd"
success_code successful_read = codes "1:read"
success_code successful_file_publicise = codes "1:pub"
success_code successful_file_hide = codes "1:hide"
success_code successful_file_deletion = codes "1:fdel"
success_code successful_ownership_transfer = codes "1:sft"
success_code successful_query_answer = codes "1:qa"
success_code successful_user_creation = codes "1:unew"
success_code successful_authentication = codes "1:auth"
success_code successful_password_change = codes "1:pw"
success_code successful_session_refresh = codes "1:ref"
success_code successful_session_termination = codes "1:bye"
success_code successful_user_deletion = codes "1:udel"
success_code successful_grant = codes "1:gnt"
success_code successful_revoke = codes "1:rvk"
success_code heartbeat = codes "1:hb"
