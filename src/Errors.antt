-- ===== src/Errors.antt =====
-- The exceptions of a request (server/errors.py), with the Python and psycopg ones that reach the
-- server's callback. Descriptions and timestamps are left out.
use custom_file_operation_pr.Prelude.{Bool, true, false, Text, codes}

-- The errors of psycopg that the server tells apart.
pub data PgError : Type 0 where
  lock_not_available unique_violation foreign_key_violation undefined_column : PgError
  syntax_error connection_timeout operational_error interface_error other_error : PgError

pub data Exception : Type 0 where
  slow_stream_rate invalid_header_semantic invalid_header_values : Exception
  invalid_auth_semantic invalid_auth_data invalid_file_data invalid_body_values : Exception
  unsupported_operation user_authentication_error user_not_found : Exception
  insufficient_permissions operational_conflict operation_contested banned : Exception
  file_not_found file_contested file_conflict file_operation_forbidden : Exception
  internal_server_error database_failure : Exception
  -- not protocol exceptions
  key_error assertion_error value_error type_error permission_error timeout_error : Exception
  os_error file_not_found_error stop_iteration incomplete_read_error : Exception
  pg : PgError → Exception

-- `isinstance(e, ProtocolException)`
unfoldable pub is_protocol : Exception → Bool
is_protocol key_error = false
is_protocol assertion_error = false
is_protocol value_error = false
is_protocol type_error = false
is_protocol permission_error = false
is_protocol timeout_error = false
is_protocol os_error = false
is_protocol file_not_found_error = false
is_protocol stop_iteration = false
is_protocol incomplete_read_error = false
is_protocol (pg e) = false
is_protocol _ = true

-- The class attribute `code` of a protocol exception. Any other exception is answered as
-- `InternalServerError`.
unfoldable pub code : Exception → Text
code slow_stream_rate = codes "2:unsp"
code invalid_header_semantic = codes "2:ihs"
code invalid_header_values = codes "2:ihv"
code invalid_auth_semantic = codes "2:ias"
code invalid_auth_data = codes "2:iad"
code invalid_file_data = codes "2:ifd"
code invalid_body_values = codes "2:ibv"
code unsupported_operation = codes "2:unop"
code user_authentication_error = codes "2:auth"
code user_not_found = codes "2:unf"
code insufficient_permissions = codes "2:perm"
code operational_conflict = codes "2:opcf"
code operation_contested = codes "2:opct"
code banned = codes "2:ban"
code file_not_found = codes "2:nf"
code file_contested = codes "2:fcnt"
code file_conflict = codes "2:cnf"
code file_operation_forbidden = codes "2:fof"
code internal_server_error = codes "3:*"
code database_failure = codes "3:db"
code _ = codes "3:*"
