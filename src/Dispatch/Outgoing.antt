-- ===== src/Dispatch/Outgoing.antt =====
-- Responses as they go out (server/comms_utils/outgoing.py, models/response_models.py).
use custom_file_operation_pr.Prelude.{ℕ, Bool, Option, none, some, [], ◌++◌, Text, Bytes}
use custom_file_operation_pr.Models.Responses.{ResponseHeader, success_code}
use custom_file_operation_pr.Errors.{Exception, code}
use custom_file_operation_pr.Streams.Padding.{pad}

-- `REQUEST_CONSTANTS.header.max_bytesize` and `RESPONSE_CONSTANTS.header.bytesize`
-- (models/constants.toml)
abbrev pub max_bytesize : ℕ
max_bytesize = 256

abbrev pub bytesize : ℕ
bytesize = 256

-- A `ResponseHeader` of any code, with the size of the body.
pub record SentHeader : Type 0 where
  pub version : Text
  pub code : Text
  pub body_size : ℕ
  pub ended_connection : Bool

-- What a handler's header is before the callback knows the size of the body.
unfoldable pub sent_header : ResponseHeader → SentHeader
sent_header h = record {
  version = h.version;
  code = success_code h.code;
  body_size = 0;
  ended_connection = h.ended_connection;
}

unfoldable pub from_protocol_exception :
    Exception → (version : Text) → (end_conn : Bool) → SentHeader
from_protocol_exception exc version end_conn = record {
  version = version;
  code = code exc;
  body_size = 0;
  ended_connection = end_conn;
}

-- `if body:`
abbrev body_bytes : Option Bytes → Bytes
body_bytes none = []
body_bytes (some stream) = stream

-- What a call of `send_response` without a separator writes.
unfoldable pub send_response : (header : Bytes) → (body : Option Bytes) → Bytes
send_response header body = pad bytesize header ++ body_bytes body
