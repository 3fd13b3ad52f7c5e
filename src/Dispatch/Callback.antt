-- ===== src/Dispatch/Callback.antt =====
-- The loop over the requests of a connection (server/callback.py). What the handlers write to the
-- stream is never refused here.
use custom_file_operation_pr.Prelude.{
  ℕ, zero, suc, if◌then◌else◌, Bool, true, false, Option, none, some, ◌++◌, length, Text, Bytes,
}
use custom_file_operation_pr.Prelude.Action.{Result, ok, err}
use custom_file_operation_pr.Errors.{
  Exception, slow_stream_rate, unsupported_operation, internal_server_error, is_protocol,
  value_error,
}
use custom_file_operation_pr.Models.Request.{BaseHeaderComponent}
use custom_file_operation_pr.Streams.Reader.{at_eof}
use custom_file_operation_pr.Streams.Padding.{Json}
use custom_file_operation_pr.Dispatch.Outgoing.{
  SentHeader, max_bytesize, send_response, from_protocol_exception,
}
use custom_file_operation_pr.Dispatch.Handlers.{Call, Handling, read_component}

pub record Connection (S : Type 0) : Type 0 where
  pub call : Call S
  pub written : Bytes
  pub closed : Bool

abbrev pub is_slow : Exception → Bool
is_slow slow_stream_rate = true
is_slow _ = false

-- The exception whose code is sent.
unfoldable pub answered : Exception → Exception
unfolding is_protocol
answered e = if is_protocol e then e else internal_server_error

abbrev pub version_of : Text → Option BaseHeaderComponent → Text
version_of version none = version
version_of version (some header) = header.version

abbrev pub finish_of : Option BaseHeaderComponent → Bool
finish_of none = false
finish_of (some header) = header.finish

-- What `callback` is bound to. `log` stands for `logger.enqueue_log` of the entry for an exception
-- that is no protocol exception, and `version` for the server's.
pub record Dependencies (S B : Type 0) : Type 0 where
  pub header_json : Json BaseHeaderComponent
  pub sent_json : Json SentHeader
  -- `model_dump_json()` of a body, and whether it goes through: pydantic raises on contents with bytes
  -- that are no UTF-8
  pub dump_body : B → Bytes
  pub serializes : B → Bool
  pub log : S → S
  pub version : Text
  pub request_handler_mapping :
      ℕ → Option (BaseHeaderComponent → Handling S (SentHeader × Option B))

module _ {S B : Type 0} (deps : Dependencies S B) where
  abbrev pub send : SentHeader → Option Bytes → Connection S → Connection S
  send header body c = record c {
    written = c.written ++ send_response (deps.sent_json.model_dump_json header) body;
  }

  abbrev pub close : Connection S → Connection S
  close c = record c { closed = true }

  -- The end of a round: the connection, and whether the loop goes on.
  abbrev end_unless : Bool → Connection S → Bool × Connection S
  end_unless ended c = if ended then (false, close c) else (true, c)

  -- The body as bytes, once it is serializable, and the header with its size.
  unfoldable pub body_stream : Option B → Option Bytes
  body_stream none = none
  body_stream (some body) = some (deps.dump_body body)

  unfoldable pub sized_response : SentHeader → Option B → SentHeader
  sized_response header none = header
  sized_response header (some body) = record header { body_size = length (deps.dump_body body) }

  -- The end of the `try` block.
  unfoldable pub respond : SentHeader → Option B → Connection S → Bool × Connection S
  unfolding sized_response body_stream
  respond header body c =
      end_unless header.ended_connection (send (sized_response header body) (body_stream body) c)

  abbrev log_unless : Bool → Connection S → Connection S
  log_unless is_caught c =
      if is_caught
      then c
      else record c { call = record (c.call) { registry = deps.log c.call.registry } }

  -- The `except` block.
  unfoldable pub answer_exception :
      (header_component : Option BaseHeaderComponent)
      → Exception
      → Connection S
      → Bool × Connection S
  unfolding is_protocol
  answer_exception none slow_stream_rate c = (false, close c)
  answer_exception header_component e c =
      let ended = finish_of header_component in
      let header =
        from_protocol_exception (answered e) (version_of deps.version header_component) ended in
      end_unless ended (send header none (log_unless (is_protocol e) c))

  abbrev pub handle_request : BaseHeaderComponent → Handling S (SentHeader × Option B)
  handle_request header = elim (deps.request_handler_mapping header.category) [
    | none ↦ λ c. (err unsupported_operation, c)
    | some handler ↦ handler header
  ]

  abbrev pub is_serializable : Option B → Bool
  is_serializable none = true
  is_serializable (some body) = deps.serializes body

  -- What follows the handler's answer or exception. An answer whose body is not serialized is an
  -- exception as well (`PydanticSerializationError`, a `ValueError`), raised before anything is sent.
  unfoldable pub settle :
      BaseHeaderComponent
      → Connection S
      → Result Exception (SentHeader × Option B) × Call S
      → Bool × Connection S
  settle header c (r, call') = elim r [
    | ok answer ↦
        if is_serializable answer.1
        then respond answer.0 answer.1 (record c { call = call' })
        else answer_exception (some header) value_error (record c { call = call' })
    | err e ↦ answer_exception (some header) e (record c { call = call' })
  ]

  -- The `try` block once the header is there.
  unfoldable pub handle_header : BaseHeaderComponent → Connection S → Bool × Connection S
  handle_header header c = settle header c (handle_request header c.call)

  unfoldable pub serve_round : Connection S → Bool × Connection S
  unfolding read_component
  serve_round c =
      let (r, call') = read_component deps.header_json max_bytesize c.call in
      elim r [
        | ok header ↦ handle_header header (record c { call = call' })
        | err e ↦ answer_exception none e (record c { call = call' })
      ]

  -- `none` says that the rounds given did not do.
  unfoldable pub callback : (rounds : ℕ) → Connection S → Option (Connection S)
  unfolding at_eof
  callback zero c = none
  callback (suc rounds) c =
      let (more, c') = serve_round c in
      let rest = callback rounds c' in
      if at_eof c.call.reader then some c else if more then rest else some c'
