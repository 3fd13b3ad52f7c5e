-- ===== src/Client/Communication.antt =====
-- The client's side of the framing (client/communication/outgoing.py, client/communication/incoming.py).
use custom_file_operation_pr.Prelude.{
  ℕ, ◌==◌, if◌then◌else◌, Bool, true, false, Option, none, some, [], ◌++◌, length, Bytes,
}
use custom_file_operation_pr.Prelude.Action.{
  Result, ok, err, Action, ◌>>=◌, ◌>>◌, pure, gets, modify, raise_if,
}
use custom_file_operation_pr.Errors.{Exception, timeout_error, value_error, incomplete_read_error}
use custom_file_operation_pr.Models.Request.{
  BaseHeaderComponent, BaseAuthComponent, BasePermissionComponent, BaseFileComponent,
  BaseInfoComponent,
}
use custom_file_operation_pr.Streams.Reader.{
  StreamReader, Read, complete, incomplete, timed_out, read_exactly,
}
use custom_file_operation_pr.Streams.Padding.{Json, pad}
use custom_file_operation_pr.Dispatch.Outgoing.{SentHeader, max_bytesize, bytesize}
use custom_file_operation_pr.Dispatch.Handlers.{ComponentJson}

-- The connection of the client, and its two locks: one that is held is held for longer than a call
-- waits for it.
pub record Streams : Type 0 where
  pub reader : StreamReader
  pub written : Bytes
  pub closed : Bool
  pub read_lock : Bool
  pub stream_lock : Bool

abbrev pub Communication : Type 0 → Type 0
Communication = Action Exception Streams

pub data BodyComponent : Type 0 where
  file_body : BaseFileComponent → BodyComponent
  permission_body : BasePermissionComponent → BodyComponent
  info_body : BaseInfoComponent → BodyComponent

-- `try: m  finally: release()`
abbrev pub finally : {A : Type 0} → Communication A → (Streams → Streams) → Communication A
finally m release s = let (r, s') = m s in (r, release s')

module _ (J : ComponentJson) where
  unfoldable pub dump_auth : Option BaseAuthComponent → Bytes
  dump_auth none = []
  dump_auth (some auth) = J.auth.model_dump_json auth

  unfoldable pub dump_body : Option BodyComponent → Bytes
  dump_body none = []
  dump_body (some (file_body f)) = J.file.model_dump_json f
  dump_body (some (permission_body p)) = J.permission.model_dump_json p
  dump_body (some (info_body i)) = J.info.model_dump_json i

  -- The header once `send_request` has set its sizes.
  unfoldable pub sized_header :
      BaseHeaderComponent → (auth_stream body_stream : Bytes) → BaseHeaderComponent
  sized_header header auth_stream body_stream = record header {
    auth_size = length auth_stream;
    body_size = length body_stream;
  }

  unfoldable pub request_bytes : BaseHeaderComponent → (auth_stream body_stream : Bytes) → Bytes
  unfolding sized_header
  request_bytes header auth_stream body_stream =
      pad max_bytesize (J.header.model_dump_json (sized_header header auth_stream body_stream))
      ++ (auth_stream ++ body_stream)

  unfoldable pub send_request :
      BaseHeaderComponent
      → Option BaseAuthComponent
      → Option BodyComponent
      → Communication (Unit {0})
  unfolding dump_auth dump_body request_bytes
  send_request header auth body = do
    held ← gets (λ s. s.stream_lock)
    raise_if held timeout_error
    modify (λ s. record s { stream_lock = true })
    finally
        (modify (λ s. record s {
          written = s.written ++ request_bytes header (dump_auth auth) (dump_body body);
        }))
        (λ s. record s { stream_lock = false })

-- `model_validate_json(await wait_for(reader.readexactly(n), timeout))`
unfoldable pub parse_response : {A : Type 0} → Json A → Read → Result Exception A
parse_response json (complete raw) = elim (json.model_validate_json raw) [
  | none ↦ err value_error
  | some component ↦ ok component
]
parse_response json (incomplete partial) = err incomplete_read_error
parse_response json timed_out = err timeout_error

unfoldable pub read_response : {A : Type 0} → Json A → ℕ → Communication A
read_response json n s =
    let (r, reader') = read_exactly n s.reader in
    (parse_response json r, record s { reader = reader' })

module _ {B : Type 0} (sent_json : Json SentHeader) (body_json : Json B) where
  abbrev pub read_body : SentHeader → Communication (SentHeader × Option B)
  read_body header =
      if header.body_size == 0
      then pure (header, none)
      else read_response body_json header.body_size >>= λ body. pure (header, some body)

  abbrev pub close_ended : SentHeader × Option B → Communication (SentHeader × Option B)
  close_ended answer s =
      (ok answer, if answer.0.ended_connection then record s { closed = true } else s)

  unfoldable pub process_response : Communication (SentHeader × Option B)
  unfolding read_response
  process_response = do
    held ← gets (λ s. s.read_lock)
    raise_if held timeout_error
    modify (λ s. record s { read_lock = true })
    answer ←
        finally (read_response sent_json bytesize >>= read_body)
          (λ s. record s { read_lock = false })
    close_ended answer
