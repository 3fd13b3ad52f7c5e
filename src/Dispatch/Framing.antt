-- ===== src/Dispatch/Framing.antt =====
-- What the server reads of a request that was framed by the client.
use custom_file_operation_pr.Prelude.{
  ℕ, ◌≤◌, ◌≡◌, refl, ◌∙◌, ap, none, some, ◌++◌, length, Bytes, arith,
}
use custom_file_operation_pr.Prelude.Action.{ok, err}
use custom_file_operation_pr.Models.Request.{BaseHeaderComponent}
use custom_file_operation_pr.Files.Contents.{append_assoc}
use custom_file_operation_pr.Streams.Padding.{Json, pad, length-pad}
use custom_file_operation_pr.Streams.Reads.{read_exactly-append}
use custom_file_operation_pr.Dispatch.Incoming.{parse_component, process_component}
use custom_file_operation_pr.Dispatch.Outgoing.{max_bytesize}
use custom_file_operation_pr.Dispatch.Handlers.{Call, ComponentJson, read_component}
use custom_file_operation_pr.Dispatch.Callback.{
  Dependencies, Connection, answer_exception, handle_header, serve_round,
}
use custom_file_operation_pr.Client.Communication.{sized_header, request_bytes}

-- A call whose stream starts with given bytes.
abbrev pub before : {S : Type 0} → Call S → Bytes → Call S
before c buffer = record c { reader = record (c.reader) { buffer = buffer } }

pub read_component-append :
    {S A : Type 0} (json : Json A) (n : ℕ) (raw rest : Bytes) (c : Call S) {a : A}
    → length raw ≡ n
    → json.model_validate_json raw ≡ some a
    → read_component json n (before c (raw ++ rest)) ≡ (ok a, before c rest)
unfolding read_component process_component parse_component
read_component-append json n raw rest c fits valid =
    let e = read_exactly-append n raw rest c.reader.eof fits in rw (e, parse_component, valid) refl

module _ {S B : Type 0} (deps : Dependencies S B) (J : ComponentJson) where
  -- The server's next round reads the header that the client framed, with the sizes of its
  -- components, and leaves the components to the handler.
  pub serve_round-request_bytes :
      (header : BaseHeaderComponent) (auth_stream body_stream rest : Bytes) (c : Connection S)
      → let sized = sized_header J header auth_stream body_stream in
        length (J.header.model_dump_json sized) ≤ max_bytesize
        → deps.header_json.model_validate_json (pad max_bytesize (J.header.model_dump_json sized))
          ≡ some sized
        → c.call.reader.buffer ≡ request_bytes J header auth_stream body_stream ++ rest
        → serve_round deps c
          ≡ handle_header deps sized
              (record c { call = before c.call (auth_stream ++ (body_stream ++ rest)) })
  unfolding serve_round request_bytes
  serve_round-request_bytes header auth_stream body_stream rest c fits valid sent =
      let sized = sized_header J header auth_stream body_stream in
      let raw = pad max_bytesize (J.header.model_dump_json sized) in
      let size : length raw ≡ max_bytesize =
        omega (arith, fits, length-pad max_bytesize (J.header.model_dump_json sized)) in
      let parts =
        append_assoc raw (auth_stream ++ body_stream) rest
        ∙ ap (λ s. raw ++ s) (append_assoc auth_stream body_stream rest) in
      let there = ap (before c.call) (sent ∙ parts) in
      let read =
        ap (read_component deps.header_json max_bytesize) there
        ∙ read_component-append deps.header_json max_bytesize raw
            (auth_stream ++ (body_stream ++ rest)) c.call size valid in
      ap
        (λ r. elim r.0 [
          | ok found ↦ handle_header deps found (record c { call = r.1 })
          | err e ↦ answer_exception deps none e (record c { call = r.1 })
        ])
        read
