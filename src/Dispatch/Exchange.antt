-- ===== src/Dispatch/Exchange.antt =====
-- A whole round: a request that the client framed, its handler, and the answer.
use custom_file_operation_pr.Prelude.{ℕ, ◌≤◌, ◌≡◌, ◌∙◌, ap, Option, some, List, ◌++◌, length, Bytes}
use custom_file_operation_pr.Prelude.Ttl.{TtlCache}
use custom_file_operation_pr.Models.Request.{
  BaseHeaderComponent, BaseAuthComponent, BaseFileComponent, BasePermissionComponent,
}
use custom_file_operation_pr.Streams.Padding.{pad}
use custom_file_operation_pr.Dispatch.Outgoing.{SentHeader, max_bytesize}
use custom_file_operation_pr.Dispatch.Handlers.{
  Registry, ComponentJson, on_registry, PermissionSubhandler, FileSubhandler, without_role,
  top_permission_handler, top_file_handler,
}
use custom_file_operation_pr.Dispatch.Callback.{
  Dependencies, Connection, handle_header, handle_request, settle, serve_round,
}
use custom_file_operation_pr.Dispatch.Framing.{before, serve_round-request_bytes}
use custom_file_operation_pr.Dispatch.Gate.{Admits}
use custom_file_operation_pr.Dispatch.Serving.{
  Sent, top_file_handler-Sent, top_permission_handler-Sent,
}
use custom_file_operation_pr.Client.Communication.{
  BodyComponent, file_body, permission_body, sized_header, request_bytes, dump_auth, dump_body,
}

module _ (D : TtlCache (List Bytes)) {V B : Type 0} (J : ComponentJson) (now : ℕ)
    (deps : Dependencies (Registry D V) B) (header : BaseHeaderComponent) (auth : BaseAuthComponent)
    (token : Bytes) (rest : Bytes) (c : Connection (Registry D V)) where
  -- The header with the sizes of an auth component and a body.
  abbrev pub sized_for : BodyComponent → BaseHeaderComponent
  sized_for body = sized_header J header (dump_auth J (some auth)) (dump_body J (some body))

  -- The client has framed the request, which the server can parse.
  pub record Framed (body : BodyComponent) : Type 0 where
    pub fits : length (J.header.model_dump_json (sized_for body)) ≤ max_bytesize
    pub valid :
        deps.header_json.model_validate_json
          (pad max_bytesize (J.header.model_dump_json (sized_for body)))
        ≡ some (sized_for body)
    pub sent :
        Sent J (sized_for body) (dump_auth J (some auth)) (dump_body J (some body)) auth token
    pub buffer :
        c.call.reader.buffer
        ≡ request_bytes J header (dump_auth J (some auth)) (dump_body J (some body)) ++ rest

  -- A file request that the client framed, of a user with a live session or with none: the server's
  -- next round calls its subhandler with the components that were sent, sends what it answers, or
  -- the code of its exception, or that of an internal error where the answer's body is not
  -- serializable, and leaves what follows the request in the stream.
  pub serve_round-file_body :
      (mapping : ℕ → Option (FileSubhandler (Registry D V) (SentHeader × Option B)))
      (file : BaseFileComponent)
      (subhandler : FileSubhandler (Registry D V) (SentHeader × Option B))
      → Framed (file_body file)
      → J.file.model_validate_json (J.file.model_dump_json file) ≡ some file
      → Admits now auth.identity token c.call.registry.user_manager
      → deps.request_handler_mapping header.category
        ≡ some (λ h. top_file_handler J D now h mapping)
      → mapping header.subcategory ≡ some subhandler
      → serve_round deps c
        ≡ settle deps
            (sized_for (file_body file))
            c
            (on_registry (subhandler (sized_for (file_body file)) auth file) (before c.call rest))
  unfolding handle_header settle dump_auth dump_body sized_header
  serve_round-file_body mapping file subhandler framed parses admitted handled found =
      let auth_stream = J.auth.model_dump_json auth in
      let body_stream = J.file.model_dump_json file in
      let sized = sized_for (file_body file) in
      let served =
        top_file_handler-Sent J D now sized auth_stream body_stream rest auth token c.call
          framed.sent admitted mapping file subhandler parses found in
      let chosen : handle_request deps sized (before c.call (auth_stream ++ (body_stream ++ rest)))
          ≡ on_registry (subhandler sized auth file) (before c.call rest) =
        rw (handle_request, handled) served in
      serve_round-request_bytes deps J header auth_stream body_stream rest c framed.fits
        framed.valid framed.buffer
      ∙ ap (settle deps sized c) chosen

  -- A permission request likewise; the subhandler is found by the subcategory without the role.
  pub serve_round-permission_body :
      (mapping : ℕ → Option (PermissionSubhandler (Registry D V) (SentHeader × Option B)))
      (permission : BasePermissionComponent)
      (subhandler : PermissionSubhandler (Registry D V) (SentHeader × Option B))
      → Framed (permission_body permission)
      → J.permission.model_validate_json (J.permission.model_dump_json permission) ≡ some permission
      → Admits now auth.identity token c.call.registry.user_manager
      → deps.request_handler_mapping header.category
        ≡ some (λ h. top_permission_handler J D now h mapping)
      → mapping (without_role header.subcategory) ≡ some subhandler
      → let sized = sized_for (permission_body permission) in
        serve_round deps c
        ≡ settle deps sized c (on_registry (subhandler sized auth permission) (before c.call rest))
  unfolding handle_header settle dump_auth dump_body sized_header
  serve_round-permission_body mapping permission subhandler framed parses admitted handled found =
      let auth_stream = J.auth.model_dump_json auth in
      let body_stream = J.permission.model_dump_json permission in
      let sized = sized_for (permission_body permission) in
      let served =
        top_permission_handler-Sent J D now sized auth_stream body_stream rest auth token c.call
          framed.sent admitted mapping permission subhandler parses found in
      let chosen : handle_request deps sized (before c.call (auth_stream ++ (body_stream ++ rest)))
          ≡ on_registry (subhandler sized auth permission) (before c.call rest) =
        rw (handle_request, handled) served in
      serve_round-request_bytes deps J header auth_stream body_stream rest c framed.fits
        framed.valid framed.buffer
      ∙ ap (settle deps sized c) chosen
