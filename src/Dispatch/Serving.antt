-- ===== src/Dispatch/Serving.antt =====
-- What a request that is let pass gets from its subhandler.
use custom_file_operation_pr.Prelude.{
  ℕ, ◌==◌, ◌||◌, ◌≡◌, true, false, Option, none, some, List, [], ◌∷◌, ◌++◌, length, Bytes, arith,
}
use custom_file_operation_pr.Prelude.Ttl.{TtlCache}
use custom_file_operation_pr.Prelude.Action.{ok}
use custom_file_operation_pr.Models.Request.{
  BaseHeaderComponent, BaseAuthComponent, BaseFileComponent, BasePermissionComponent,
  authentication, auth_logical_check, truthy,
}
use custom_file_operation_pr.Dispatch.Handlers.{
  Registry, Call, ComponentJson, on_registry, asserted_token, PermissionSubhandler, FileSubhandler,
  without_role, serve_permission, serve_file, top_permission_handler, top_file_handler,
}
use custom_file_operation_pr.Dispatch.Framing.{before, read_component-append}
use custom_file_operation_pr.Dispatch.Gate.{Admits, authenticate-Admits}

asserted_token-truthy :
    (o : Option Bytes) (token : Bytes)
    → o ≡ some token
    → truthy o ≡ true
    → asserted_token o ≡ ok token
asserted_token-truthy none token given t = absurd cc
asserted_token-truthy (some []) token given t = absurd (ground arith)
asserted_token-truthy (some (b ∷ bs)) token given t = cc

truthy-token :
    (auth : BaseAuthComponent)
    → auth_logical_check authentication auth ≡ true
    → truthy auth.token ≡ true
unfolding auth_logical_check
truthy-token auth h = ground arith

-- What was sent: the streams of the two components, as the header counts them, and the auth
-- component that the first one holds, with the token of the checks.
pub record Sent (J : ComponentJson) (header : BaseHeaderComponent) (auth_stream body_stream : Bytes)
    (auth : BaseAuthComponent) (token : Bytes) : Type 0 where
  pub auth_size : length auth_stream ≡ header.auth_size
  pub body_size : length body_stream ≡ header.body_size
  pub both : (header.auth_size == 0 || header.body_size == 0) ≡ false
  pub auth_valid : J.auth.model_validate_json auth_stream ≡ some auth
  pub complete : auth_logical_check authentication auth ≡ true
  pub given : auth.token ≡ some token

module _ (J : ComponentJson) (D : TtlCache (List Bytes)) {V R : Type 0} (now : ℕ)
    (header : BaseHeaderComponent) (auth_stream body_stream rest : Bytes) (auth : BaseAuthComponent)
    (token : Bytes) (c : Call (Registry D V))
    (sent : Sent J header auth_stream body_stream auth token)
    (admitted : Admits now auth.identity token c.registry.user_manager) where
  -- A file request whose auth component is complete, and whose user has a live session with that
  -- token or no session at all, gets what its subhandler answers, called with the components that
  -- were sent, and is then read to its end.
  pub top_file_handler-Sent :
      (mapping : ℕ → Option (FileSubhandler (Registry D V) R)) (file : BaseFileComponent)
      (subhandler : FileSubhandler (Registry D V) R)
      → J.file.model_validate_json body_stream ≡ some file
      → mapping header.subcategory ≡ some subhandler
      → top_file_handler J D now header mapping (before c (auth_stream ++ (body_stream ++ rest)))
        ≡ on_registry (subhandler header auth file) (before c rest)
  unfolding top_file_handler serve_file
  top_file_handler-Sent mapping file subhandler valid found =
      let read =
        read_component-append J.auth header.auth_size auth_stream (body_stream ++ rest) c
          sent.auth_size sent.auth_valid in
      let read_file =
        read_component-append J.file header.body_size body_stream rest c sent.body_size valid in
      let passed = authenticate-Admits D now auth token (before c (body_stream ++ rest)) admitted in
      let asserts : asserted_token auth.token ≡ ok token =
        asserted_token-truthy auth.token token sent.given (truthy-token auth sent.complete) in
      let both = sent.both in
      let complete = sent.complete in
      ground (arith, both, read, complete, asserts, passed, read_file, found)

  -- A permission request likewise; its subhandler is found by the subcategory without the role.
  pub top_permission_handler-Sent :
      (mapping : ℕ → Option (PermissionSubhandler (Registry D V) R))
      (permission : BasePermissionComponent) (subhandler : PermissionSubhandler (Registry D V) R)
      → J.permission.model_validate_json body_stream ≡ some permission
      → mapping (without_role header.subcategory) ≡ some subhandler
      → top_permission_handler J D now header mapping
          (before c (auth_stream ++ (body_stream ++ rest)))
        ≡ on_registry (subhandler header auth permission) (before c rest)
  unfolding top_permission_handler serve_permission
  top_permission_handler-Sent mapping permission subhandler valid found =
      let read =
        read_component-append J.auth header.auth_size auth_stream (body_stream ++ rest) c
          sent.auth_size sent.auth_valid in
      let read_permission =
        read_component-append J.permission header.body_size body_stream rest c sent.body_size
          valid in
      let passed = authenticate-Admits D now auth token (before c (body_stream ++ rest)) admitted in
      let asserts : asserted_token auth.token ≡ ok token =
        asserted_token-truthy auth.token token sent.given (truthy-token auth sent.complete) in
      let both = sent.both in
      let complete = sent.complete in
      ground (arith, both, read, complete, asserts, passed, read_permission, found)
