-- ===== src/Dispatch/Handlers.antt =====
-- The four top handlers (server/authz/auth_handler.py, server/permission_ops/permission_handler.py,
-- server/file_ops/file_handler.py, server/info_ops/info_handler.py). Their conversion of the
-- subcategory is left out where it cannot fail: an `IntFlag` takes every number.
use custom_file_operation_pr.Prelude.{
  ℕ, ◌==◌, if◌then◌else◌, Bool, true, ◌||◌, Option, none, some, List, [], ◌∷◌, Bytes,
}
use Prim.Native.Nat.{bit_and}
use custom_file_operation_pr.Prelude.Ttl.{TtlCache}
use custom_file_operation_pr.Prelude.Action.{
  Action, Result, ok, err, ◌>>=◌, ◌>>◌, pure, or_raise, raise_if, raise_unless,
}
use custom_file_operation_pr.Errors.{
  Exception, invalid_header_semantic, invalid_auth_semantic, invalid_auth_data,
  unsupported_operation, key_error, assertion_error,
}
use custom_file_operation_pr.Models.Flags.{
  logout_bit, operation_extraction_bits, heartbeat_bits, ssl_credentials_bit, storage_usage_bit,
}
use custom_file_operation_pr.Models.Request.{
  BaseHeaderComponent, BaseAuthComponent, BasePermissionComponent, BaseFileComponent,
  BaseInfoComponent, authentication, auth_logical_check,
}
use custom_file_operation_pr.Authz.State.{UserManager, Method}
use custom_file_operation_pr.Authz.Sessions.{authenticate_session}
use custom_file_operation_pr.Streams.Reader.{StreamReader}
use custom_file_operation_pr.Streams.Padding.{Json}
use custom_file_operation_pr.Dispatch.Incoming.{process_component}

-- The singletons, as far as the top handlers use them; the rest, `V`, is for the subhandlers.
pub record ServerSingletonsRegistry (Digests V : Type 0) : Type 0 where
  pub user_manager : UserManager Digests
  pub services : V

abbrev pub Registry : TtlCache (List Bytes) → Type 0 → Type 0
Registry D V = ServerSingletonsRegistry D.Cache V

-- What a top handler works on: the stream of its connection, and the singletons.
pub record Call (S : Type 0) : Type 0 where
  pub reader : StreamReader
  pub registry : S

pub record ComponentJson : Type 0 where
  pub header : Json BaseHeaderComponent
  pub auth : Json BaseAuthComponent
  pub permission : Json BasePermissionComponent
  pub file : Json BaseFileComponent
  pub info : Json BaseInfoComponent

abbrev pub Handling : Type 0 → Type 0 → Type 0
Handling S = Action Exception (Call S)

abbrev pub on_reader : {S A : Type 0} → Action Exception StreamReader A → Handling S A
on_reader m c = let (r, reader') = m c.reader in (r, record c { reader = reader' })

abbrev pub on_registry : {S A : Type 0} → Action Exception S A → Handling S A
on_registry m c = let (r, registry') = m c.registry in (r, record c { registry = registry' })

abbrev pub on_user_manager :
    {Digests V A : Type 0} → Method Digests A → Handling (ServerSingletonsRegistry Digests V) A
on_user_manager m =
    on_registry
      (λ s. let (r, manager) = m s.user_manager in (r, record s { user_manager = manager }))

-- `assert auth_component.token`
abbrev pub asserted_token : Option Bytes → Result Exception Bytes
asserted_token none = err assertion_error
asserted_token (some []) = err assertion_error
asserted_token (some (b ∷ bs)) = ok (b ∷ bs)

abbrev pub asserted : {S : Type 0} → Option Bytes → Handling S Bytes
asserted token c = (asserted_token token, c)

-- The subhandlers of a category, with what `inject_global_singletons` binds already given.
abbrev pub AuthSubhandler : Type 0 → Type 0 → Type 0
AuthSubhandler S R = BaseHeaderComponent → Option BaseAuthComponent → Action Exception S R

abbrev pub PermissionSubhandler : Type 0 → Type 0 → Type 0
PermissionSubhandler S R =
    BaseHeaderComponent → BaseAuthComponent → BasePermissionComponent → Action Exception S R

abbrev pub FileSubhandler : Type 0 → Type 0 → Type 0
FileSubhandler S R =
    BaseHeaderComponent → BaseAuthComponent → BaseFileComponent → Action Exception S R

-- An argument that the top handler leaves out of the call is `none`.
abbrev pub InfoSubhandler : Type 0 → Type 0 → Type 0
InfoSubhandler S R =
    BaseHeaderComponent → Option BaseAuthComponent → Option BaseInfoComponent → Action Exception S R

-- `PermissionFlags(subcategory & ~PermissionFlags.ROLE_EXTRACTION_BITMASK)`: the complement of a
-- flag has the bits of the other members.
unfoldable pub without_role : ℕ → ℕ
without_role subcategory = bit_and subcategory 0b00011111

abbrev pub is_unauthenticated_info : ℕ → Bool
is_unauthenticated_info bits = bits == heartbeat_bits || bits == ssl_credentials_bit

abbrev pub is_header_only_info : ℕ → Bool
is_header_only_info bits = is_unauthenticated_info bits || bits == storage_usage_bit

-- `process_component(n_bytes, stream_reader, ...)`
unfoldable pub read_component : {S A : Type 0} → Json A → ℕ → Handling S A
unfolding process_component
read_component J n_bytes = on_reader (process_component J n_bytes)

module _ (J : ComponentJson) {S : Type 0} where
  abbrev pub auth_component : BaseHeaderComponent → Handling S (Option BaseAuthComponent)
  auth_component header =
      if header.auth_size == 0
      then raise_unless (header.subcategory == logout_bit) invalid_auth_semantic >> pure none
      else read_component J.auth header.auth_size >>= λ auth. pure (some auth)

  unfoldable pub top_auth_handler :
      {R : Type 0}
      → (subhandler_mapping : ℕ → Option (AuthSubhandler S R)) → BaseHeaderComponent
      → Handling S R
  top_auth_handler subhandler_mapping header = do
    auth ← auth_component header
    subhandler ← or_raise key_error (subhandler_mapping header.subcategory)
    on_registry (subhandler header auth)

module _ (D : TtlCache (List Bytes)) {V : Type 0} (now : ℕ) where
  -- `await server_singleton_registry.user_manager.authenticate_session(..., raise_on_exc=True)`,
  -- whose answer no top handler looks at.
  unfoldable pub authenticate :
      BaseAuthComponent → (token : Bytes) → Handling (Registry D V) (Unit {0})
  unfolding authenticate_session
  authenticate auth token =
      on_user_manager (authenticate_session D auth.identity token true now) >> pure tt

module _ (J : ComponentJson) {S R : Type 0} (header : BaseHeaderComponent) where
  -- What the two handlers do for a caller that they let pass.
  unfoldable pub serve_permission :
      (subhandler_mapping : ℕ → Option (PermissionSubhandler S R))
      → BaseAuthComponent
      → Handling S R
  unfolding read_component without_role
  serve_permission subhandler_mapping auth = do
    permission ← read_component J.permission header.body_size
    subhandler ← or_raise key_error (subhandler_mapping (without_role header.subcategory))
    on_registry (subhandler header auth permission)

  unfoldable pub serve_file :
      (subhandler_mapping : ℕ → Option (FileSubhandler S R)) → BaseAuthComponent → Handling S R
  unfolding read_component
  serve_file subhandler_mapping auth = do
    file ← read_component J.file header.body_size
    subhandler ← or_raise key_error (subhandler_mapping header.subcategory)
    on_registry (subhandler header auth file)

module _ (J : ComponentJson) (D : TtlCache (List Bytes)) {V : Type 0} (now : ℕ) where
  module _ (header : BaseHeaderComponent) where
    unfoldable pub top_permission_handler :
        {R : Type 0}
        → (subhandler_mapping : ℕ → Option (PermissionSubhandler (Registry D V) R))
        → Handling (Registry D V) R
    unfolding auth_logical_check
    top_permission_handler subhandler_mapping = do
      raise_if (header.auth_size == 0 || header.body_size == 0) invalid_header_semantic
      auth ← read_component J.auth header.auth_size
      token ← asserted auth.token
      raise_unless (auth_logical_check authentication auth) invalid_auth_semantic
      authenticate D now auth token
      serve_permission J header subhandler_mapping auth

    -- The check of the auth component is made twice.
    unfoldable pub top_file_handler :
        {R : Type 0}
        → (subhandler_mapping : ℕ → Option (FileSubhandler (Registry D V) R))
        → Handling (Registry D V) R
    unfolding auth_logical_check
    top_file_handler subhandler_mapping = do
      raise_if (header.auth_size == 0 || header.body_size == 0) invalid_header_semantic
      auth ← read_component J.auth header.auth_size
      raise_unless (auth_logical_check authentication auth) invalid_auth_data
      token ← asserted auth.token
      raise_unless (auth_logical_check authentication auth) invalid_auth_semantic
      authenticate D now auth token
      serve_file J header subhandler_mapping auth

    abbrev pub info_auth : (routing_bits : ℕ) → Handling (Registry D V) (Option BaseAuthComponent)
    info_auth routing_bits = if is_unauthenticated_info routing_bits then pure none else do
      raise_if (header.auth_size == 0) invalid_header_semantic
      auth ← read_component J.auth header.auth_size
      token ← asserted auth.token
      authenticate D now auth token
      pure (some auth)

    abbrev pub info_component :
        (routing_bits : ℕ) → Handling (Registry D V) (Option BaseInfoComponent)
    info_component routing_bits = if is_header_only_info routing_bits then pure none else do
      raise_if (header.body_size == 0) invalid_header_semantic
      info ← read_component J.info header.body_size
      pure (some info)

    -- `known bits` is `bits in InfoFlags._value2member_map_`, which grows as flags are combined.
    unfoldable pub top_info_handler :
        {R : Type 0}
        → (known : ℕ → Bool) → (subhandler_mapping : ℕ → Option (InfoSubhandler (Registry D V) R))
        → Handling (Registry D V) R
    top_info_handler known subhandler_mapping = do
      raise_unless (known header.subcategory) unsupported_operation
      let routing_bits = bit_and operation_extraction_bits header.subcategory
      auth ← info_auth routing_bits
      info ← info_component routing_bits
      subhandler ← or_raise key_error (subhandler_mapping routing_bits)
      on_registry (subhandler header auth info)
