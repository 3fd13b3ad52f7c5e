-- ===== src/Client/PermissionOperations.antt =====
-- The client's operations on permissions (client/operations/permission_operations.py) and its
-- information requests (client/operations/info_operations.py). What they display is left out but for
-- whether it tells of a success.
use custom_file_operation_pr.Prelude.{
  ℕ, ◌≡◌, refl, if◌then◌else◌, Bool, false, Option, none, some, Text, arith,
}
use Prim.Native.Nat.{bit_and, bit_or}
use custom_file_operation_pr.Prelude.Action.{
  Action, ◌>>=◌, ◌>>◌, pure, gets, or_raise, raise_unless,
}
use custom_file_operation_pr.Errors.{Exception, value_error}
use custom_file_operation_pr.Models.Flags.{
  info_category, permission_category, grant_bit, revoke_bit, hide_bit, publicise_bit, transfer_bit,
  reader_bit, editor_bit, manager_bit, role_extraction_bitmask, heartbeat_bits,
  operation_extraction_bits,
}
use custom_file_operation_pr.Models.Roles.{RoleTypes, role_mapping}
use custom_file_operation_pr.Models.Request.{
  BaseHeaderComponent, BaseAuthComponent, BasePermissionComponent, truthy,
}
use custom_file_operation_pr.Models.Responses.{
  success_code, SuccessFlags, successful_grant, successful_revoke, successful_file_publicise,
  successful_file_hide, successful_ownership_transfer, heartbeat, successful_query_answer,
}
use custom_file_operation_pr.Dispatch.Outgoing.{SentHeader}
use custom_file_operation_pr.Dispatch.Handlers.{
  without_role, is_unauthenticated_info, is_header_only_info,
}
use custom_file_operation_pr.Dispatch.Routing.{PermissionSubhandlers, permission_subhandler_mapping}
use custom_file_operation_pr.Client.Communication.{BodyComponent, permission_body, info_body}
use custom_file_operation_pr.Client.AuthOperations.{Operation, make_header_component, is_code}

-- The loop over `ROLE_MAPPING` and its `else`.
unfoldable pub role_flag : RoleTypes → Option ℕ
role_flag RoleTypes.owner = none
role_flag RoleTypes.reader = some reader_bit
role_flag RoleTypes.editor = some editor_bit
role_flag RoleTypes.manager = some manager_bit

unfoldable pub grant_bits : RoleTypes → Option ℕ
unfolding role_flag
grant_bits role = elim (role_flag role) [ none ↦ none | some flag ↦ some (bit_or grant_bit flag) ]

-- `send_request` with a body, and then `process_response`.
module _ (version : Text) (timestamp : ℕ) {W C : Type 0}
    (exchange : BaseHeaderComponent
      → Option BaseAuthComponent
      → Option BodyComponent
      → Action Exception W (SentHeader × Option C)) where
  -- A request with the credentials of the session, or without.
  abbrev send_body :
      BaseHeaderComponent
      → Option BaseAuthComponent
      → Option BodyComponent
      → Operation W (SentHeader × Option C)
  send_body header auth body c =
      let (r, world') = exchange header auth body c.world in (r, record c { world = world' })

  abbrev send_permission :
      (subcategory : ℕ)
      → (finish : Bool) → BasePermissionComponent
      → SuccessFlags
      → Operation W Bool
  send_permission subcategory finish permission success = do
    manager ← gets (λ c. c.session_manager)
    response ←
        send_body (make_header_component version timestamp permission_category subcategory finish)
          manager.auth_component (some (permission_body permission))
    pure (is_code response.0 success)

  -- `grant_permission`
  unfoldable pub send_grant :
      BasePermissionComponent → RoleTypes → (end_connection : Bool) → Operation W Bool
  unfolding success_code make_header_component grant_bits
  send_grant permission role end_connection = do
    bits ← or_raise value_error (grant_bits role)
    raise_unless (truthy permission.subject_user) value_error
    send_permission bits end_connection permission successful_grant

  -- `revoke_permission`, which does not pass `end_connection` on
  unfoldable pub send_revoke : BasePermissionComponent → (end_connection : Bool) → Operation W Bool
  unfolding success_code make_header_component
  send_revoke permission end_connection =
      send_permission revoke_bit false permission successful_revoke

  -- `transfer_ownership`
  unfoldable pub send_transfer :
      BasePermissionComponent → (end_connection : Bool) → Operation W Bool
  unfolding success_code make_header_component
  send_transfer permission end_connection =
      send_permission transfer_bit end_connection permission successful_ownership_transfer

  unfoldable pub publicise_remote_file :
      BasePermissionComponent → (end_connection : Bool) → Operation W Bool
  unfolding success_code make_header_component
  publicise_remote_file permission end_connection =
      send_permission publicise_bit end_connection permission successful_file_publicise

  unfoldable pub hide_remote_file :
      BasePermissionComponent → (end_connection : Bool) → Operation W Bool
  unfolding success_code make_header_component
  hide_remote_file permission end_connection =
      send_permission hide_bit end_connection permission successful_file_hide

  unfoldable pub send_heartbeat : (end_connection : Bool) → Operation W Bool
  unfolding success_code make_header_component
  send_heartbeat end_connection = do
    response ←
        send_body
          (make_header_component version timestamp info_category heartbeat_bits end_connection) none
          none
    pure (is_code response.0 heartbeat)

  -- The credentials and the resource go along only with the operations that the server asks them of.
  unfoldable pub send_info_query :
      (subcategory_flags : ℕ)
      → (resource : Option Text) → (end_connection : Bool) → Operation W Bool
  unfolding success_code make_header_component
  send_info_query subcategory_flags resource end_connection = do
    manager ← gets (λ c. c.session_manager)
    let extracted = bit_and subcategory_flags operation_extraction_bits
    response ←
        send_body
          (make_header_component version timestamp info_category subcategory_flags end_connection)
          (if is_unauthenticated_info extracted then none else manager.auth_component)
          (if is_header_only_info extracted
            then none
            else some (info_body (record { subject_resource = resource })))
    pure (is_code response.0 successful_query_answer)

-- The subcategory that the client sends to grant a role is taken apart by the server: it finds the
-- subhandler of grants, and the role.
pub grant_bits-role_mapping :
    {H : Type 0} (subs : PermissionSubhandlers H) (role : RoleTypes) {bits : ℕ}
    → grant_bits role ≡ some bits
    → (permission_subhandler_mapping subs (without_role bits) ≡ some subs.grant_permission)
      × (role_mapping (bit_and bits role_extraction_bitmask) ≡ some role)
unfolding grant_bits without_role permission_subhandler_mapping role_mapping
grant_bits-role_mapping subs RoleTypes.owner h = absurd cc
grant_bits-role_mapping subs RoleTypes.reader {bits} h =
    let same : bits ≡ 0b00100001 = ground arith in rw same (refl, refl)
grant_bits-role_mapping subs RoleTypes.editor {bits} h =
    let same : bits ≡ 0b01000001 = ground arith in rw same (refl, refl)
grant_bits-role_mapping subs RoleTypes.manager {bits} h =
    let same : bits ≡ 0b10000001 = ground arith in rw same (refl, refl)
