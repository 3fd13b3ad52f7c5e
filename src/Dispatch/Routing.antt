-- ===== src/Dispatch/Routing.antt =====
-- Which handler a request gets (server/dispatch.py, and partialise_request_subhandlers of
-- server/bootup.py). A mapping's `get` and its subscript are the same function here: their callers
-- treat `none` as a missing key.
use custom_file_operation_pr.Prelude.{ℕ, ◌==◌, if◌then◌else◌, Bool, Option, none, some, List, Bytes}
use custom_file_operation_pr.Prelude.Ttl.{TtlCache}
use custom_file_operation_pr.Models.Flags.{
  info_category, auth_category, file_op_category, permission_category, register_bit, login_bit,
  refresh_bit, logout_bit, change_password_bit, delete_user_bit, heartbeat_bits,
  permission_metadata_bit, file_metadata_bit, storage_usage_bit, ssl_credentials_bit, grant_bit,
  revoke_bit, hide_bit, publicise_bit, transfer_bit, create_bit, write_bit, append_bit,
  overwrite_bit, read_bit, delete_bit,
}
use custom_file_operation_pr.Models.Request.{BaseHeaderComponent}
use custom_file_operation_pr.Dispatch.Handlers.{
  ComponentJson, Registry, Handling, AuthSubhandler, PermissionSubhandler, FileSubhandler,
  InfoSubhandler, top_auth_handler, top_info_handler, top_file_handler, top_permission_handler,
}

-- The subhandlers of each category, of the type `H`.
pub record AuthSubhandlers (H : Type 0) : Type 0 where
  pub handle_registration : H
  pub handle_login : H
  pub handle_session_refresh : H
  pub handle_session_termination : H
  pub handle_password_change : H
  pub handle_deletion : H

pub record InfoSubhandlers (H : Type 0) : Type 0 where
  pub handle_heartbeat : H
  pub handle_permission_query : H
  pub handle_filedata_query : H
  pub handle_storage_query : H
  pub handle_ssl_query : H

pub record PermissionSubhandlers (H : Type 0) : Type 0 where
  pub grant_permission : H
  pub revoke_permission : H
  pub hide_file : H
  pub publicise_file : H
  pub transfer_ownership : H

pub record FileSubhandlers (H : Type 0) : Type 0 where
  pub handle_creation : H
  pub handle_amendment : H
  pub handle_read : H
  pub handle_deletion : H

module _ {H : Type 0} where
  unfoldable pub auth_subhandler_mapping : AuthSubhandlers H → ℕ → Option H
  auth_subhandler_mapping subs flag =
      if flag == register_bit
      then some subs.handle_registration
      else if flag == login_bit
      then some subs.handle_login
      else if flag == refresh_bit
      then some subs.handle_session_refresh
      else if flag == logout_bit
      then some subs.handle_session_termination
      else if flag == change_password_bit
      then some subs.handle_password_change
      else if flag == delete_user_bit
      then some subs.handle_deletion
      else none

  unfoldable pub info_subhandler_mapping : InfoSubhandlers H → ℕ → Option H
  info_subhandler_mapping subs flag =
      if flag == heartbeat_bits
      then some subs.handle_heartbeat
      else if flag == permission_metadata_bit
      then some subs.handle_permission_query
      else if flag == file_metadata_bit
      then some subs.handle_filedata_query
      else if flag == storage_usage_bit
      then some subs.handle_storage_query
      else if flag == ssl_credentials_bit
      then some subs.handle_ssl_query
      else none

  unfoldable pub permission_subhandler_mapping : PermissionSubhandlers H → ℕ → Option H
  permission_subhandler_mapping subs flag =
      if flag == grant_bit
      then some subs.grant_permission
      else if flag == revoke_bit
      then some subs.revoke_permission
      else if flag == hide_bit
      then some subs.hide_file
      else if flag == publicise_bit
      then some subs.publicise_file
      else if flag == transfer_bit
      then some subs.transfer_ownership
      else none

  unfoldable pub file_subhandler_mapping : FileSubhandlers H → ℕ → Option H
  file_subhandler_mapping subs flag =
      if flag == create_bit
      then some subs.handle_creation
      else if flag == write_bit
      then some subs.handle_amendment
      else if flag == append_bit
      then some subs.handle_amendment
      else if flag == overwrite_bit
      then some subs.handle_amendment
      else if flag == read_bit
      then some subs.handle_read
      else if flag == delete_bit
      then some subs.handle_deletion
      else none

pub record Subhandlers (S R : Type 0) : Type 0 where
  pub auth : AuthSubhandlers (AuthSubhandler S R)
  pub info : InfoSubhandlers (InfoSubhandler S R)
  pub permission : PermissionSubhandlers (PermissionSubhandler S R)
  pub file : FileSubhandlers (FileSubhandler S R)

-- `TOP_LEVEL_REQUEST_MAPPING`, each handler with the mapping of its subhandlers.
unfoldable pub partialised_mapping :
    (J : ComponentJson)
    → (D : TtlCache (List Bytes)) → {V R : Type 0} → (now : ℕ) → (known : ℕ → Bool)
    → Subhandlers (Registry D V) R
    → (category : ℕ) → Option (BaseHeaderComponent → Handling (Registry D V) R)
partialised_mapping J D now known subs category =
    if category == auth_category
    then some (top_auth_handler J (auth_subhandler_mapping subs.auth))
    else if category == info_category
    then some (λ h. top_info_handler J D now h known (info_subhandler_mapping subs.info))
    else if category == permission_category
    then some
        (λ h. top_permission_handler J D now h (permission_subhandler_mapping subs.permission))
    else if category == file_op_category
    then some (λ h. top_file_handler J D now h (file_subhandler_mapping subs.file))
    else none
