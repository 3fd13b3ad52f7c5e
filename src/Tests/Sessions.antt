-- ===== src/Tests/Sessions.antt =====
-- Runs of a client that logs in and refreshes its session, and that grants a role.
use custom_file_operation_pr.Prelude.{
  ℕ, ◌≡◌, refl, true, none, some, List, Bytes, codes, text_eq, strip, is_space,
}
use custom_file_operation_pr.Tests.Fixtures.{
  alice, by_alice, config, ascii, plain_cache, manager, session, utf8,
}
use custom_file_operation_pr.Prelude.Action.{ok}
use Prim.Native.Nat.{bit_and}
use custom_file_operation_pr.Prelude.Dict.{Dict, lookup, erase}
use custom_file_operation_pr.Models.Flags.{role_extraction_bitmask}
use custom_file_operation_pr.Models.Session.{new_session, update_digest}
use custom_file_operation_pr.Models.Roles.{RoleTypes, role_mapping}
use custom_file_operation_pr.Models.Request.{BaseAuthComponent, auth_logical_check}
use custom_file_operation_pr.Authz.Library.{check_username_validity}
use custom_file_operation_pr.Dispatch.Outgoing.{sent_header}
use custom_file_operation_pr.Authz.State.{UserManager}
use custom_file_operation_pr.Authz.Sessions.{refresh_session}
use custom_file_operation_pr.Authz.Accounts.{authorize_session}
use custom_file_operation_pr.Authz.Handlers.{handle_session_refresh, handle_login}
use custom_file_operation_pr.Dispatch.Handlers.{without_role}
use custom_file_operation_pr.Dispatch.Routing.{PermissionSubhandlers, permission_subhandler_mapping}
use custom_file_operation_pr.Client.AuthOperations.{Client, authorize, reauthorize}
use custom_file_operation_pr.Client.InSync.{InSync, refresh_exchange, reauthorize-InSync}
use custom_file_operation_pr.Client.LoggedIn.{login_exchange, authorize-InSync}
use custom_file_operation_pr.Client.PermissionOperations.{grant_bits, grant_bits-role_mapping}

abbrev client : Client (UserManager (Dict (List Bytes)))
client = record {
  session_manager = record {
    identity = some alice;
    session_metadata = some session;
    auth_component = some by_alice;
  };
  world = manager;
}

client-InSync : InSync utf8 alice client.session_manager client.world session
unfolding lookup text_eq
client-InSync = record {
  metadata = session;
  auth = by_alice;
  client_metadata = refl;
  client_auth = refl;
  client_identity = refl;
  auth_identity = refl;
  auth_token = refl;
  auth_digest = refl;
  server_session = refl;
  same_token = refl;
  same_digest = refl;
  same_iteration = refl;
}

reauthorize_runs :
    (reauthorize utf8.encode
      (codes "1.0")
      49
      51
      (refresh_exchange utf8 ascii plain_cache config (codes "e") 50)
      client).0
    ≡ ok true
unfolding reauthorize handle_session_refresh refresh_session auth_logical_check text_eq erase
    sent_header
reauthorize_runs = refl

reauthorize-InSync_example :
    InSync utf8 alice
      (reauthorize utf8.encode
        (codes "1.0")
        49
        51
        (refresh_exchange utf8 ascii plain_cache config (codes "e") 50)
        client).1.session_manager
      (reauthorize utf8.encode
        (codes "1.0")
        49
        51
        (refresh_exchange utf8 ascii plain_cache config (codes "e") 50)
        client).1.world
      (update_digest (codes "e") 50 session)
reauthorize-InSync_example =
    reauthorize-InSync utf8 ascii plain_cache config (codes "e") 50 51 49 (codes "1.0") alice
      session client client-InSync reauthorize_runs

-- A login with a password.
abbrev with_password : BaseAuthComponent
with_password = record {
  identity = alice;
  password = some (codes "pass");
  token = none;
  refresh_digest = none;
}

alice_keeps_name : check_username_validity ascii alice ≡ some alice
unfolding check_username_validity strip is_space
alice_keeps_name = refl

authorize_runs :
    (authorize utf8.encode
      (codes "1.0")
      49
      51
      (login_exchange utf8 ascii plain_cache config (codes "u") (codes "e") 50)
      with_password
      client).0
    ≡ ok true
unfolding authorize handle_login authorize_session strip is_space text_eq auth_logical_check
    sent_header
authorize_runs = refl

authorize-InSync_example :
    let made = new_session (codes "u") (codes "e") 100 50 in
    (sync : InSync utf8 alice
      (authorize utf8.encode
        (codes "1.0")
        49
        51
        (login_exchange utf8 ascii plain_cache config (codes "u") (codes "e") 50)
        with_password
        client).1.session_manager
      (authorize utf8.encode
        (codes "1.0")
        49
        51
        (login_exchange utf8 ascii plain_cache config (codes "u") (codes "e") 50)
        with_password
        client).1.world
      made)
    × (sync.metadata.lifespan ≡ made.lifespan)
    × (sync.metadata.last_refresh ≡ made.last_refresh)
    × (sync.metadata.valid_until ≡ made.valid_until)
authorize-InSync_example =
    authorize-InSync utf8 ascii plain_cache config (codes "u") (codes "e") 50 51 49 (codes "1.0")
      with_password client alice_keeps_name authorize_runs

abbrev subs : PermissionSubhandlers ℕ
subs = record {
  grant_permission = 1;
  revoke_permission = 2;
  hide_file = 3;
  publicise_file = 4;
  transfer_ownership = 5;
}

reader_bits : grant_bits RoleTypes.reader ≡ some 0b00100001
unfolding grant_bits
reader_bits = refl

grant_bits-role_mapping_example :
    (permission_subhandler_mapping subs (without_role 0b00100001) ≡ some 1)
    × (role_mapping (bit_and 0b00100001 role_extraction_bitmask) ≡ some RoleTypes.reader)
grant_bits-role_mapping_example = grant_bits-role_mapping subs RoleTypes.reader reader_bits
