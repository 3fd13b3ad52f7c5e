-- ===== src/Authz/Handlers.antt =====
-- The handlers of `AUTH` requests (server/authz/auth_subhandlers.py). A response's body is the data
-- that the handler puts in it, without the server's clock.
use custom_file_operation_pr.Prelude.{
  ℕ, Bool, true, false, not, Option, none, some, List, Text, Bytes,
}
use custom_file_operation_pr.Prelude.Ttl.{TtlCache}
use custom_file_operation_pr.Prelude.Action.{
  Result, ◌>>=◌, ◌>>◌, pure, raise, or_raise, raise_if, raise_unless, catch, modify,
}
use custom_file_operation_pr.Errors.{
  Exception, invalid_auth_semantic, invalid_auth_data, assertion_error, timeout_error,
  internal_server_error,
}
use custom_file_operation_pr.Models.Session.{SessionMetadata}
use custom_file_operation_pr.Models.Request.{
  BaseHeaderComponent, BaseAuthComponent, authorization, authentication, truthy, auth_logical_check,
}
use custom_file_operation_pr.Models.Responses.{
  ServerConfig, ResponseHeader, from_server, successful_user_creation, successful_authentication,
  successful_user_deletion, successful_password_change, successful_session_refresh,
  successful_session_termination,
}
use custom_file_operation_pr.Database.Tables.{
  ActivityLog, non_critical_failure, LogType, file_handler,
}
use custom_file_operation_pr.Authz.Library.{Library}
use custom_file_operation_pr.Authz.State.{Method, on_backend, enqueue_activity}
use custom_file_operation_pr.Authz.Sessions.{
  forget, authenticate_session, terminate_session, refresh_session,
}
use custom_file_operation_pr.Authz.Accounts.{
  create_user, authorize_session, delete_user, change_password,
}

-- The log entry of a directory that could not be deleted in time.
abbrev pub deletion_log : Text → ActivityLog
deletion_log user = record {
  reported_severity = non_critical_failure;
  logged_by = file_handler;
  log_category = LogType.internal;
  user_concerned = some user;
}

module _ (lib : Library) (D : TtlCache (List Bytes)) (header : BaseHeaderComponent)
    (auth : BaseAuthComponent) (config : ServerConfig) where
  unfoldable pub handle_registration :
      (salt : Bytes) → (makedirs : Text → Bool) → Method D.Cache (ResponseHeader × Text)
  unfolding create_user auth_logical_check
  handle_registration salt makedirs = do
    raise_unless (auth_logical_check authorization auth) invalid_auth_semantic
    password ← or_raise assertion_error auth.password
    on_backend (create_user lib auth.identity password salt makedirs)
    pure (
      from_server config successful_user_creation (some header.version) header.finish,
      auth.identity,
    )

  -- The response of a login carries the server's version.
  unfoldable pub handle_login :
      (token digest : Bytes) → (now : ℕ) → Method D.Cache (ResponseHeader × SessionMetadata)
  unfolding authorize_session auth_logical_check
  handle_login token digest now = do
    raise_unless (auth_logical_check authorization auth) invalid_auth_semantic
    password ← or_raise assertion_error auth.password
    session ← authorize_session lib D auth.identity password token digest now
    pure (from_server config successful_authentication none header.finish, session)

  -- `directory` is how the deletion of the user's directory ends: the files deleted, or an
  -- exception.
  abbrev pub directory_except : Exception → Method D.Cache (List Text)
  directory_except timeout_error =
      enqueue_activity (deletion_log auth.identity) >> raise internal_server_error
  directory_except e = raise e

  unfoldable pub handle_deletion :
      (directory : Result Exception (List Text))
      → (now : ℕ) → Method D.Cache (ResponseHeader × List Text)
  unfolding delete_user
  handle_deletion directory now = do
    raise_if (not (truthy (some auth.identity))) invalid_auth_data
    raise_unless (truthy auth.password) invalid_auth_data
    password ← or_raise assertion_error auth.password
    delete_user lib D auth.identity password now
    files ← catch (λ s. (directory, s)) directory_except
    pure (from_server config successful_user_deletion (some header.version) header.finish, files)

  unfoldable pub handle_password_change : (now : ℕ) → Method D.Cache ResponseHeader
  unfolding authenticate_session auth_logical_check
  handle_password_change now = do
    raise_unless (auth_logical_check authentication auth) invalid_auth_semantic
    token ← or_raise assertion_error auth.token
    authenticate_session D auth.identity token true now
    raise_unless (truthy auth.password) invalid_auth_data
    password ← or_raise assertion_error auth.password
    on_backend (change_password lib auth.identity password)
    modify (forget D now auth.identity)
    pure (from_server config successful_password_change (some header.version) false)

  unfoldable pub handle_session_refresh :
      (new_digest : Bytes) → (now : ℕ) → Method D.Cache (ResponseHeader × (Bytes × ℕ))
  unfolding refresh_session auth_logical_check
  handle_session_refresh new_digest now = do
    raise_unless (auth_logical_check authentication auth) invalid_auth_semantic
    token ← or_raise assertion_error auth.token
    digest ← or_raise assertion_error auth.refresh_digest
    answer ← refresh_session D auth.identity token digest new_digest now
    pure (from_server config successful_session_refresh (some header.version) header.finish, answer)

module _ (D : TtlCache (List Bytes)) (header : BaseHeaderComponent) (config : ServerConfig) where
  abbrev pub end_session : ℕ → BaseAuthComponent → Method D.Cache (Option SessionMetadata)
  end_session now auth = do
    raise_unless (auth_logical_check authentication auth) invalid_auth_semantic
    token ← or_raise assertion_error auth.token
    authenticate_session D auth.identity token false now
    session ← terminate_session D auth.identity token now
    pure (some session)

  -- A guest, who sends no auth component, is let go.
  unfoldable pub handle_session_termination :
      Option BaseAuthComponent
      → (now : ℕ) → Method D.Cache (ResponseHeader × Option SessionMetadata)
  unfolding authenticate_session terminate_session auth_logical_check
  handle_session_termination auth now = do
    session ← elim auth [ none ↦ pure none | some a ↦ end_session now a ]
    pure (
      from_server config successful_session_termination (some header.version) header.finish,
      session,
    )
