-- ===== src/Client/AuthOperations.antt =====
-- The client's operations on accounts and sessions (client/operations/auth_operations.py). What they
-- display is left out but for whether it tells of a success.
use custom_file_operation_pr.Prelude.{
  ℕ, ltb, if◌then◌else◌, Bool, true, false, not, ◌&&◌, Option, none, some, [], ◌∷◌, Text, Bytes,
  text_eq,
}
use custom_file_operation_pr.Prelude.Action.{
  Action, ◌>>=◌, ◌>>◌, pure, gets, modify, or_raise, raise_unless,
}
use custom_file_operation_pr.Errors.{Exception, value_error, assertion_error}
use custom_file_operation_pr.Models.Flags.{
  auth_category, register_bit, login_bit, refresh_bit, change_password_bit, delete_user_bit,
  logout_bit,
}
use custom_file_operation_pr.Models.Request.{BaseHeaderComponent, BaseAuthComponent, truthy}
use custom_file_operation_pr.Models.Responses.{
  SuccessFlags, success_code, successful_user_creation, successful_user_deletion,
  successful_authentication, successful_session_refresh, successful_session_termination,
  successful_password_change,
}
use custom_file_operation_pr.Dispatch.Outgoing.{SentHeader}
use custom_file_operation_pr.Client.SessionManager.{
  SessionManager, local_authenticate, clear_auth_data, check_authentication_integrity,
  reauthorize_locally,
}

-- The client, and what it talks to.
pub record Client (W : Type 0) : Type 0 where
  pub session_manager : SessionManager
  pub world : W

abbrev pub Operation : Type 0 → Type 0 → Type 0
Operation W = Action Exception (Client W)

abbrev pub on_session_manager : {W A : Type 0} → Action Exception SessionManager A → Operation W A
on_session_manager m c =
    let (r, manager) = m c.session_manager in (r, record c { session_manager = manager })

-- `send_request` and then `process_response`: the header and the contents of the response.
abbrev pub Exchange : Type 0 → Type 0 → Type 0
Exchange W C =
    BaseHeaderComponent → Option BaseAuthComponent → Action Exception W (SentHeader × Option C)

abbrev pub send_and_receive :
    {W C : Type 0}
    → Exchange W C
    → BaseHeaderComponent
    → Option BaseAuthComponent
    → Operation W (SentHeader × Option C)
send_and_receive exchange header auth c =
    let (r, world') = exchange header auth c.world in (r, record c { world = world' })

abbrev pub is_code : SentHeader → SuccessFlags → Bool
is_code header flag = text_eq header.code (success_code flag)

module _ (version : Text) (timestamp : ℕ) where
  unfoldable pub make_header_component :
      (category subcategory : ℕ) → (finish : Bool) → BaseHeaderComponent
  make_header_component category subcategory finish = record {
    version = version;
    auth_size = 0;
    body_size = 0;
    sender_timestamp = timestamp;
    finish = finish;
    category = category;
    subcategory = subcategory;
  }

  module _ {W C : Type 0} (exchange : Exchange W C) (end_connection : Bool) where
    -- The exchange of the operations that keep no state of their own.
    abbrev auth_exchange :
        (subcategory : ℕ)
        → (finish : Bool) → Option BaseAuthComponent
        → Operation W (SentHeader × Option C)
    auth_exchange subcategory finish auth =
        send_and_receive exchange (make_header_component auth_category subcategory finish) auth

    unfoldable pub create_remote_user : BaseAuthComponent → Operation W Bool
    unfolding success_code make_header_component
    create_remote_user auth = do
      response ← auth_exchange register_bit end_connection (some auth)
      pure (is_code response.0 successful_user_creation)

    unfoldable pub delete_remote_user : BaseAuthComponent → Operation W Bool
    unfolding success_code make_header_component
    delete_remote_user auth = do
      response ← auth_exchange delete_user_bit end_connection (some auth)
      pure (is_code response.0 successful_user_deletion)

    -- `if session_manager.identity: session_manager.clear_auth_data()`
    abbrev clear_named : SessionManager → SessionManager
    clear_named m = if truthy m.identity then clear_auth_data m else m

    unfoldable pub end_remote_session : Operation W Bool
    unfolding success_code make_header_component clear_auth_data
    end_remote_session = do
      manager ← gets (λ c. c.session_manager)
      response ← auth_exchange logout_bit end_connection manager.auth_component
      if is_code response.0 successful_session_termination
          then (modify (λ c. record c { session_manager = clear_named c.session_manager })
              >> pure true)
          else pure false

  -- `valid` is pydantic's check of the fields of the new component.
  module _ {W C : Type 0} (exchange : Exchange W C) (valid : BaseAuthComponent → Bool) where
    abbrev password_component : Text → (new_password : Text) → BaseAuthComponent → BaseAuthComponent
    password_component identity new_password auth = record {
      identity = identity;
      password = some new_password;
      token = auth.token;
      refresh_digest = auth.refresh_digest;
    }

    abbrev send_password : BaseAuthComponent → Operation W Bool
    send_password auth = do
      response ←
          send_and_receive exchange (make_header_component auth_category change_password_bit false)
            (some auth)
      if is_code response.0 successful_password_change
          then (modify (λ c. record c { session_manager = clear_auth_data c.session_manager })
              >> pure true)
          else pure false

    unfoldable pub change_password : (new_password : Text) → Operation W Bool
    unfolding success_code make_header_component clear_auth_data check_authentication_integrity
    change_password new_password = do
      manager ← gets (λ c. c.session_manager)
      raise_unless (check_authentication_integrity manager) value_error
      identity ← or_raise assertion_error manager.identity
      auth ← or_raise assertion_error manager.auth_component
      let component = password_component identity new_password auth
      if truthy auth.token && truthy auth.refresh_digest && valid component
          then send_password component
          else pure false

-- The claims of the session in the response to a login.
pub record SessionClaims : Type 0 where
  pub token : Text
  pub refresh_digest : Text
  pub lifespan : ℕ
  pub last_refresh : ℕ
  pub valid_until : ℕ
  pub iteration : ℕ

-- The claims of the response to a refresh.
pub record RefreshClaims : Type 0 where
  pub digest : Option Text
  pub iteration : ℕ

-- `check_authentication_response_validity(session_dict, validate_timestamp=True)`: of the claims,
-- only the end of the session is looked at.
unfoldable pub check_authentication_response_validity : (now : ℕ) → SessionClaims → Bool
check_authentication_response_validity now claims = not (ltb claims.valid_until now)

abbrev pub accept_session :
    (encode : Text → Bytes) → (identity : Text) → SessionClaims → SessionManager → SessionManager
accept_session encode identity claims =
    local_authenticate encode identity claims.token claims.refresh_digest claims.lifespan
      claims.last_refresh claims.valid_until claims.iteration

abbrev pub set_iteration : ℕ → SessionManager → SessionManager
set_iteration iteration m = elim m.session_metadata [
  | none ↦ m
  | some metadata ↦ record m { session_metadata = some (record metadata { iteration = iteration }) }
]

module _ (encode : Text → Bytes) (version : Text) (timestamp now : ℕ) {W : Type 0} where
  -- What `authorize` makes of the contents of a success; `none` lacks the session.
  abbrev keep_session : (identity : Text) → Option (Option SessionClaims) → Operation W Bool
  keep_session identity none = pure false
  keep_session identity (some none) = pure false
  keep_session identity (some (some claims)) =
      if check_authentication_response_validity now claims
      then modify (λ c. record c {
        session_manager = accept_session encode identity claims c.session_manager;
      })
        >> pure true
      else pure false

  unfoldable pub authorize :
      Exchange W (Option SessionClaims) → BaseAuthComponent → Operation W Bool
  unfolding success_code make_header_component local_authenticate
      check_authentication_response_validity
  authorize exchange auth = do
    response ←
        send_and_receive exchange
          (make_header_component version timestamp auth_category login_bit false) (some auth)
    if is_code response.0 successful_authentication
        then keep_session auth.identity response.1
        else pure false

  -- What `reauthorize` makes of the contents of a success. An iteration that differs from the
  -- client's own takes its place.
  abbrev keep_digest : Option RefreshClaims → Operation W Bool
  keep_digest none = pure false
  keep_digest (some claims) = elim claims.digest [
    | none ↦ pure false
    | some [] ↦ pure false
    | some (b ∷ bs) ↦
        (on_session_manager (reauthorize_locally encode (b ∷ bs) now)
          >> modify
              (λ c. record c { session_manager = set_iteration claims.iteration c.session_manager })
          >> pure true)
  ]

  unfoldable pub reauthorize : Exchange W RefreshClaims → Operation W Bool
  unfolding success_code make_header_component check_authentication_integrity reauthorize_locally
  reauthorize exchange = do
    manager ← gets (λ c. c.session_manager)
    raise_unless (check_authentication_integrity manager) value_error
    response ←
        send_and_receive exchange
          (make_header_component version timestamp auth_category refresh_bit false)
          manager.auth_component
    if is_code response.0 successful_session_refresh then keep_digest response.1 else pure false
