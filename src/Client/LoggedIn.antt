-- ===== src/Client/LoggedIn.antt =====
-- A login, on the client and on the server.
use custom_file_operation_pr.Prelude.{
  ℕ, ◌≡◌, refl, sym, ◌∙◌, ap, inl, inr, true, false, Option, none, some, List, Text, Bytes, arith,
  Option-cases,
}
use custom_file_operation_pr.Prelude.Dict.{lookup}
use custom_file_operation_pr.Prelude.Ttl.{TtlCache}
use custom_file_operation_pr.Prelude.Action.{Result, ok, err, Result-cases}
use custom_file_operation_pr.Errors.{Exception, internal_server_error}
use custom_file_operation_pr.Models.Flags.{auth_category, login_bit}
use custom_file_operation_pr.Models.Session.{SessionMetadata, new_session}
use custom_file_operation_pr.Models.Request.{BaseHeaderComponent, BaseAuthComponent}
use custom_file_operation_pr.Models.Responses.{ServerConfig, ResponseHeader}
use custom_file_operation_pr.Authz.Library.{Library}
use custom_file_operation_pr.Authz.State.{UserManager}
use custom_file_operation_pr.Authz.Accounts.{authorize_session}
use custom_file_operation_pr.Authz.Library.{check_username_validity}
use custom_file_operation_pr.Authz.Handlers.{handle_login}
use custom_file_operation_pr.Authz.Logins.{authorize_session-stores}
use custom_file_operation_pr.Dispatch.Outgoing.{SentHeader, sent_header, from_protocol_exception}
use custom_file_operation_pr.Dispatch.Callback.{answered}
use custom_file_operation_pr.Client.SessionManager.{Utf8, local_authenticate, from_response}
use custom_file_operation_pr.Client.AuthOperations.{
  Client, Exchange, SessionClaims, make_header_component, authorize, accept_session,
}
use custom_file_operation_pr.Client.InSync.{InSync}

-- The claims that the response makes of a session, whose token and digest are texts.
abbrev session_claims : (token digest : Text) → SessionMetadata → SessionClaims
session_claims token digest s = record {
  token = token;
  refresh_digest = digest;
  lifespan = s.lifespan;
  last_refresh = s.last_refresh;
  valid_until = s.valid_until;
  iteration = s.iteration;
}

-- A token or a digest that is no text ends in an internal error.
abbrev login_claims :
    BaseHeaderComponent
    → ResponseHeader
    → SessionMetadata
    → Option Text
    → Option Text
    → SentHeader × Option (Option SessionClaims)
login_claims header h session (some token) (some digest) =
    (sent_header h, some (some (session_claims token digest session)))
login_claims header h session (some token) none =
    (from_protocol_exception internal_server_error header.version header.finish, none)
login_claims header h session none _ =
    (from_protocol_exception internal_server_error header.version header.finish, none)

abbrev login_answer :
    (Bytes → Option Text)
    → BaseHeaderComponent
    → Result Exception (ResponseHeader × SessionMetadata)
    → SentHeader × Option (Option SessionClaims)
login_answer decode header (ok (h, session)) =
    login_claims header h session (decode session.token) (decode session.refresh_digest)
login_answer decode header (err e) =
    (from_protocol_exception (answered e) header.version header.finish, none)

login_claims-inv :
    (header : BaseHeaderComponent) (h : ResponseHeader) (session : SessionMetadata)
    (o o' : Option Text) (claims : SessionClaims)
    → (login_claims header h session o o').1 ≡ some (some claims)
    → (token : Text) × (digest : Text) × (o ≡ some token)
      × (o' ≡ some digest)
      × (session_claims token digest session ≡ claims)
login_claims-inv header h session (some token) (some digest) claims e =
    (token, digest, refl, refl, cc)
login_claims-inv header h session (some token) none claims e = absurd cc
login_claims-inv header h session none o' claims e = absurd cc

-- The exchange with a server whose handler of logins is `handle_login`.
abbrev pub login_exchange :
    Utf8
    → (lib : Library) → (D : TtlCache (List Bytes)) → ServerConfig
    → (token digest : Bytes) → (now : ℕ) → Exchange (UserManager D.Cache) (Option SessionClaims)
login_exchange utf8 lib D config token digest now header none s =
    (ok (from_protocol_exception internal_server_error header.version header.finish, none), s)
login_exchange utf8 lib D config token digest now header (some auth) s =
    let (r, s') = handle_login lib D header auth config token digest now s in
    (ok (login_answer utf8.decode header r), s')

module _ (encode : Text → Bytes) (version : Text) (timestamp client_now : ℕ) {W : Type 0}
    (exchange : Exchange W (Option SessionClaims)) (auth : BaseAuthComponent) (c : Client W) where
  abbrev login_header : BaseHeaderComponent
  login_header = make_header_component version timestamp auth_category login_bit false

  -- A login that the client counts as a success has brought a session, which is kept.
  authorize-inv :
      (answer : SentHeader × Option (Option SessionClaims))
      → (exchange login_header (some auth) c.world).0 ≡ ok answer
      → (authorize encode version timestamp client_now exchange auth c).0 ≡ ok true
      → (claims : SessionClaims) × (answer.1 ≡ some (some claims))
        × ((authorize encode version timestamp client_now exchange auth c).1 ≡ record {
          session_manager = accept_session encode auth.identity claims c.session_manager;
          world = (exchange login_header (some auth) c.world).1;
        })
  unfolding authorize
  authorize-inv (header, none) e h = absurd (ground arith)
  authorize-inv (header, some none) e h = absurd (ground arith)
  authorize-inv (header, some (some claims)) e h = (claims, refl, ground arith)

module _ (lib : Library) (D : TtlCache (List Bytes)) (config : ServerConfig) (token digest : Bytes)
    (now : ℕ) (header : BaseHeaderComponent) (auth : BaseAuthComponent) where
  handle_login-inv :
      (s : UserManager D.Cache) {h : ResponseHeader} {session : SessionMetadata}
      → (handle_login lib D header auth config token digest now s).0 ≡ ok (h, session)
      → (password : Text) × ((authorize_session lib D auth.identity password token digest now s).0
          ≡ ok session)
        × ((handle_login lib D header auth config token digest now s).1
            ≡ (authorize_session lib D auth.identity password token digest now s).1)
  unfolding handle_login
  handle_login-inv s {h} {session} e = elim (Option-cases auth.password) [
    | inl missing ↦ absurd (ground arith)
    | inr (password, p) ↦
        elim (Result-cases (authorize_session lib D auth.identity password token digest now s).0) [
          | inl (answer, r) ↦ (password, ground arith, ground arith)
          | inr (x, r) ↦ absurd (ground arith)
        ]
  ]

-- After a login that the client counts as a success, the server holds the new session for the user,
-- if it keeps the name as the client sent it, and the client the token, the digest, the iteration, the
-- lifespan and the times of that session.
pub authorize-InSync :
    (utf8 : Utf8) (lib : Library) (D : TtlCache (List Bytes)) (config : ServerConfig)
    (token digest : Bytes) (now client_now timestamp : ℕ) (version : Text)
    (auth : BaseAuthComponent) (c : Client (UserManager D.Cache))
    → check_username_validity lib auth.identity ≡ some auth.identity
    → let exchange = login_exchange utf8 lib D config token digest now in
      let (r, c') = authorize utf8.encode version timestamp client_now exchange auth c in
      let session = new_session token digest c.world.session_lifespan now in
      r ≡ ok true
      → (sync : InSync utf8 auth.identity c'.session_manager c'.world session)
        × (sync.metadata.lifespan ≡ session.lifespan)
        × (sync.metadata.last_refresh ≡ session.last_refresh)
        × (sync.metadata.valid_until ≡ session.valid_until)
unfolding local_authenticate
authorize-InSync utf8 lib D config token digest now client_now timestamp version auth c valid h =
    let exchange = login_exchange utf8 lib D config token digest now in
    let header = make_header_component version timestamp auth_category login_bit false in
    let run = handle_login lib D header auth config token digest now c.world in
    let answer = login_answer utf8.decode header in
    let (claims, shape, state) =
      authorize-inv utf8.encode version timestamp client_now exchange auth c (answer run.0) refl
        h in
    elim (Result-cases run.0) [
      | inr (x, e) ↦ absurd (let gone = ap (λ r. (answer r).1) e in cc)
      | inl ((hh, session), e) ↦
          (let (password, logged_in, after) =
              handle_login-inv lib D config token digest now header auth c.world e in
            let (stored, made) =
              authorize_session-stores lib auth.identity password auth.identity D token digest now
                c.world valid logged_in in
            let (token', digest', text, text', same) =
              login_claims-inv header hh session (utf8.decode session.token)
                (utf8.decode session.refresh_digest) claims
                (sym (ap (λ r. (answer r).1) e) ∙ shape) in
            let kept : lookup auth.identity run.1.session ≡ some session =
              ap (λ w. lookup auth.identity w.session) after ∙ stored in
            rw (state, ← same, ← made)
              (
                record {
                  metadata =
                      from_response token' digest' session.lifespan session.last_refresh
                        session.valid_until session.iteration;
                  auth = record {
                    identity = auth.identity;
                    password = none;
                    token = some (utf8.encode token');
                    refresh_digest = some (utf8.encode digest');
                  };
                  client_metadata = refl;
                  client_auth = refl;
                  client_identity = refl;
                  auth_identity = refl;
                  auth_token = ap some (utf8.encode-decode session.token token' text);
                  auth_digest = ap some (utf8.encode-decode session.refresh_digest digest' text');
                  server_session = kept;
                  same_token = text;
                  same_digest = text';
                  same_iteration = refl;
                },
                ap (λ x. x.lifespan) made,
                ap (λ x. x.last_refresh) made,
                ap (λ x. x.valid_until) made,
              ))
    ]
