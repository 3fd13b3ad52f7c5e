-- ===== src/Client/InSync.antt =====
-- The client's record of its session, beside the server's.
use custom_file_operation_pr.Prelude.{
  ℕ, ◌+◌, ◌≡◌, refl, sym, ◌∙◌, ap, inl, inr, true, false, Option, none, some, List, ◌∷◌, Text,
  Bytes, arith, Option-cases, List-cases,
}
use custom_file_operation_pr.Prelude.Dict.{lookup}
use custom_file_operation_pr.Prelude.Ttl.{TtlCache}
use custom_file_operation_pr.Prelude.Action.{Result, ok, err, Result-cases}
use custom_file_operation_pr.Errors.{Exception, internal_server_error}
use custom_file_operation_pr.Models.Flags.{auth_category, refresh_bit}
use custom_file_operation_pr.Models.Session.{SessionMetadata, update_digest}
use custom_file_operation_pr.Models.Request.{BaseHeaderComponent, BaseAuthComponent}
use custom_file_operation_pr.Models.Responses.{ServerConfig, ResponseHeader}
use custom_file_operation_pr.Authz.Library.{Library}
use custom_file_operation_pr.Authz.State.{UserManager}
use custom_file_operation_pr.Authz.Sessions.{refresh_session}
use custom_file_operation_pr.Authz.Handlers.{handle_session_refresh}
use custom_file_operation_pr.Authz.Tokens.{refresh_session-Refreshed}
use custom_file_operation_pr.Dispatch.Outgoing.{SentHeader, sent_header, from_protocol_exception}
use custom_file_operation_pr.Dispatch.Callback.{answered}
use custom_file_operation_pr.Client.SessionManager.{
  Utf8, SessionManager, reauthorize_locally, set_digest,
}
use custom_file_operation_pr.Client.AuthOperations.{
  Client, Exchange, RefreshClaims, make_header_component, reauthorize, set_iteration,
}

-- The server's answer to a refresh, as the client reads it. A digest that is no text ends in an
-- internal error.
abbrev refresh_claims :
    BaseHeaderComponent → ResponseHeader → ℕ → Option Text → SentHeader × Option RefreshClaims
refresh_claims header h iteration none =
    (from_protocol_exception internal_server_error header.version header.finish, none)
refresh_claims header h iteration (some digest) =
    (sent_header h, some (record { digest = some digest; iteration = iteration }))

abbrev refresh_answer :
    (Bytes → Option Text)
    → BaseHeaderComponent
    → Result Exception (ResponseHeader × (Bytes × ℕ))
    → SentHeader × Option RefreshClaims
refresh_answer decode header (ok (h, (digest, iteration))) =
    refresh_claims header h iteration (decode digest)
refresh_answer decode header (err e) =
    (from_protocol_exception (answered e) header.version header.finish, none)

-- The exchange with a server whose handler of refreshes is `handle_session_refresh`. A request
-- without an auth component fails in it.
abbrev pub refresh_exchange :
    Utf8
    → (lib : Library) → (D : TtlCache (List Bytes)) → ServerConfig
    → (new_digest : Bytes) → (now : ℕ) → Exchange (UserManager D.Cache) RefreshClaims
refresh_exchange utf8 lib D config new_digest now header none s =
    (ok (from_protocol_exception internal_server_error header.version header.finish, none), s)
refresh_exchange utf8 lib D config new_digest now header (some auth) s =
    let (r, s') = handle_session_refresh lib D header auth config new_digest now s in
    (ok (refresh_answer utf8.decode header r), s')

-- The server holds the session for the user, and the client its token, its digest and its iteration.
pub record InSync {Digests : Type 0} (utf8 : Utf8) (username : Text) (m : SessionManager)
    (s : UserManager Digests) (session : SessionMetadata) : Type 0 where
  pub metadata : SessionMetadata
  pub auth : BaseAuthComponent
  pub client_metadata : m.session_metadata ≡ some metadata
  pub client_auth : m.auth_component ≡ some auth
  pub client_identity : m.identity ≡ some username
  pub auth_identity : auth.identity ≡ username
  pub auth_token : auth.token ≡ some session.token
  pub auth_digest : auth.refresh_digest ≡ some session.refresh_digest
  pub server_session : lookup username s.session ≡ some session
  pub same_token : utf8.decode session.token ≡ some metadata.token
  pub same_digest : utf8.decode session.refresh_digest ≡ some metadata.refresh_digest
  pub same_iteration : session.iteration ≡ metadata.iteration

module _ (lib : Library) (D : TtlCache (List Bytes)) (config : ServerConfig) (new_digest : Bytes)
    (now : ℕ) (header : BaseHeaderComponent) (auth : BaseAuthComponent) where
  -- A handler that returns has refreshed the session.
  handle_session_refresh-inv :
      (token digest : Bytes) (s : UserManager D.Cache) {h : ResponseHeader} {claims : Bytes × ℕ}
      → auth.token ≡ some token
      → auth.refresh_digest ≡ some digest
      → (handle_session_refresh lib D header auth config new_digest now s).0 ≡ ok (h, claims)
      → ((refresh_session D auth.identity token digest new_digest now s).0 ≡ ok claims)
        × ((handle_session_refresh lib D header auth config new_digest now s).1
            ≡ (refresh_session D auth.identity token digest new_digest now s).1)
  unfolding handle_session_refresh
  handle_session_refresh-inv token digest s {h} {claims} t d e =
      elim (Result-cases (refresh_session D auth.identity token digest new_digest now s).0) [
        | inl (answer, r) ↦ ground arith
        | inr (x, r) ↦ absurd (ground arith)
      ]

-- What the client's record becomes when it takes over a digest and an iteration.
abbrev renewed :
    (encode : Text → Bytes)
    → (digest : Text) → (iteration now : ℕ) → SessionManager
    → SessionManager
renewed encode digest iteration now m = set_iteration iteration (set_digest encode digest now m)

module _ (encode : Text → Bytes) (version : Text) (timestamp client_now : ℕ) {W : Type 0}
    (exchange : Exchange W RefreshClaims) (c : Client W) where
  abbrev refresh_header : BaseHeaderComponent
  refresh_header = make_header_component version timestamp auth_category refresh_bit false

  -- A refresh that the client counts as a success has brought a digest, which is kept.
  reauthorize-inv :
      (answer : SentHeader × Option RefreshClaims)
      → (exchange refresh_header c.session_manager.auth_component c.world).0 ≡ ok answer
      → (reauthorize encode version timestamp client_now exchange c).0 ≡ ok true
      → (digest : Text) × (iteration : ℕ) × (answer.1
          ≡ some (record { digest = some digest; iteration = iteration }))
        × ((reauthorize encode version timestamp client_now exchange c).1 ≡ record {
          session_manager = renewed encode digest iteration client_now c.session_manager;
          world = (exchange refresh_header c.session_manager.auth_component c.world).1;
        })
  unfolding reauthorize reauthorize_locally
  reauthorize-inv (header, none) e h = absurd (ground arith)
  reauthorize-inv (header, some claims) e h = elim (Option-cases claims.digest) [
    | inl missing ↦ absurd (ground arith)
    | inr (digest, d) ↦ elim (List-cases digest) [
      | inl empty ↦ absurd (ground arith)
      | inr (b, bs, d') ↦ (
        b ∷ bs,
        claims.iteration,
        ap (λ x. some (record { digest = x; iteration = claims.iteration })) (d ∙ ap some d'),
        ground arith,
      )
    ]
  ]

-- The two records after a refresh that both sides made.
renewed-InSync :
    {Digests : Type 0} (utf8 : Utf8) (username : Text) (m : SessionManager)
    (s s' : UserManager Digests) (session : SessionMetadata) (new_digest : Bytes) (digest : Text)
    (now client_now : ℕ)
    → InSync utf8 username m s session
    → utf8.decode new_digest ≡ some digest
    → lookup username s'.session ≡ some (update_digest new_digest now session)
    → InSync utf8 username
        (renewed utf8.encode digest (session.iteration + 1) client_now m)
        s'
        (update_digest new_digest now session)
renewed-InSync utf8 username m s s' session new_digest digest now client_now sync text kept =
    let metadata' = record (update_digest digest client_now sync.metadata) {
      iteration = session.iteration + 1;
    } in
    let auth' = record (sync.auth) { refresh_digest = some (utf8.encode digest) } in
    let client_metadata = sync.client_metadata in
    let client_auth = sync.client_auth in
    let client_identity = sync.client_identity in
    record {
      metadata = metadata';
      auth = auth';
      client_metadata = ground (arith, client_metadata, client_auth);
      client_auth = ground (arith, client_metadata, client_auth);
      client_identity = ground (arith, client_metadata, client_auth, client_identity);
      auth_identity = sync.auth_identity;
      auth_token = sync.auth_token;
      auth_digest = ap some (utf8.encode-decode new_digest digest text);
      server_session = kept;
      same_token = sync.same_token;
      same_digest = text;
      same_iteration = refl;
    }

-- The claims of a refresh that brought a digest.
refresh_claims-inv :
    (header : BaseHeaderComponent) (h : ResponseHeader) (i iteration : ℕ) (o : Option Text)
    (digest : Text)
    → (refresh_claims header h i o).1
      ≡ some (record { digest = some digest; iteration = iteration })
    → (o ≡ some digest) × (iteration ≡ i)
refresh_claims-inv header h i iteration none digest e = absurd cc
refresh_claims-inv header h i iteration (some text) digest e =
    let same : text ≡ digest = cc in (ap some same, cc)

-- The server holds a session for a user, and the client its token, its digest and its iteration. After
-- a refresh that the client counts as a success, the server holds the session with the new digest, its
-- time renewed and one more iteration, and the client the token, the digest and the iteration
-- of that.
pub reauthorize-InSync :
    (utf8 : Utf8) (lib : Library) (D : TtlCache (List Bytes)) (config : ServerConfig)
    (new_digest : Bytes) (now client_now timestamp : ℕ) (version username : Text)
    (session : SessionMetadata) (c : Client (UserManager D.Cache))
    → InSync utf8 username c.session_manager c.world session
    → let exchange = refresh_exchange utf8 lib D config new_digest now in
      let (r, c') = reauthorize utf8.encode version timestamp client_now exchange c in
      r ≡ ok true
      → InSync utf8 username c'.session_manager c'.world (update_digest new_digest now session)
reauthorize-InSync utf8 lib D config new_digest now client_now timestamp version username session c
      sync h =
    let exchange = refresh_exchange utf8 lib D config new_digest now in
    let header = make_header_component version timestamp auth_category refresh_bit false in
    let auth = sync.auth in
    let run = handle_session_refresh lib D header auth config new_digest now c.world in
    let answer = refresh_answer utf8.decode header in
    let sent : exchange header c.session_manager.auth_component c.world
        ≡ (ok (answer run.0), run.1) =
      ap (λ a. exchange header a c.world) sync.client_auth in
    let (digest, iteration, shape, state) =
      reauthorize-inv utf8.encode version timestamp client_now exchange c (answer run.0)
        (ap (λ x. x.0) sent) h in
    elim (Result-cases run.0) [
      | inr (x, e) ↦ absurd (let gone = ap (λ r. (answer r).1) e in cc)
      | inl ((hh, (d, i)), e) ↦
          (let (ran, after) =
              handle_session_refresh-inv lib D config new_digest now header auth session.token
                session.refresh_digest c.world sync.auth_token sync.auth_digest e in
            let r =
              refresh_session-Refreshed D auth.identity c.world session.token session.refresh_digest
                new_digest now ran in
            let same_session : r.auth ≡ session =
              let found = r.found in
              let known =
                ap (λ u. lookup u c.world.session) sync.auth_identity ∙ sync.server_session in
              cc in
            let (text, same) =
              refresh_claims-inv header hh i iteration (utf8.decode d) digest
                (sym (ap (λ r. (answer r).1) e) ∙ shape) in
            let answered_with = r.answer in
            let new : d ≡ new_digest = cc in
            let same_iteration : iteration ≡ r.auth.iteration + 1 = cc in
            let manager : (reauthorize utf8.encode version timestamp client_now exchange
                  c).1.session_manager
                ≡ renewed utf8.encode digest (session.iteration + 1) client_now c.session_manager =
              ap (λ c. c.session_manager) state
              ∙ ap (λ n. renewed utf8.encode digest n client_now c.session_manager)
                  (same_iteration ∙ ap (λ a. a.iteration + 1) same_session) in
            let world : (reauthorize utf8.encode version timestamp client_now exchange c).1.world
                ≡ run.1 =
              ap (λ c. c.world) state ∙ ap (λ x. x.1) sent in
            let kept : lookup username run.1.session ≡ some (update_digest new_digest now session) =
              ap (λ w. lookup username w.session) after
              ∙ ap
                  (λ u.
                    lookup u
                      (refresh_session D auth.identity session.token session.refresh_digest
                        new_digest now c.world).1.session)
                  (sym sync.auth_identity)
              ∙ r.renewed
              ∙ ap (λ a. some (update_digest new_digest now a)) same_session in
            rw (manager, world)
              (renewed-InSync utf8 username c.session_manager c.world run.1 session new_digest
                digest now client_now sync (ap utf8.decode (sym new) ∙ text) kept))
    ]
