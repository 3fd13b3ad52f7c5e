-- ===== src/Dispatch/Passing.antt =====
-- What a file or permission request goes through before its subhandler.
use custom_file_operation_pr.Prelude.{
  ℕ, ◌==◌, ◌||◌, ◌≡◌, refl, ◌∙◌, ap, inl, inr, ◌⊎◌, Bool, Option, none, some, List, [], ◌∷◌, Bytes,
}
use custom_file_operation_pr.Prelude.Ttl.{TtlCache}
use custom_file_operation_pr.Prelude.Action.{
  ok, err, ◌>>=◌, raise_if, raise_unless, Result-cases, bind-ok, bind-err,
}
use custom_file_operation_pr.Errors.{
  Exception, invalid_header_semantic, invalid_auth_semantic, invalid_auth_data,
}
use custom_file_operation_pr.Models.Request.{
  BaseHeaderComponent, BaseAuthComponent, authentication, auth_logical_check,
}
use custom_file_operation_pr.Streams.Padding.{Json}
use custom_file_operation_pr.Dispatch.Handlers.{
  ServerSingletonsRegistry, Registry, Call, Handling, ComponentJson, read_component, asserted,
  asserted_token, authenticate, PermissionSubhandler, FileSubhandler, serve_permission, serve_file,
  top_permission_handler, top_file_handler,
}
use custom_file_operation_pr.Dispatch.Gate.{
  Admits, authenticate-inv, authenticate-services, authenticate-backend,
}

-- The call raises, and touches nothing but the stream and the sessions of the user manager.
abbrev pub Refuses :
    {Digests V A : Type 0}
    → Handling (ServerSingletonsRegistry Digests V) A
    → Call (ServerSingletonsRegistry Digests V)
    → Type 0
Refuses m c =
    ((e : Exception) × ((m c).0 ≡ err e))
    × ((m c).1.registry.services ≡ c.registry.services)
    × ((m c).1.registry.user_manager.backend ≡ c.registry.user_manager.backend)

-- The call is refused, or `Q` holds.
record Passes {Digests V A : Type 0} (Q : Type 0)
    (m : Handling (ServerSingletonsRegistry Digests V) A)
    (c : Call (ServerSingletonsRegistry Digests V)) : Type 0 where
  outcome : Q ⊎ Refuses m c

-- The call leaves what the subhandlers work on.
record Keeps {Digests V A : Type 0} (m : Handling (ServerSingletonsRegistry Digests V) A)
    (c : Call (ServerSingletonsRegistry Digests V)) : Type 0 where
  same : (m c).1.registry.services ≡ c.registry.services
  backend : (m c).1.registry.user_manager.backend ≡ c.registry.user_manager.backend

module _ {Digests V A B : Type 0} {Q : Type 0} {m : Handling (ServerSingletonsRegistry Digests V) A}
    {f : A → Handling (ServerSingletonsRegistry Digests V) B}
    {c : Call (ServerSingletonsRegistry Digests V)} where
  Passes-bind :
      Keeps m c → ((a : A) → (m c).0 ≡ ok a → Passes Q (f a) (m c).1) → Passes Q (m >>= f) c
  Passes-bind kept k = elim (Result-cases (m c).0) [
    | inl (a, e) ↦
        (let step = bind-ok m f (ap (λ r. (r, (m c).1)) e) in
          elim (k a e).outcome [
            | inl q ↦ record { outcome = inl q }
            | inr ((x, raised), last, last') ↦ record {
              outcome = inr (
                (x, ap (λ r. r.0) step ∙ raised),
                ap (λ r. r.1.registry.services) step ∙ last ∙ kept.same,
                ap (λ r. r.1.registry.user_manager.backend) step ∙ last' ∙ kept.backend,
              );
            }
          ])
    | inr (x, e) ↦
        (let step = bind-err m f (ap (λ r. (r, (m c).1)) e) in
          record {
            outcome = inr (
              (x, ap (λ r. r.0) step),
              ap (λ r. r.1.registry.services) step ∙ kept.same,
              ap (λ r. r.1.registry.user_manager.backend) step ∙ kept.backend,
            );
          })
  ]

module _ {Digests V : Type 0} (c : Call (ServerSingletonsRegistry Digests V)) where
  Keeps-raise_if : (b : Bool) (e : Exception) → Keeps (raise_if b e) c
  Keeps-raise_if b e = record { same = refl; backend = refl }

  Keeps-raise_unless : (b : Bool) (e : Exception) → Keeps (raise_unless b e) c
  Keeps-raise_unless b e = record { same = refl; backend = refl }

  Keeps-asserted : (token : Option Bytes) → Keeps (asserted token) c
  Keeps-asserted token = record { same = refl; backend = refl }

  Keeps-read_component : {A : Type 0} (json : Json A) (n : ℕ) → Keeps (read_component json n) c
  unfolding read_component
  Keeps-read_component json n = record { same = refl; backend = refl }

asserted_token-some :
    (o : Option Bytes) (token : Bytes) → asserted_token o ≡ ok token → o ≡ some token
asserted_token-some none token h = absurd cc
asserted_token-some (some []) token h = absurd cc
asserted_token-some (some (b ∷ bs)) token h = cc

module _ (J : ComponentJson) (D : TtlCache (List Bytes)) {V : Type 0} (now : ℕ)
    (header : BaseHeaderComponent) (c : Call (Registry D V)) where
  -- The auth component that the request sends is let pass.
  abbrev pub Admitted : Type 0
  Admitted =
      (auth : BaseAuthComponent) × (token : Bytes) × ((read_component J.auth header.auth_size c).0
        ≡ ok auth)
      × (auth.token ≡ some token)
      × Admits now auth.identity token c.registry.user_manager

  -- The part of a handler from the authentication on.
  admit-Passes :
      {R : Type 0} (auth : BaseAuthComponent) (token : Bytes) (k : Handling (Registry D V) R)
      → (read_component J.auth header.auth_size c).0 ≡ ok auth
      → auth.token ≡ some token
      → Passes Admitted
          (authenticate D now auth token >>= λ _. k)
          (read_component J.auth header.auth_size c).1
  unfolding read_component
  admit-Passes auth token k read given =
      let c' = (read_component J.auth header.auth_size c).1 in
      Passes-bind {m = authenticate D now auth token} {f = λ _. k} {c = c'}
        (record {
          same = authenticate-services D now auth token c';
          backend = authenticate-backend D now auth token c';
        })
        (λ _ admitted. record {
          outcome = inl (auth, token, read, given, authenticate-inv D now auth token c' admitted);
        })

  -- Of a request on files, either the auth component that it sends has a token, and its user has no
  -- session, whatever the token, or one that is not over and has this token; or the handler raises,
  -- and leaves the tables, the disk and the caches of files as they were.
  pub top_file_handler-Admitted :
      {R : Type 0} (mapping : ℕ → Option (FileSubhandler (Registry D V) R))
      → Admitted ⊎ Refuses (top_file_handler J D now header mapping) c
  unfolding top_file_handler read_component
  top_file_handler-Admitted mapping =
      (Passes-bind
        (Keeps-raise_if c (header.auth_size == 0 || header.body_size == 0) invalid_header_semantic)
        (λ _ _. Passes-bind (Keeps-read_component c J.auth header.auth_size) (λ auth read.
          let c' = (read_component J.auth header.auth_size c).1 in
          Passes-bind
            (Keeps-raise_unless c' (auth_logical_check authentication auth) invalid_auth_data)
            (λ _ _. Passes-bind (Keeps-asserted c' auth.token) (λ token given.
              Passes-bind
                (Keeps-raise_unless c' (auth_logical_check authentication auth)
                  invalid_auth_semantic)
                (λ _ _.
                  admit-Passes auth token (serve_file J header mapping auth) read
                    (asserted_token-some auth.token token given))))))).outcome

  -- The same for a request on permissions.
  top_permission_handler-Admitted :
      {R : Type 0} (mapping : ℕ → Option (PermissionSubhandler (Registry D V) R))
      → Admitted ⊎ Refuses (top_permission_handler J D now header mapping) c
  unfolding top_permission_handler read_component
  top_permission_handler-Admitted mapping =
      (Passes-bind
        (Keeps-raise_if c (header.auth_size == 0 || header.body_size == 0) invalid_header_semantic)
        (λ _ _. Passes-bind (Keeps-read_component c J.auth header.auth_size) (λ auth read.
          let c' = (read_component J.auth header.auth_size c).1 in
          Passes-bind (Keeps-asserted c' auth.token) (λ token given.
            Passes-bind
              (Keeps-raise_unless c' (auth_logical_check authentication auth) invalid_auth_semantic)
              (λ _ _.
                admit-Passes auth token (serve_permission J header mapping auth) read
                  (asserted_token-some auth.token token given)))))).outcome
