-- ===== src/Dispatch/Gate.antt =====
-- Whom the top handlers let pass. `authenticate_session` answers None for a user without a session,
-- and no handler looks at the answer: such a user passes with any token.
use custom_file_operation_pr.Prelude.{
  ℕ, ◌≤◌, ◌≡◌, inl, inr, ◌⊎◌, none, some, List, Text, Bytes, text_eq_iff, arith, Option-cases,
}
use custom_file_operation_pr.Prelude.Dict.{lookup}
use custom_file_operation_pr.Prelude.Ttl.{TtlCache}
use custom_file_operation_pr.Prelude.Action.{ok}
use custom_file_operation_pr.Models.Session.{SessionMetadata, get_validity}
use custom_file_operation_pr.Models.Request.{BaseAuthComponent}
use custom_file_operation_pr.Authz.State.{UserManager}
use custom_file_operation_pr.Authz.Sessions.{authenticate_session}
use custom_file_operation_pr.Dispatch.Handlers.{Call, Registry, authenticate}

-- The user has no session, and then the token may be any; or has one that is not over, with the token.
abbrev pub Admits : {Digests : Type 0} → ℕ → Text → Bytes → UserManager Digests → Type 0
Admits now identity token m =
    (lookup identity m.session ≡ none)
    ⊎ ((auth : SessionMetadata) × (lookup identity m.session ≡ some auth)
        × (now ≤ get_validity auth)
        × (auth.token ≡ token))

module _ (D : TtlCache (List Bytes)) {V : Type 0} (now : ℕ) (auth : BaseAuthComponent)
    (token : Bytes) (c : Call (Registry D V)) where
  pub authenticate-Admits :
      Admits now auth.identity token c.registry.user_manager
      → authenticate D now auth token c ≡ (ok tt, c)
  unfolding authenticate authenticate_session
  authenticate-Admits (inl absent) = ground arith
  authenticate-Admits (inr (found, e, live, same)) = ground (arith, text_eq_iff found.token token)

  pub authenticate-inv :
      (authenticate D now auth token c).0 ≡ ok tt
      → Admits now auth.identity token c.registry.user_manager
  unfolding authenticate authenticate_session
  authenticate-inv h = elim (Option-cases (lookup auth.identity c.registry.user_manager.session)) [
    | inl absent ↦ inl absent
    | inr (found, e) ↦ inr (found, e, ground arith, ground (arith, text_eq_iff found.token token))
  ]

  -- A refusal touches nothing but the sessions.
  pub authenticate-services :
      (authenticate D now auth token c).1.registry.services ≡ c.registry.services
  unfolding authenticate authenticate_session
  authenticate-services =
      elim (Option-cases (lookup auth.identity c.registry.user_manager.session)) [
        | inl absent ↦ ground arith
        | inr (found, e) ↦ ground arith
      ]

  pub authenticate-backend :
      (authenticate D now auth token c).1.registry.user_manager.backend
      ≡ c.registry.user_manager.backend
  unfolding authenticate authenticate_session
  authenticate-backend =
      elim (Option-cases (lookup auth.identity c.registry.user_manager.session)) [
        | inl absent ↦ ground arith
        | inr (found, e) ↦ ground arith
      ]
