-- ===== src/Authz/Tokens.antt =====
-- Which tokens open a session, and what a refresh, a logout and the trimming task do to it.
use custom_file_operation_pr.Prelude.{
  ℕ, ◌+◌, ◌≤◌, ◌≡◌, ◌≢◌, ◌↔◌, inl, inr, Bool, false, none, some, List, any, Text, Bytes, text_eq,
  text_eq_iff, text_eq_refl, arith, Option-cases,
}
use custom_file_operation_pr.Prelude.Dict.{
  lookup, insert, erase, lookup-insert_self, lookup-erase_self,
}
use custom_file_operation_pr.Prelude.Ttl.{TtlCache}
use custom_file_operation_pr.Prelude.Action.{ok, err}
use custom_file_operation_pr.Errors.{user_authentication_error}
use custom_file_operation_pr.Models.Session.{
  SessionMetadata, update_digest, get_validity, new_session,
}
use custom_file_operation_pr.Authz.State.{UserManager}
use custom_file_operation_pr.Authz.Sessions.{
  authenticate_session, terminate_session, refresh_session, previous_digests, append_digest,
}

module _ (D : TtlCache (List Bytes)) (username : Text) (s : UserManager D.Cache) where
  -- `authenticate_session` returns a session exactly when the user has one, it is not over, and
  -- its token is the given one.
  pub authenticate_session_iff :
      (token : Bytes) (raise_on_exc : Bool) (now : ℕ) (auth : SessionMetadata)
      → ((authenticate_session D username token raise_on_exc now s).0 ≡ ok (some auth)) ↔ (
          (lookup username s.session ≡ some auth)
          × (now ≤ get_validity auth)
          × (auth.token ≡ token))
  unfolding authenticate_session
  authenticate_session_iff token raise_on_exc now auth =
      elim (Option-cases (lookup username s.session)) [
        | inl absent ↦ ground arith
        | inr (found, e) ↦ ground (arith, text_eq_iff found.token token)
      ]

  -- After a `terminate_session` that returns, no token opens the user's session, at any time.
  pub authenticate_session-terminate_session :
      (token other : Bytes) (now later : ℕ) (raise_on_exc : Bool) {auth : SessionMetadata}
      → (terminate_session D username token now s).0 ≡ ok auth
      → (lookup username s.session ≡ some auth)
        × (auth.token ≡ token)
        × ((authenticate_session D username other raise_on_exc later
              (terminate_session D username token now s).1).0
            ≡ ok none)
  unfolding authenticate_session terminate_session
  authenticate_session-terminate_session token other now later raise_on_exc {auth} h =
      elim (Option-cases (lookup username s.session)) [
        | inl absent ↦ ground arith
        | inr (found, e) ↦
            ground (arith, text_eq_iff found.token token, lookup-erase_self username s.session)
      ]

-- What a refresh that returns has checked and done.
pub record Refreshed (D : TtlCache (List Bytes)) (username : Text) (token digest new_digest : Bytes)
    (now : ℕ) (s : UserManager D.Cache) (result : Bytes × ℕ) (s' : UserManager D.Cache)
    : Type 0 where
  pub auth : SessionMetadata
  pub found : lookup username s.session ≡ some auth
  pub alive : now ≤ get_validity auth
  pub authentic : auth.token ≡ token
  pub mature : auth.last_refresh + s.session_refresh_nbf ≤ now
  pub current : auth.refresh_digest ≡ digest
  pub unused : any (λ d. text_eq d digest) (previous_digests D now username s) ≡ false
  -- the caller gets the new digest, with which the session goes on
  pub answer : result ≡ (new_digest, auth.iteration + 1)
  pub renewed : lookup username s'.session ≡ some (update_digest new_digest now auth)
  -- and the old one counts as used
  pub recorded :
      s'.previous_digests_mapping
      ≡ D.set now username
          (append_digest digest (previous_digests D now username s))
          s.previous_digests_mapping

module _ (D : TtlCache (List Bytes)) (username : Text) (s : UserManager D.Cache) where
  -- A `refresh_session` that returns was given the token and the current digest of a live session
  -- that is old enough, and a digest that is not among the used ones; it answers with the new
  -- digest and the next iteration, renews the session with them, and records the old digest.
  pub refresh_session-Refreshed :
      (token digest new_digest : Bytes) (now : ℕ) {result : Bytes × ℕ}
      → (refresh_session D username token digest new_digest now s).0 ≡ ok result
      → Refreshed D username token digest new_digest now s result
          (refresh_session D username token digest new_digest now s).1
  unfolding refresh_session
  refresh_session-Refreshed token digest new_digest now h =
      elim (Option-cases (lookup username s.session)) [
        | inl absent ↦ absurd (ground arith)
        | inr (auth, e) ↦ record {
          auth = auth;
          found = e;
          alive = ground arith;
          authentic = ground (arith, text_eq_iff auth.token token);
          mature = ground arith;
          current = ground (arith, text_eq_iff auth.refresh_digest digest);
          unused = ground arith;
          answer = ground arith;
          renewed = ground (
            arith,
            lookup-erase_self username s.session,
            text_eq_refl new_digest,
            lookup-insert_self username (update_digest new_digest now auth) (
                insert username (new_session token new_digest s.session_lifespan now)
                  (erase username s.session)),
          );
          recorded = ground (
            arith,
            text_eq_iff auth.refresh_digest digest,
            lookup-erase_self username s.session,
            text_eq_refl new_digest,
          );
        }
      ]

  -- A refresh that comes in time, with the right token and a digest that is not the current one, is
  -- refused, and ends the session.
  pub refresh_session-wrong_digest :
      (auth : SessionMetadata) (token digest new_digest : Bytes) (now : ℕ)
      → lookup username s.session ≡ some auth
      → auth.token ≡ token
      → auth.last_refresh + s.session_refresh_nbf ≤ now
      → auth.refresh_digest ≢ digest
      → ((refresh_session D username token digest new_digest now s).0
          ≡ err user_authentication_error)
        × (lookup username (refresh_session D username token digest new_digest now s).1.session
            ≡ none)
  unfolding refresh_session
  refresh_session-wrong_digest auth token digest new_digest now e authentic mature wrong = ground (
    arith,
    text_eq_iff auth.token token,
    text_eq_iff auth.refresh_digest digest,
    lookup-erase_self username s.session,
    lookup-erase_self username (erase username s.session),
  )

  nbf-refresh_session :
      (token digest new_digest : Bytes) (now : ℕ)
      → (refresh_session D username token digest new_digest now s).1.session_refresh_nbf
        ≡ s.session_refresh_nbf
  unfolding refresh_session
  nbf-refresh_session token digest new_digest now =
      elim (Option-cases (lookup username s.session)) [
        | inl absent ↦ ground arith
        | inr (auth, e) ↦ ground arith
      ]

-- A refresh digest opens one refresh. When a refresh with `digest` has returned a different new
-- digest, a second one with the same token and `digest`, made once the session may be refreshed
-- again, is refused and ends the session, whether or not the digest is still remembered as used.
pub refresh_session-replay :
    (D : TtlCache (List Bytes)) (username : Text) (s : UserManager D.Cache)
    (token digest new_digest other : Bytes) (now later : ℕ) {result : Bytes × ℕ}
    → (refresh_session D username token digest new_digest now s).0 ≡ ok result
    → new_digest ≢ digest
    → now + s.session_refresh_nbf ≤ later
    → let s' = (refresh_session D username token digest new_digest now s).1 in
      ((refresh_session D username token digest other later s').0 ≡ err user_authentication_error)
      × (lookup username (refresh_session D username token digest other later s').1.session ≡ none)
refresh_session-replay D username s token digest new_digest other now later h fresh mature =
    let r = refresh_session-Refreshed D username s token digest new_digest now h in
    let s' = (refresh_session D username token digest new_digest now s).1 in
    let nbf = nbf-refresh_session D username s token digest new_digest now in
    refresh_session-wrong_digest D username s' (update_digest new_digest now r.auth) token digest
      other later r.renewed r.authentic (omega (arith, nbf)) fresh
