-- ===== src/Authz/Sessions.antt =====
-- The session methods of `UserManager` (server/authz/user_manager.py). Both operands of each
-- `compare_digest` are bytes, on which it never raises.
use custom_file_operation_pr.Prelude.{
  ℕ, ◌+◌, ltb, if◌then◌else◌, Bool, true, false, Option, none, some, List, [], ◌∷◌, ◌++◌, any,
  length, drop, Text, Bytes, text_eq,
}
use custom_file_operation_pr.Prelude.Dict.{Dict, lookup, insert, erase, setdefault}
use custom_file_operation_pr.Prelude.Ttl.{TtlCache}
use custom_file_operation_pr.Prelude.Action.{
  ok, err, ◌>>=◌, ◌>>◌, pure, raise, gets, or_raise, raise_if, raise_unless, catch, modify,
}
use custom_file_operation_pr.Errors.{Exception, user_authentication_error}
use custom_file_operation_pr.Models.Session.{
  SessionMetadata, new_session, update_digest, get_validity,
}
use custom_file_operation_pr.Database.Tables.{error, LogType}
use custom_file_operation_pr.Authz.State.{
  UserManager, Method, terminate_user_cache, log_of, enqueue_activity, create_task,
}

-- `isinstance(e, UserAuthenticationError)`
abbrev pub is_authentication_error : Exception → Bool
is_authentication_error user_authentication_error = true
is_authentication_error _ = false

-- `append`, then `pop(0)` if there are more than two
abbrev pub append_digest : Bytes → List Bytes → List Bytes
append_digest d ds =
    let longer = ds ++ d ∷ [] in if ltb 2 (length longer) then drop 1 longer else longer

-- One round of `expire_sessions`: the users whose session is over.
unfoldable pub hitlist : ℕ → Dict SessionMetadata → List Text
hitlist now [] = []
hitlist now ((username, auth) ∷ m) =
    let rest = hitlist now m in if ltb (get_validity auth) now then username ∷ rest else rest

module _ (D : TtlCache (List Bytes)) where
  -- `self.session.pop(username, None)`, alone and with `self.previous_digests_mapping.pop`
  abbrev pub pop_session : Text → UserManager D.Cache → UserManager D.Cache
  pop_session username s = record s { session = erase username s.session }

  abbrev pub forget : ℕ → Text → UserManager D.Cache → UserManager D.Cache
  forget now username s = record s {
    session = erase username s.session;
    previous_digests_mapping = D.pop now username s.previous_digests_mapping;
  }

  -- The checks of `authenticate_session` on the session that it finds.
  abbrev check_session :
      Text → Bytes → Bool → ℕ → SessionMetadata → Method D.Cache (Option SessionMetadata)
  check_session username token raise_on_exc now auth s =
      if ltb (get_validity auth) now
      then (err user_authentication_error, pop_session username s)
      else if text_eq auth.token token
      then (ok (some auth), s)
      else if raise_on_exc
      then (err user_authentication_error, s)
      else (ok none, s)

  unfoldable pub authenticate_session :
      (username : Text)
      → (token : Bytes) → (raise_on_exc : Bool) → (now : ℕ)
      → Method D.Cache (Option SessionMetadata)
  authenticate_session username token raise_on_exc now s = elim (lookup username s.session) [
    | none ↦ (ok none, s)
    | some auth ↦ check_session username token raise_on_exc now auth s
  ]

  -- The error for a wrong token is raised inside the `try`, whose `except` logs it and raises
  -- another of the same class.
  unfoldable pub terminate_session :
      (username : Text) → (token : Bytes) → (now : ℕ) → Method D.Cache SessionMetadata
  terminate_session username token now = do
    auth ← or_raise user_authentication_error (← gets (λ s. lookup username s.session))
    if text_eq auth.token token
        then (modify (forget now username) >> pure auth)
        else (enqueue_activity (log_of error LogType.user username)
            >> raise user_authentication_error)

  -- The digests that the user has used up, `[]` if there are none.
  abbrev pub previous_digests : ℕ → Text → UserManager D.Cache → List Bytes
  previous_digests now username s = elim (D.get now username s.previous_digests_mapping) [
    | none ↦ []
    | some ds ↦ ds
  ]

  -- The end of the `try` block of `refresh_session`, for a digest that is not a used one.
  abbrev pub accept_digest :
      (username : Text)
      → (token digest new_digest : Bytes) → (now : ℕ) → SessionMetadata
      → List Bytes
      → Method D.Cache (Unit {0})
  accept_digest username token digest new_digest now auth previous = do
    raise_unless (text_eq auth.refresh_digest digest) user_authentication_error
    modify (pop_session username)
    lifespan ← gets (λ s. s.session_lifespan)
    set_pair ← gets (λ s. setdefault username (new_session token new_digest lifespan now) s.session)
    modify (λ s. record s { session = set_pair.0 })
    raise_unless (text_eq (set_pair.1).refresh_digest new_digest) user_authentication_error
    modify (λ s. record s {
      previous_digests_mapping =
          D.set now username (append_digest auth.refresh_digest previous)
            s.previous_digests_mapping;
    })

  -- The `try` block of `refresh_session`, from the check of the digests on.
  abbrev pub rotate_digest :
      (username : Text)
      → (token digest new_digest : Bytes) → (now : ℕ) → SessionMetadata
      → Method D.Cache (Unit {0})
  rotate_digest username token digest new_digest now auth = do
    previous ← gets (previous_digests now username)
    if any (λ d. text_eq d digest) previous
        then (modify (forget now username)
            >> create_task (terminate_user_cache username false)
            >> raise user_authentication_error)
        else accept_digest username token digest new_digest now auth previous

  -- Its `except Exception`.
  abbrev pub abandon : Text → ℕ → Exception → Method D.Cache (Unit {0})
  abandon username now e =
      modify (forget now username)
      >> enqueue_activity (
          log_of error (if is_authentication_error e then LogType.user else LogType.session)
            username)
      >> raise user_authentication_error

  -- The new digest and the iteration of the session.
  unfoldable pub refresh_session :
      (username : Text) → (token digest new_digest : Bytes) → (now : ℕ) → Method D.Cache (Bytes × ℕ)
  unfolding authenticate_session setdefault
  refresh_session username token digest new_digest now = do
    auth ← or_raise user_authentication_error (← authenticate_session username token false now)
    nbf ← gets (λ s. s.session_refresh_nbf)
    raise_if (ltb now (auth.last_refresh + nbf)) user_authentication_error
    catch (rotate_digest username token digest new_digest now auth) (abandon username now)
    let auth' = update_digest new_digest now auth
    modify (λ s. record s { session = insert username auth' s.session })
    pure (new_digest, auth'.iteration)

  -- Their removal.
  unfoldable pub forget_all : ℕ → List Text → UserManager D.Cache → UserManager D.Cache
  forget_all now [] s = s
  forget_all now (u ∷ us) s = forget_all now us (forget now u s)

  unfoldable pub expire_sessions : ℕ → UserManager D.Cache → UserManager D.Cache
  unfolding hitlist forget_all
  expire_sessions now s = forget_all now (hitlist now s.session) s

  -- What `shutdown_watchdog` does once the shutdown event is set.
  abbrev pub clear_sessions : UserManager D.Cache → UserManager D.Cache
  clear_sessions s = record s {
    session = [];
    previous_digests_mapping = D.clear s.previous_digests_mapping;
  }
