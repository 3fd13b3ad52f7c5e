-- ===== src/Authz/Logins.antt =====
-- An account that was registered, and the login that follows.
use custom_file_operation_pr.Prelude.{
  ℕ, ◌≤◌, ◌+◌, ◌≡◌, ◌↔◌, refl, ap, Bool, false, some, List, [], any, Text, Bytes, strip, text_eq,
  text_eq_iff, text_eq_refl, is_some, arith, if◌then◌else◌,
}
use custom_file_operation_pr.Prelude.Ttl.{TtlCache}
use custom_file_operation_pr.Prelude.Dict.{lookup, lookup-insert_self}
use custom_file_operation_pr.Prelude.Int.{pos}
use custom_file_operation_pr.Prelude.Action.{ok, err, or_raise}
use custom_file_operation_pr.Errors.{Exception, user_authentication_error, os_error}
use custom_file_operation_pr.Models.Session.{SessionMetadata, new_session}
use custom_file_operation_pr.Database.Tables.{Tables, UserRow}
use custom_file_operation_pr.Database.Backend.{Backend, high}
use custom_file_operation_pr.Database.Statements.{find, is_user, insert_user}
use custom_file_operation_pr.Database.Rows.{find-append_last}
use custom_file_operation_pr.Database.Outcomes.{
  From, bind-query, bind-raise_if, From-execute, From-bind, From-catch, From-with_connection,
  From-raise_unless, From-weaken,
}
use custom_file_operation_pr.Authz.Library.{
  Library, check_username_validity, generate_password_hash,
}
use custom_file_operation_pr.Authz.State.{UserManager}
use custom_file_operation_pr.Authz.Sessions.{authenticate_session}
use custom_file_operation_pr.Authz.Tokens.{authenticate_session_iff}
use custom_file_operation_pr.Authz.Bans.{is_lifted}
use custom_file_operation_pr.Authz.Accounts.{
  create_user, create_body, create_except, authorize_session,
}

abbrev pub new_user : Library → (name password : Text) → (salt : Bytes) → UserRow
new_user lib name password salt = record {
  username = name;
  file_count = pos 0;
  storage_used = pos 0;
  password_hash = generate_password_hash lib password salt;
  password_salt = salt;
}

create_except_raises :
    (e : Exception) (b : Backend) {u : Unit {0}} → (create_except e b).0 ≡ ok u → ⊥
create_except_raises e b h = ground arith

create_except-raises : (e : Exception) (t : Tables) → From t (create_except e) (λ _ _. ⊥)
create_except-raises e t = record { returns = λ b same h. create_except_raises e b h }

find-insert_user :
    (lib : Library) (name password : Text) (salt : Bytes) (t : Tables) {t' : Tables} {u : Unit {0}}
    → insert_user name (generate_password_hash lib password salt) salt t ≡ ok (t', u)
    → (find (is_user name) t'.users ≡ some (new_user lib name password salt))
      × (t'.ban_logs ≡ t.ban_logs)
find-insert_user lib name password salt t {t'} {u} e = ground (
  arith,
  text_eq_refl name,
  find-append_last (is_user name) t.users (new_user lib name password salt),
)

-- The account is there, with the hash of the stripped password, and no ban was recorded.
abbrev Registered : Library → (name password : Text) → Bytes → Tables → Tables → Type 0
Registered lib name password salt t t' =
    (find (is_user name) t'.users ≡ some (new_user lib name password salt))
    × (t'.ban_logs ≡ t.ban_logs)

create_body-Registered :
    (lib : Library) (name password : Text) (salt : Bytes) (t : Tables)
    → From t (create_body lib name password salt) (λ _ t'. Registered lib name password salt t t')
create_body-Registered lib name password salt t =
    bind-query (λ t. find (is_user name) t.users)
      λ taken _. bind-raise_if (is_some taken) user_authentication_error λ _ _.
        From-catch
          (From-execute (insert_user name (generate_password_hash lib password salt) salt)
            (λ t' u e. find-insert_user lib name password salt t e))
          create_except-raises

module _ (lib : Library) (username password name : Text) (salt : Bytes) where
  create_user-Registered :
      (makedirs : Text → Bool) (b : Backend) {u : Unit {0}}
      → check_username_validity lib username ≡ some name
      → (create_user lib username password salt makedirs b).0 ≡ ok u
      → Registered lib name password salt b.tables
          (create_user lib username password salt makedirs b).1.tables
  unfolding create_user
  create_user-Registered makedirs b valid =
      rw (valid, or_raise)
        (λ h.
          (From-bind (
              From-with_connection high (
                From-weaken (create_body-Registered lib name password salt b.tables) (λ u t' r.
                  From-raise_unless {P = λ _ t'. Registered lib name password salt b.tables t'}
                    (makedirs name) os_error (λ _. r))))).returns
            b refl h)

  -- `authorize_session` with the database answering and no lifted ban on record.
  authorize_session-row :
      (D : TtlCache (List Bytes)) (entered : Text) (token digest : Bytes) (now : ℕ)
      (s : UserManager D.Cache) (row : UserRow)
      → check_username_validity lib username ≡ some name
      → s.backend.faults ≡ []
      → any (is_lifted name now) s.backend.tables.ban_logs ≡ false
      → find (is_user name) s.backend.tables.users ≡ some row
      → (authorize_session lib D username entered token digest now s).0 ≡ (
          if text_eq (lib.pbkdf2_hmac entered row.password_salt) row.password_hash
          then ok (new_session token digest s.session_lifespan now)
          else err user_authentication_error)
  unfolding authorize_session
  authorize_session-row D entered token digest now s row valid quiet free found = ground arith

-- A user who registers and then logs in under the same name and password gets in exactly when the
-- password has no white space at its ends, if the hash function has no collision between the
-- password and its stripped form: `generate_password_hash` strips it and `verify_password_hash`
-- does not. The database answers the login, and no lifted ban is on record.
pub authorize_session-create_user :
    (lib : Library) (username password name : Text) (salt : Bytes) (makedirs : Text → Bool)
    (b : Backend) (D : TtlCache (List Bytes)) (token digest : Bytes) (now : ℕ)
    (s : UserManager D.Cache)
    → check_username_validity lib username ≡ some name
    → (create_user lib username password salt makedirs b).0 ≡ ok tt
    → any (is_lifted name now) b.tables.ban_logs ≡ false
    → s.backend.tables ≡ (create_user lib username password salt makedirs b).1.tables
    → s.backend.faults ≡ []
    → (lib.pbkdf2_hmac password salt ≡ lib.pbkdf2_hmac (strip password) salt
        → password ≡ strip password)
    → ((authorize_session lib D username password token digest now s).0
        ≡ ok (new_session token digest s.session_lifespan now))
      ↔ (password ≡ strip password)
unfolding generate_password_hash
authorize_session-create_user lib username password name salt makedirs b D token digest now s valid
      created free same quiet collision_free =
    let (found, bans) =
      create_user-Registered lib username password name salt makedirs b valid created in
    let answer =
      authorize_session-row lib username password name salt D password token digest now s
        (new_user lib name password salt) valid quiet (rw (same, bans) free) (rw same found) in
    let hashes =
      text_eq_iff (lib.pbkdf2_hmac password salt) (lib.pbkdf2_hmac (strip password) salt) in
    rw answer (
      λ h. collision_free (ground (arith, hashes)),
      λ h. ground (arith, hashes, ap (λ (p : Text). lib.pbkdf2_hmac p salt) h),
    )

pub authorize_session-stores :
    (lib : Library) (username password name : Text) (D : TtlCache (List Bytes))
    (token digest : Bytes) (now : ℕ) (s : UserManager D.Cache) {auth : SessionMetadata}
    → check_username_validity lib username ≡ some name
    → (authorize_session lib D username password token digest now s).0 ≡ ok auth
    → (lookup name (authorize_session lib D username password token digest now s).1.session
        ≡ some auth)
      × (auth ≡ new_session token digest s.session_lifespan now)
unfolding authorize_session
authorize_session-stores lib username password name D token digest now s {auth} valid h =
    let self =
      lookup-insert_self name (new_session token digest s.session_lifespan now) s.session in
    ground (arith, self)

-- The token of a login opens the session that the login answered with, until the lifespan is over.
pub authenticate_session-authorize_session :
    (lib : Library) (username password name : Text) (D : TtlCache (List Bytes))
    (token digest : Bytes) (now later : ℕ) (raise_on_exc : Bool) (s : UserManager D.Cache)
    {auth : SessionMetadata}
    → check_username_validity lib username ≡ some name
    → (authorize_session lib D username password token digest now s).0 ≡ ok auth
    → later ≤ now + s.session_lifespan
    → (authenticate_session D name token raise_on_exc later
        (authorize_session lib D username password token digest now s).1).0
      ≡ ok (some auth)
authenticate_session-authorize_session lib username password name D token digest now later
      raise_on_exc s {auth} valid h soon =
    let (stored, value) =
      authorize_session-stores lib username password name D token digest now s valid h in
    (authenticate_session_iff D name
        (authorize_session lib D username password token digest now s).1 token raise_on_exc later
        auth).1
      (stored, ground arith, ground arith)
