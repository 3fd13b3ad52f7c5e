-- ===== src/Authz/Accounts.antt =====
-- The account methods of `UserManager` (server/authz/user_manager.py).
use custom_file_operation_pr.Prelude.{
  ℕ, if◌then◌else◌, Bool, true, Option, none, some, List, any, Text, Bytes, text_eq, is_some,
}
use custom_file_operation_pr.Prelude.Dict.{insert}
use custom_file_operation_pr.Prelude.Ttl.{TtlCache}
use custom_file_operation_pr.Prelude.Action.{
  Result, ok, err, ◌>>=◌, ◌>>◌, pure, raise, gets, or_raise, raise_if, raise_unless, catch, modify,
}
use custom_file_operation_pr.Errors.{
  Exception, PgError, pg, unique_violation, foreign_key_violation, undefined_column,
  user_authentication_error, banned, invalid_auth_data, operation_contested, database_failure,
  assertion_error, os_error,
}
use custom_file_operation_pr.Models.Session.{SessionMetadata, new_session}
use custom_file_operation_pr.Database.Tables.{Tables, UserRow, PermissionRow, error, LogType}
use custom_file_operation_pr.Database.Backend.{Db, high, moderate, execute, with_connection}
use custom_file_operation_pr.Database.Statements.{
  find, is_user, delete_where, update_where, insert_user,
}
use custom_file_operation_pr.Access.Errors.{is_lock}
use custom_file_operation_pr.Authz.Library.{
  Library, check_username_validity, generate_password_hash, verify_password_hash,
}
use custom_file_operation_pr.Authz.State.{
  Method, on_backend, log_of, enqueue_activity, create_task, terminate_user_cache,
}
use custom_file_operation_pr.Authz.Sessions.{forget}
use custom_file_operation_pr.Authz.Bans.{check_banned}

-- `SELECT password_hash, password_salt FROM users WHERE username = %s`
abbrev pub select_password : Text → Db (Option UserRow)
select_password username = execute (λ t. ok (t, find (is_user username) t.users))

-- `except UniqueViolation`
abbrev pub create_except : Exception → Db (Unit {0})
create_except (pg unique_violation) = raise user_authentication_error
create_except e = raise e

module _ (lib : Library) where
  abbrev pub credentials : Text → ℕ → Db (Option UserRow)
  credentials username now = with_connection high (do
    is_banned ← check_banned username high now
    raise_if is_banned banned
    select_password username)

  abbrev pub verifies : Text → UserRow → Bool
  verifies password row = verify_password_hash lib password row.password_hash row.password_salt

  abbrev pub create_body : (username password : Text) → (salt : Bytes) → Db (Unit {0})
  create_body username password salt = do
    taken ← select_password username
    raise_if (is_some taken) user_authentication_error
    catch (execute (insert_user username (generate_password_hash lib password salt) salt))
        create_except

  -- `salt` is what `os.urandom` returns, and `makedirs` tells whether the user's directory can be
  -- made.
  unfoldable pub create_user :
      (username password : Text) → (salt : Bytes) → (makedirs : Text → Bool) → Db (Unit {0})
  create_user username password salt makedirs = do
    name ← or_raise user_authentication_error (check_username_validity lib username)
    with_connection high (create_body name password salt)
    raise_unless (makedirs name) os_error

-- `DELETE FROM users WHERE username = %s`, with what the foreign keys to `users` do: the user's
-- files, the grants on them and the grants to the user go too, grants made by the user lose their
-- granter, and a ban on record forbids the deletion.
abbrev pub clear_granter : Text → PermissionRow → PermissionRow
clear_granter username r = record r {
  granted_by = elim r.granted_by [
    | none ↦ none
    | some g ↦ if text_eq g username then none else some g
  ];
}

abbrev pub delete_user_row : Text → Tables → Result PgError (Tables × Unit {0})
delete_user_row username t =
    if any (λ r. text_eq r.username username) t.ban_logs
    then err foreign_key_violation
    else ok (
      record t {
        users = delete_where (is_user username) t.users;
        files = delete_where (λ f. text_eq f.owner username) t.files;
        file_permissions =
            update_where (λ _. true) (clear_granter username)
              (delete_where (λ r. text_eq r.file_owner username)
                (delete_where (λ r. text_eq r.grantee username) t.file_permissions));
      },
      tt,
    )

-- `UPDATE users SET pw_hash = %s, pw_salt = %s`: the table has no such columns.
abbrev pub update_password : Db (Unit {0})
update_password = execute (λ t. err undefined_column)

abbrev pub change_except : Exception → Db (Unit {0})
change_except (pg e) = if is_lock e then raise operation_contested else raise database_failure
change_except e = raise e

module _ (lib : Library) where
  abbrev pub delete_body : (username password : Text) → Db (Unit {0})
  delete_body username password = do
    row ← or_raise user_authentication_error (← select_password username)
    raise_unless (verifies lib password row) user_authentication_error
    execute (delete_user_row username)

  abbrev pub change_body : (username new_password : Text) → Db (Unit {0})
  change_body username new_password = do
    row ← or_raise assertion_error (← select_password username)
    raise_if (verifies lib new_password row) invalid_auth_data
    update_password

  unfoldable pub change_password : (username new_password : Text) → Db (Unit {0})
  unfolding execute with_connection verify_password_hash find
  change_password username new_password =
      with_connection moderate (catch (change_body username new_password) change_except)

  module _ (D : TtlCache (List Bytes)) where
    -- `token` and `digest` are what `token_hex` returns.
    unfoldable pub authorize_session :
        (username password : Text)
        → (token digest : Bytes) → (now : ℕ) → Method D.Cache SessionMetadata
    unfolding execute with_connection check_banned check_username_validity verify_password_hash find
    authorize_session username password token digest now = do
      name ← or_raise user_authentication_error (check_username_validity lib username)
      pw_data ← on_backend (credentials lib name now)
      row ← or_raise user_authentication_error pw_data
      if verifies lib password row
          then pure tt
          else (enqueue_activity (log_of error LogType.user name)
              >> raise user_authentication_error)
      lifespan ← gets (λ s. s.session_lifespan)
      let auth = new_session token digest lifespan now
      modify (λ s. record s { session = insert name auth s.session })
      pure auth

    -- Called with the two buffer caches.
    unfoldable pub delete_user : (username password : Text) → (now : ℕ) → Method D.Cache (Unit {0})
    unfolding execute with_connection check_username_validity verify_password_hash find
    delete_user username password now = do
      name ← or_raise user_authentication_error (check_username_validity lib username)
      on_backend (with_connection moderate (delete_body name password))
      modify (forget D now name)
      create_task (terminate_user_cache name true)
