-- ===== src/Tests/Authz.antt =====
-- Sessions and accounts of one user.
use custom_file_operation_pr.Prelude.{
  ◌≤◌, ◌≡◌, ◌↔◌, refl, true, false, some, none, [], ◌∷◌, ◌++◌, Text, text_eq, strip, codes, arith,
  is_space,
}
use mathlib.Core.Logic.{◌≢◌}
use custom_file_operation_pr.Prelude.Dict.{lookup, insert, erase, IsDict}
use custom_file_operation_pr.Prelude.Action.{ok, err}
use custom_file_operation_pr.Errors.{user_authentication_error}
use custom_file_operation_pr.Models.Session.{new_session}
use custom_file_operation_pr.Database.Backend.{Backend, high, execute, with_connection}
use custom_file_operation_pr.Database.Statements.{find}
use custom_file_operation_pr.Authz.Library.{check_username_validity, generate_password_hash}
use custom_file_operation_pr.Authz.State.{UserManager}
use custom_file_operation_pr.Authz.Sessions.{
  authenticate_session, terminate_session, refresh_session, expire_sessions,
}
use custom_file_operation_pr.Authz.Bans.{check_banned}
use custom_file_operation_pr.Authz.Accounts.{create_user, authorize_session}
use custom_file_operation_pr.Authz.Tokens.{
  authenticate_session_iff, authenticate_session-terminate_session, Refreshed,
  refresh_session-Refreshed, refresh_session-replay,
}
use custom_file_operation_pr.Authz.Expiry.{expire_sessions_iff}
use custom_file_operation_pr.Authz.Logins.{
  authorize_session-create_user, authenticate_session-authorize_session,
}
use custom_file_operation_pr.Authz.Refusals.{check_banned-in_force}
use custom_file_operation_pr.Tests.Fixtures.{
  plain_cache, ascii, alice, tables, backend, session, manager,
}

authenticate_session_iff_example :
    ((authenticate_session plain_cache alice (codes "t") true 50 manager).0 ≡ ok (some session))
    ↔ ((lookup alice manager.session ≡ some session) × (50 ≤ 110) × (session.token ≡ codes "t"))
authenticate_session_iff_example =
    authenticate_session_iff plain_cache alice manager (codes "t") true 50 session

terminate_session_runs : (terminate_session plain_cache alice (codes "t") 50 manager).0 ≡ ok session
unfolding terminate_session lookup text_eq
terminate_session_runs = refl

authenticate_session-terminate_session_example :
    (lookup alice manager.session ≡ some session)
    × (session.token ≡ codes "t")
    × ((authenticate_session plain_cache alice
          (codes "t")
          false
          60
          (terminate_session plain_cache alice (codes "t") 50 manager).1).0
        ≡ ok none)
authenticate_session-terminate_session_example =
    authenticate_session-terminate_session plain_cache alice manager (codes "t") (codes "t") 50 60
      false terminate_session_runs

refresh_session_runs :
    (refresh_session plain_cache alice (codes "t") (codes "d") (codes "e") 50 manager).0
    ≡ ok (codes "e", 2)
unfolding refresh_session lookup insert erase text_eq
refresh_session_runs = refl

refresh_session-Refreshed_example :
    Refreshed plain_cache alice
      (codes "t")
      (codes "d")
      (codes "e")
      50
      manager
      (codes "e", 2)
      (refresh_session plain_cache alice (codes "t") (codes "d") (codes "e") 50 manager).1
refresh_session-Refreshed_example =
    refresh_session-Refreshed plain_cache alice manager (codes "t") (codes "d") (codes "e") 50
      refresh_session_runs

alices_session : lookup alice manager.session ≡ some session
unfolding lookup text_eq
alices_session = refl

d-ne-x : codes "d" ≢ codes "x"
d-ne-x = ground arith

e-ne-d : codes "e" ≢ codes "d"
e-ne-d = ground arith

-- The manager after the first refresh.
abbrev refreshed : UserManager plain_cache.Cache
refreshed = (refresh_session plain_cache alice (codes "t") (codes "d") (codes "e") 50 manager).1

refresh_session-replay_example :
    ((refresh_session plain_cache alice (codes "t") (codes "d") (codes "f") 60 refreshed).0
      ≡ err user_authentication_error)
    × (lookup alice
          (refresh_session plain_cache alice
            (codes "t")
            (codes "d")
            (codes "f")
            60
            refreshed).1.session
        ≡ none)
refresh_session-replay_example =
    refresh_session-replay plain_cache alice manager (codes "t") (codes "d") (codes "e") (codes "f")
      50 60 refresh_session_runs e-ne-d (omega arith)

one_session : IsDict manager.session
unfolding lookup
one_session = (refl, tt)

expire_sessions_iff_example :
    (lookup alice (expire_sessions plain_cache 50 manager).session ≡ some session)
    ↔ ((lookup alice manager.session ≡ some session) × (50 ≤ 110))
expire_sessions_iff_example = expire_sessions_iff plain_cache 50 alice manager session one_session

-- A ban of alice in force.
abbrev banning : Backend
banning = record backend {
  tables = record tables {
    ban_logs =
        record {
          username = alice;
          ban_reason = codes "spam";
          ban_description = none;
          ban_time = 1;
          lifted_at = none;
        }
        ∷ [];
  };
}

check_banned-in_force_example : (check_banned alice high 50 banning).0 ≡ ok false
check_banned-in_force_example = check_banned-in_force alice high 50 banning (λ h. refl, tt) refl

-- A new user, and the manager that answers the login after the registration.
abbrev carol : Text
carol = codes "carol"

carol_is_valid : check_username_validity ascii carol ≡ some carol
unfolding check_username_validity strip is_space
carol_is_valid = refl

abbrev padded : Text
padded = codes "pass "

create_user_runs : (create_user ascii carol padded (codes "salt-") (λ name. true) backend).0 ≡ ok tt
unfolding create_user execute with_connection find check_username_validity generate_password_hash
    strip is_space text_eq
create_user_runs = refl

abbrev registered : UserManager plain_cache.Cache
registered = record manager {
  backend = record backend {
    tables = (create_user ascii carol padded (codes "salt-") (λ name. true) backend).1.tables;
  };
}

no_collision : codes "salt-" ++ padded ≡ codes "salt-" ++ strip padded → padded ≡ strip padded
unfolding strip is_space
no_collision h = absurd (ground arith)

authorize_session-create_user_example :
    ((authorize_session ascii plain_cache carol padded (codes "t") (codes "d") 50 registered).0
      ≡ ok (new_session (codes "t") (codes "d") 100 50))
    ↔ (padded ≡ strip padded)
authorize_session-create_user_example =
    authorize_session-create_user ascii carol padded carol (codes "salt-") (λ name. true) backend
      plain_cache (codes "t") (codes "d") 50 registered carol_is_valid create_user_runs refl refl
      refl no_collision

alice_is_valid : check_username_validity ascii alice ≡ some alice
unfolding check_username_validity strip is_space
alice_is_valid = refl

authorize_session_runs :
    (authorize_session ascii plain_cache alice (codes "pass") (codes "t") (codes "d") 50 manager).0
    ≡ ok (new_session (codes "t") (codes "d") 100 50)
unfolding authorize_session strip is_space text_eq
authorize_session_runs = refl

authenticate_session-authorize_session_example :
    (authenticate_session plain_cache alice
      (codes "t")
      true
      70
      (authorize_session ascii plain_cache alice
        (codes "pass")
        (codes "t")
        (codes "d")
        50
        manager).1).0
    ≡ ok (some (new_session (codes "t") (codes "d") 100 50))
authenticate_session-authorize_session_example =
    authenticate_session-authorize_session ascii alice (codes "pass") alice plain_cache (codes "t")
      (codes "d") 50 70 true manager alice_is_valid authorize_session_runs (omega arith)
