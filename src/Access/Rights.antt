-- ===== src/Access/Rights.antt =====
-- Who may change whose rights, and what a change does to the grants.
use custom_file_operation_pr.Prelude.{
  ℕ, ◌≡◌, refl, sym, ◌∙◌, ap, true, false, not, ◌&&◌, Option, none, some, [], ◌∷◌, ◌++◌, any, Text,
  text_eq, is_some, arith,
}
use Prim.Native.Nat.{bit_and}
use mathlib.Core.Path.{subst}
use custom_file_operation_pr.Prelude.Action.{ok}
use custom_file_operation_pr.Errors.{
  Exception, assertion_error, user_not_found, operational_conflict, insufficient_permissions,
  key_error,
}
use custom_file_operation_pr.Models.Flags.{role_extraction_bitmask}
use custom_file_operation_pr.Models.Roles.{RoleTypes, role_eq, role_mapping}
use custom_file_operation_pr.Models.Request.{
  BaseHeaderComponent, BaseAuthComponent, BasePermissionComponent,
}
use custom_file_operation_pr.Models.Responses.{
  ServerConfig, ResponseHeader, from_server, successful_grant, successful_revoke,
}
use custom_file_operation_pr.Database.Tables.{Tables, PermissionRow}
use custom_file_operation_pr.Database.Backend.{Backend, moderate, commit}
use custom_file_operation_pr.Database.Statements.{find, is_grant, insert_permission}
use custom_file_operation_pr.Database.Queries.{permits}
use custom_file_operation_pr.Database.Outcomes.{
  From, bind-query, bind-or_raise, bind-raise_if, bind-raise_unless, bind-write,
  bind-check_file_permission, bind-get_user, From-execute, From-pure, From-map, From-weaken,
  From-bind, From-query, From-with_connection, From-catch,
}
use custom_file_operation_pr.Access.Errors.{pg_except}
use custom_file_operation_pr.Access.Grant.{
  grant_permission, grant_body, write_role, override_role, granted_by_is, new_row,
  allowed_permission, find_grant,
}
use custom_file_operation_pr.Access.Revoke.{
  revoke_permission, revoke_body, is_live, check_permission, delete_grants,
}

pg_except_raises :
    {A : Type 0} (user : Option Text) (e : Exception) (b : Backend) {a : A}
    → (pg_except user e b).0 ≡ ok a
    → ⊥
pg_except_raises user e b h = ground arith

pub pg_except-raises :
    {A : Type 0} (user : Option Text) (e : Exception) (s : Tables)
    → From s (pg_except {A = A} user e) (λ _ _. ⊥)
pg_except-raises user e s = record { returns = λ b same h. pg_except_raises user e b h }

-- What holds when a role has been revoked.
pub record Revoked (header : BaseHeaderComponent) (auth : BaseAuthComponent)
    (permission : BasePermissionComponent) (now : ℕ) (t : Tables) (row : PermissionRow)
    (t' : Tables) : Type 0 where
  -- the row is the first in the tables that the subject holds and that is not over
  pub held : find (is_live permission now) t.file_permissions ≡ some row
  -- what the owner granted, only the owner revokes
  pub entitled :
      (granted_by_is permission.subject_file_owner row
        && not (text_eq auth.identity permission.subject_file_owner))
      ≡ false
  -- the caller may manage the role
  pub permitted :
      permits permission.subject_file permission.subject_file_owner auth.identity
        (check_permission row.role)
        header.sender_timestamp
        t
      ≡ true
  -- exactly the subject's row goes
  pub written : t' ≡ delete_grants permission t

module _ (header : BaseHeaderComponent) (auth : BaseAuthComponent)
    (permission : BasePermissionComponent) (now : ℕ) (t : Tables) where
  revoke_body-Revoked :
      From t (revoke_body header auth permission now) (Revoked header auth permission now t)
  revoke_body-Revoked = bind-query _ λ mapping queried.
      bind-or_raise operational_conflict mapping λ row found.
        bind-raise_if
          (granted_by_is permission.subject_file_owner row
            && not (text_eq auth.identity permission.subject_file_owner))
          insufficient_permissions
          λ _ entitled. bind-check_file_permission _ _ _ _ _ λ allowed checked.
            bind-raise_unless allowed insufficient_permissions λ _ permitted.
              bind-write (delete_grants permission) λ _.
                bind-query (λ _. tt)
                  λ _ _. From-pure row (record {
                    held = sym queried ∙ found;
                    entitled = entitled;
                    permitted = sym checked ∙ permitted;
                    written = refl;
                  })

-- A `revoke_permission` that returns has taken away the first live row of the subject that the tables
-- had: the caller was allowed to manage that role, and is the owner if the owner had granted it; every row of the
-- subject on the file is deleted, and nothing else changes.
pub revoke_permission-Revoked :
    (header : BaseHeaderComponent) (auth : BaseAuthComponent) (permission : BasePermissionComponent)
    (config : ServerConfig) (now : ℕ) (b : Backend) {r : ResponseHeader} {row : PermissionRow}
    → (revoke_permission header auth permission config now b).0 ≡ ok (r, row)
    → Revoked header auth permission now b.tables row
        (revoke_permission header auth permission config now b).1.tables
unfolding revoke_permission
revoke_permission-Revoked header auth permission config now b {r} {row} h =
    let (row', same, revoked) =
      (From-with_connection moderate (
          From-map
            (λ row. (from_server config successful_revoke (some header.version) header.finish, row))
            (From-catch (revoke_body-Revoked header auth permission now b.tables)
              (pg_except-raises none)))).returns
        b refl h in
    let e : row' ≡ row = ap (λ p. p.1) same in
    subst
      (λ x.
        Revoked header auth permission now b.tables x
          (revoke_permission header auth permission config now b).1.tables)
      e revoked

-- What holds when a role has been granted.
pub record Granted (header : BaseHeaderComponent) (auth : BaseAuthComponent)
    (permission : BasePermissionComponent) (now : ℕ) (role : RoleTypes) (t t' : Tables)
    : Type 0 where
  pub user : Text
  pub subject : permission.subject_user ≡ some user
  -- the caller may manage the role
  pub permitted :
      permits permission.subject_file permission.subject_file_owner auth.identity
        (allowed_permission (bit_and header.subcategory role_extraction_bitmask))
        header.sender_timestamp
        t
      ≡ true
  -- the user had no row on the file
  pub vacant :
      any (is_grant permission.subject_file_owner permission.subject_file user) t.file_permissions
      ≡ false
  -- one row is added
  pub written : t' ≡ record t {
    file_permissions = t.file_permissions ++ new_row header auth permission role user now ∷ [];
  }

insert_permission-ok :
    (r : PermissionRow) (t : Tables) {t' : Tables} {u : Unit {0}}
    → insert_permission r t ≡ ok (t', u)
    → (any (is_grant r.file_owner r.filename r.grantee) t.file_permissions ≡ false)
      × (t' ≡ record t { file_permissions = t.file_permissions ++ r ∷ [] })
insert_permission-ok r t {t'} {u} h = ground arith

module _ (header : BaseHeaderComponent) (auth : BaseAuthComponent)
    (permission : BasePermissionComponent) (now : ℕ) (t : Tables) where
  -- Where a live row is found, no call returns: its `UPDATE` cannot run.
  override_role-raises :
      (role : RoleTypes) (old : PermissionRow) {P : Unit {0} → Tables → Type 0}
      → From t (override_role auth.identity permission.subject_file_owner role old) P
  override_role-raises role old = bind-raise_if (role_eq role old.role) operational_conflict λ _ _.
      bind-raise_if
        (granted_by_is permission.subject_file_owner old
          && not (text_eq auth.identity permission.subject_file_owner))
        insufficient_permissions λ _ _. From-execute _ (λ t' a e. cc)

  write_role-Granted :
      (role : RoleTypes) (user : Text) (old : Option PermissionRow)
      → permission.subject_user ≡ some user
      → permits permission.subject_file permission.subject_file_owner auth.identity
          (allowed_permission (bit_and header.subcategory role_extraction_bitmask))
          header.sender_timestamp
          t
        ≡ true
      → From t
          (write_role auth.identity permission.subject_file_owner
            (new_row header auth permission role user now)
            old)
          (λ _ t'. Granted header auth permission now role t t')
  write_role-Granted role user none subject permitted = bind-get_user user λ found _.
      bind-raise_unless (is_some found) user_not_found λ _ _.
        From-execute (insert_permission (new_row header auth permission role user now)) (λ t' a e.
          let (vacant, written) =
            insert_permission-ok (new_row header auth permission role user now) t e in
          record {
            user = user;
            subject = subject;
            permitted = permitted;
            vacant = vacant;
            written = written;
          })
  write_role-Granted role user (some old) subject permitted = override_role-raises role old

  grant_body-Granted :
      (role : RoleTypes)
      → From t
          (grant_body header auth permission role now)
          (λ _ t'. Granted header auth permission now role t t')
  grant_body-Granted role = bind-check_file_permission _ _ _ _ _ λ allowed checked.
      bind-raise_unless allowed insufficient_permissions λ _ permitted.
        bind-or_raise assertion_error permission.subject_user λ user subject.
          bind-get_user user λ found _. bind-raise_unless (is_some found) user_not_found λ _ _.
            bind-query (find_grant permission.subject_file_owner permission.subject_file user now)
              λ old _. From-bind {f = λ _. commit} (
                From-weaken (write_role-Granted role user old subject (sym checked ∙ permitted))
                  (λ _ t' granted. From-query (λ _. tt) granted))

-- A `grant_permission` that returns names one of the three roles that can be granted and a subject
-- user, its caller may manage that role, the user had no row on the file before, not even one that
-- is over, and exactly the new row is added to the tables.
pub grant_permission-Granted :
    (header : BaseHeaderComponent) (auth : BaseAuthComponent) (permission : BasePermissionComponent)
    (config : ServerConfig) (now : ℕ) (b : Backend) {r : ResponseHeader}
    → (grant_permission header auth permission config now b).0 ≡ ok r
    → (role : RoleTypes) × (role_mapping (bit_and header.subcategory role_extraction_bitmask)
        ≡ some role)
      × Granted header auth permission now role b.tables
          (grant_permission header auth permission config now b).1.tables
unfolding grant_permission
grant_permission-Granted header auth permission config now b {r} h =
    (bind-or_raise
        {P = λ _ t'.
          (role : RoleTypes) × (role_mapping (bit_and header.subcategory role_extraction_bitmask)
            ≡ some role)
          × Granted header auth permission now role b.tables t'}
        key_error (role_mapping (bit_and header.subcategory role_extraction_bitmask))
        λ role known.
          From-weaken
            (From-map (λ _. from_server config successful_grant (some header.version) header.finish)
              (From-with_connection moderate (
                From-catch (grant_body-Granted header auth permission now b.tables role)
                  (pg_except-raises none))))
            (λ _ t' (_, _, granted). (role, known, granted))).returns
      b refl h
