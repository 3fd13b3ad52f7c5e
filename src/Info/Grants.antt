-- ===== src/Info/Grants.antt =====
-- What a permission query tells, and whom.
use custom_file_operation_pr.Prelude.{
  ℕ, ◌≡◌, refl, sym, ◌∙◌, ap, Bool, true, ◌&&◌, ◌||◌, some, List, [], ◌∷◌, ◌++◌, any, select, Text,
  text_eq, text_eq_iff, arith,
}
use custom_file_operation_pr.Prelude.Dict.{Dict, lookup, insert, contains}
use custom_file_operation_pr.Prelude.Action.{Result, ok, err}
use custom_file_operation_pr.Models.Roles.{FilePermissions}
use custom_file_operation_pr.Models.Request.{
  BaseHeaderComponent, BaseAuthComponent, BaseInfoComponent, truthy,
}
use custom_file_operation_pr.Models.Responses.{ServerConfig, ResponseHeader}
use custom_file_operation_pr.Database.Tables.{Tables, PermissionRow}
use custom_file_operation_pr.Errors.{Exception, invalid_body_values, insufficient_permissions}
use custom_file_operation_pr.Database.Backend.{Backend, moderate, with_connection}
use custom_file_operation_pr.Database.Outcomes.{
  From, From-pure, From-raise, From-bind, From-with_connection, From-weaken, bind-query,
  bind-or_raise, bind-raise_unless, bind-check_file_permission,
}
use custom_file_operation_pr.Database.Queries.{permits}
use custom_file_operation_pr.Info.Identity.{derive_file_identity, derive_file_identity_iff}
use custom_file_operation_pr.Files.Handlers.{of_file}
use custom_file_operation_pr.Info.Queries.{
  Grant, by_grantee, view, query_header, select_grants, query_grants, subject_of, or_error,
  handle_permission_query,
}

contains-insert :
    {V : Type 0} (g k : Text) (v : V) (m : Dict V)
    → contains g (insert k v m) ≡ (text_eq k g || contains g m)
unfolding contains lookup insert
contains-insert g k v [] = ground arith
contains-insert g k v ((j, w) ∷ m) =
    ground (arith, contains-insert g k v m, text_eq_iff j k, text_eq_iff j g, text_eq_iff k g)

module _ (p : PermissionRow → Bool) (view : PermissionRow → Grant) (g : Text) where
  contains-by_grantee :
      (rows : List PermissionRow) (m : Dict Grant)
      → contains g (by_grantee view (select p rows) m)
        ≡ (contains g m || any (λ r. p r && text_eq r.grantee g) rows)
  unfolding by_grantee
  contains-by_grantee [] m = ground arith
  contains-by_grantee (r ∷ rows) m = ground (
    arith,
    contains-by_grantee rows m,
    contains-by_grantee rows (insert r.grantee (view r) m),
    contains-insert g r.grantee (view r) m,
  )

none-named : (g : Text) (b : Bool) → (contains {V = Grant} g [] || b) ≡ b
unfolding contains lookup
none-named g b = refl

From-or_error :
    {A : Type 0} (r : Result Exception A) {t : Tables} {P : A → Tables → Type 0}
    → ((a : A) → r ≡ ok a → P a t)
    → From t (or_error r) P
From-or_error (ok a) p = From-pure a (p a refl)
From-or_error (err e) p = From-raise e

From-subject_of :
    (info : BaseInfoComponent) (t : Tables) {P : Text × Text → Tables → Type 0}
    → ((owner filename : Text)
        → info.subject_resource ≡ some (owner ++ b'/' ∷ filename)
        → P (owner, filename) t)
    → From t (subject_of info) P
From-subject_of info t {P} p =
    bind-raise_unless (truthy info.subject_resource) invalid_body_values (λ _ _.
      bind-or_raise invalid_body_values info.subject_resource (λ resource e.
        From-or_error (derive_file_identity resource) (λ subject f.
          let joined = (derive_file_identity_iff resource subject.0 subject.1).0 f in
          p subject.0 subject.1 (e ∙ ap some joined.0))))

-- What an answered permission query has checked and tells.
pub record Told (header : BaseHeaderComponent) (auth : BaseAuthComponent) (config : ServerConfig)
    (now : ℕ) (owner filename : Text) (t : Tables) (answer : ResponseHeader × Dict Grant)
    (t' : Tables) : Type 0 where
  pub permitted : permits filename owner auth.identity FilePermissions.manage_rw now t ≡ true
  pub header_sent : answer.0 ≡ query_header header auth config now
  -- just the users with a row on the file, whether it is over or not
  pub named :
      (g : Text)
      → contains g answer.1
        ≡ any (λ r. of_file owner filename r && text_eq r.grantee g) t.file_permissions
  pub tables : t' ≡ t

module _ (header : BaseHeaderComponent) (auth : BaseAuthComponent) (config : ServerConfig)
    (now : ℕ) where
  query_grants-Told :
      (owner filename : Text) (t : Tables)
      → From t
          (query_grants header auth config now owner filename)
          (Told header auth config now owner filename t)
  query_grants-Told owner filename t =
      bind-check_file_permission filename owner auth.identity FilePermissions.manage_rw now
        (λ allowed e. bind-raise_unless allowed insufficient_permissions (λ _ may.
          bind-query (select_grants header auth config now owner filename) (λ rows r.
            From-pure
              (
                query_header header auth config now,
                by_grantee (view header auth config now) rows [],
              )
              (record {
                permitted = sym e ∙ may;
                header_sent = refl;
                named = λ g.
                    ap (λ rows. contains g (by_grantee (view header auth config now) rows [])) r
                    ∙ contains-by_grantee (of_file owner filename) (view header auth config now) g
                        t.file_permissions []
                    ∙ none-named g _;
                tables = refl;
              }))))

  -- A permission query that is answered names a file as an owner and a file name joined by a slash;
  -- its caller may manage who reads and writes the file; the answer names just the users with a row
  -- on the file; and no table is changed.
  pub handle_permission_query-Told :
      (info : BaseInfoComponent) (b : Backend) {answer : ResponseHeader × Dict Grant}
      → (handle_permission_query header auth config now info b).0 ≡ ok answer
      → (owner : Text) × (filename : Text) × (info.subject_resource
          ≡ some (owner ++ b'/' ∷ filename))
        × Told header auth config now owner filename b.tables answer
            (handle_permission_query header auth config now info b).1.tables
  unfolding handle_permission_query
  handle_permission_query-Told info b h =
      (From-bind
          {P = λ answer t'.
            (owner : Text) × (filename : Text) × (info.subject_resource
              ≡ some (owner ++ b'/' ∷ filename))
            × Told header auth config now owner filename b.tables answer t'}
          {m = subject_of info}
          {f = λ subject.
            with_connection moderate (query_grants header auth config now subject.0 subject.1)}
          (From-subject_of info b.tables (λ owner filename named.
            From-weaken (From-with_connection moderate (query_grants-Told owner filename b.tables))
              (λ answer t' told. (owner, filename, named, told))))).returns
        b refl h
