-- ===== src/Access/Changes.antt =====
-- What a change of rights means for the checks that come after it.
use custom_file_operation_pr.Prelude.{
  ℕ, ◌≡◌, ◌≢◌, refl, sym, ◌∙◌, Bool, true, false, not, none, some, List, [], ◌∷◌, ◌++◌, any, All,
  Text, text_eq_iff, text_eq_refl, arith,
}
use custom_file_operation_pr.Prelude.Action.{ok}
use custom_file_operation_pr.Errors.{file_not_found, file_conflict}
use custom_file_operation_pr.Models.Roles.{RoleTypes, FilePermissions}
use custom_file_operation_pr.Models.Request.{
  BaseHeaderComponent, BaseAuthComponent, BasePermissionComponent,
}
use custom_file_operation_pr.Models.Responses.{
  ServerConfig, ResponseHeader, from_server, successful_file_publicise, successful_file_hide,
}
use custom_file_operation_pr.Database.Tables.{Tables, PermissionRow, FileRow}
use custom_file_operation_pr.Database.Backend.{Backend, low, moderate}
use custom_file_operation_pr.Database.Statements.{
  find, is_grant, is_file, delete_where, update_where,
}
use custom_file_operation_pr.Database.Queries.{permits, grants}
use custom_file_operation_pr.Database.Rows.{update_where-undo}
use custom_file_operation_pr.Database.Outcomes.{
  From, bind-write, From-query, bind-query, bind-or_raise, bind-raise_if, bind-raise_unless,
  From-map, From-with_connection, From-catch, From-weaken,
}
use custom_file_operation_pr.Access.Grant.{new_row}
use custom_file_operation_pr.Access.Publicity.{
  publicise_file, publicise_body, hide_file, hide_body, set_public,
}
use custom_file_operation_pr.Access.Rights.{Granted, Revoked, pg_except-raises}

any-grants-delete :
    (owner file user : Text) (p : FilePermissions) (until : ℕ) (rows : List PermissionRow)
    → any (grants file owner user p until) (delete_where (is_grant owner file user) rows) ≡ false
unfolding delete_where
any-grants-delete owner file user p until [] = refl
any-grants-delete owner file user p until (r ∷ rows) =
    ground (arith, any-grants-delete owner file user p until rows)

any-grants-delete_ne :
    (owner file user other : Text) (p : FilePermissions) (until : ℕ) (rows : List PermissionRow)
    → user ≢ other
    → any (grants file owner other p until) (delete_where (is_grant owner file user) rows)
      ≡ any (grants file owner other p until) rows
unfolding delete_where
any-grants-delete_ne owner file user other p until [] h = refl
any-grants-delete_ne owner file user other p until (r ∷ rows) h = ground (
  arith,
  text_eq_iff r.grantee user,
  text_eq_iff r.grantee other,
  any-grants-delete_ne owner file user other p until rows h,
)

module _ {header : BaseHeaderComponent} {auth : BaseAuthComponent}
    {permission : BasePermissionComponent} {now : ℕ} {t t' : Tables} {row : PermissionRow}
    {user : Text} where
  -- Once the role of a user on a file is revoked, every check of a permission of that user on that
  -- file fails, whatever the permission and the instant.
  pub permits-Revoked :
      Revoked header auth permission now t row t'
      → permission.subject_user ≡ some user
      → (p : FilePermissions) (until : ℕ)
      → permits permission.subject_file permission.subject_file_owner user p until t' ≡ false
  permits-Revoked r e p until =
      rw (r.written, e)
        (any-grants-delete permission.subject_file_owner permission.subject_file user p until
          t.file_permissions)

  -- To revoke the role of one user leaves every other user's permissions on the file as they were.
  permits-Revoked_ne :
      (other : Text)
      → Revoked header auth permission now t row t'
      → permission.subject_user ≡ some user
      → user ≢ other
      → (p : FilePermissions) (until : ℕ)
      → permits permission.subject_file permission.subject_file_owner other p until t'
        ≡ permits permission.subject_file permission.subject_file_owner other p until t
  permits-Revoked_ne other r e apart p until =
      rw (r.written, e)
        (any-grants-delete_ne permission.subject_file_owner permission.subject_file user other p
          until t.file_permissions apart)

delete_where-last :
    {A : Type 0} (p : A → Bool) (xs : List A) (x : A)
    → any p xs ≡ false
    → p x ≡ true
    → delete_where p (xs ++ x ∷ []) ≡ xs
unfolding delete_where
delete_where-last p [] x none_yet h = ground arith
delete_where-last p (y ∷ xs) x none_yet h = ground (arith, delete_where-last p xs x)

is_grant_self : (r : PermissionRow) → is_grant r.file_owner r.filename r.grantee r ≡ true
is_grant_self r =
    ground (arith, text_eq_refl r.file_owner, text_eq_refl r.filename, text_eq_refl r.grantee)

-- Whoever revokes a role that was just granted, in a request on the same file and user, brings
-- every table back to what it was before the grant.
Granted-Revoked :
    {header header' : BaseHeaderComponent} {auth auth' : BaseAuthComponent}
    {permission : BasePermissionComponent} {now now' : ℕ} {role : RoleTypes} {row : PermissionRow}
    {t t' t'' : Tables}
    → Granted header auth permission now role t t'
    → Revoked header' auth' permission now' t' row t''
    → t'' ≡ t
Granted-Revoked {header} {auth = auth} {permission = permission} {now = now} {role = role} {t = t} g
      r =
    let new = new_row header auth permission role g.user now in
    let back : delete_where (is_grant permission.subject_file_owner permission.subject_file g.user)
          (t.file_permissions ++ new ∷ [])
        ≡ t.file_permissions =
      delete_where-last _ t.file_permissions new g.vacant (is_grant_self new) in
    rw (r.written, g.written, g.subject, back)

-- What holds when a file has been made public, or hidden.
abbrev pub Publishes : Bool → Text → Text → Tables → Tables → Type 0
Publishes b owner file t t' =
    (r : FileRow) × (find (is_file owner file) t.files ≡ some r)
    × (r.public ≡ not b)
    × (t' ≡ set_public b owner file t)

module _ (owner file : Text) (t : Tables) where
  publicise_body-Publishes :
      From t (publicise_body owner file) (λ _ t'. Publishes true owner file t t')
  publicise_body-Publishes =
      bind-query (λ t. find (is_file owner file) t.files)
        λ row queried. bind-or_raise file_not_found row λ r found.
          bind-raise_if r.public file_conflict λ _ private.
            bind-write (set_public true owner file)
              λ _. From-query (λ _. tt) (r, sym queried ∙ found, private, refl)

  hide_body-Publishes : From t (hide_body owner file) (λ _ t'. Publishes false owner file t t')
  hide_body-Publishes =
      bind-query (λ t. find (is_file owner file) t.files)
        λ row queried. bind-or_raise file_not_found row λ r found.
          bind-raise_unless r.public file_conflict λ _ public.
            bind-write (set_public false owner file)
              λ _. From-query (λ _. tt) (r, sym queried ∙ found, public, refl)

All-map :
    {A : Type 0} {P Q : A → Type 0} (xs : List A) → ((x : A) → P x → Q x) → All P xs → All Q xs
All-map [] k h = tt
All-map (x ∷ xs) k h = (k x h.0, All-map xs k h.1)

private_again :
    (owner file : Text) (f : FileRow)
    → (is_file owner file f ≡ true → f.public ≡ false)
    → is_file owner file f ≡ true
    → ◌≡◌ {A = FileRow} (record f { public = false }) f
private_again owner file f h e = let was : f.public ≡ false = h e in cc

set_public-undo :
    (owner file : Text) (t : Tables)
    → All (λ f. is_file owner file f ≡ true → f.public ≡ false) t.files
    → set_public false owner file (set_public true owner file t) ≡ t
set_public-undo owner file t private =
    let back : update_where (is_file owner file) (λ r. record r { public = false })
          (update_where (is_file owner file) (λ r. record r { public = true }) t.files)
        ≡ t.files =
      update_where-undo (is_file owner file) _ _ t.files (λ y. refl)
        (All-map t.files (private_again owner file) private) in
    rw back

module _ (header : BaseHeaderComponent) (auth : BaseAuthComponent)
    (permission : BasePermissionComponent) (config : ServerConfig) (b : Backend)
    {r : ResponseHeader} where
  -- A `publicise_file` that returns found a private file of the caller's and made it public.
  publicise_file-Publishes :
      (publicise_file header auth permission config b).0 ≡ ok r
      → Publishes true auth.identity permission.subject_file b.tables
          (publicise_file header auth permission config b).1.tables
  unfolding publicise_file
  publicise_file-Publishes h =
      (From-weaken
          (From-map
            (λ _. from_server config successful_file_publicise (some header.version) header.finish)
            (From-with_connection low (
              From-catch (publicise_body-Publishes auth.identity permission.subject_file b.tables)
                (pg_except-raises (some auth.identity)))))
          (λ _ t' (_, _, p). p)).returns
        b refl h

  -- A `hide_file` that returns found a public file of the caller's and made it private.
  hide_file-Publishes :
      (hide_file header auth permission config b).0 ≡ ok r
      → Publishes false auth.identity permission.subject_file b.tables
          (hide_file header auth permission config b).1.tables
  unfolding hide_file
  hide_file-Publishes h =
      (From-weaken
          (From-map
            (λ _. from_server config successful_file_hide (some header.version) header.finish)
            (From-with_connection moderate (
              From-catch (hide_body-Publishes auth.identity permission.subject_file b.tables)
                (pg_except-raises none))))
          (λ _ t' (_, _, p). p)).returns
        b refl h

-- Where the caller's file is private in each row that names it, a `publicise_file` that returns followed by a `hide_file` that returns brings
-- every table back.
hide_file-publicise_file :
    (header : BaseHeaderComponent) (auth : BaseAuthComponent) (permission : BasePermissionComponent)
    (config : ServerConfig) (b : Backend) {r r' : ResponseHeader}
    → All
        (λ f. is_file auth.identity permission.subject_file f ≡ true → f.public ≡ false)
        b.tables.files
    → (publicise_file header auth permission config b).0 ≡ ok r
    → (hide_file header auth permission config (publicise_file header auth permission config b).1).0
      ≡ ok r'
    → (hide_file header auth permission config
        (publicise_file header auth permission config b).1).1.tables
      ≡ b.tables
hide_file-publicise_file header auth permission config b private h h' =
    let (_, _, _, published) = publicise_file-Publishes header auth permission config b h in
    let (_, _, _, hidden) =
      hide_file-Publishes header auth permission config
        (publicise_file header auth permission config b).1 h' in
    rw (hidden, published) (set_public-undo auth.identity permission.subject_file b.tables private)
