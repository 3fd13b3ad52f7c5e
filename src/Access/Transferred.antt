-- ===== src/Access/Transferred.antt =====
-- Who holds a file after its ownership was transferred.
use custom_file_operation_pr.Prelude.{
  ℕ, ◌≡◌, refl, ◌∙◌, ap, sym, Bool, true, false, ◌||◌, any, List, [], ◌∷◌, ◌++◌, Text, text_eq,
  text_eq_refl, arith,
}
use custom_file_operation_pr.Prelude.Action.{Result, ok, ◌>>◌, bind-inv}
use custom_file_operation_pr.Errors.{PgError}
use custom_file_operation_pr.Models.Roles.{RoleTypes, FilePermissions, role_permits}
use custom_file_operation_pr.Models.Request.{
  BaseHeaderComponent, BaseAuthComponent, BasePermissionComponent,
}
use custom_file_operation_pr.Models.Responses.{ServerConfig}
use custom_file_operation_pr.Database.Tables.{Tables, PermissionRow}
use custom_file_operation_pr.Database.Backend.{Backend, execute}
use custom_file_operation_pr.Database.Queries.{grants, permits}
use custom_file_operation_pr.Database.Rows.{any-append}
use custom_file_operation_pr.Database.Statements.{is_file, update_where, insert_permission}
use custom_file_operation_pr.Files.State.{FileServer, on_db}
use custom_file_operation_pr.Files.Handlers.{of_file}
use custom_file_operation_pr.Access.Transfer.{
  rename_file_row, regrant_rows, rekey_permission, transfer_rows, manager_row,
}

execute-ok :
    {A : Type 0} (f : Tables → Result PgError (Tables × A)) (b : Backend) {a : A}
    → (execute f b).0 ≡ ok a
    → f b.tables ≡ ok ((execute f b).1.tables, a)
unfolding execute
execute-ok f b {a} h = ground arith

module _ (owner filename user new_name : Text) where
  -- A row of the file goes under its new key, where it grants what it granted.
  rekeyed-grants :
      (grantee : Text) (p : FilePermissions) (until : ℕ) (rows : List PermissionRow)
      → any (grants filename owner grantee p until) rows ≡ true
      → any
          (grants new_name user grantee p until)
          (update_where (of_file owner filename) (rekey_permission user new_name) rows)
        ≡ true
  unfolding update_where
  rekeyed-grants grantee p until [] h = h
  rekeyed-grants grantee p until (r ∷ rows) h =
      ground (arith, rekeyed-grants grantee p until rows, text_eq_refl user, text_eq_refl new_name)

  -- No row is left under the old key.
  rekeyed-of_file :
      (rows : List PermissionRow)
      → text_eq user owner ≡ false
      → any
          (of_file owner filename)
          (update_where (of_file owner filename) (rekey_permission user new_name) rows)
        ≡ false
  unfolding update_where
  rekeyed-of_file [] h = refl
  rekeyed-of_file (r ∷ rows) h = ground (arith, rekeyed-of_file rows)

  rename_file_row-permissions :
      (t : Tables) {t' : Tables}
      → any (is_file owner filename) t.files ≡ true
      → rename_file_row owner filename user new_name t ≡ ok (t', tt)
      → t'.file_permissions
        ≡ update_where (of_file owner filename) (rekey_permission user new_name) t.file_permissions
  unfolding rename_file_row
  rename_file_row-permissions t {t'} known h = ground arith

  update_where-none :
      (p : PermissionRow → Bool) (f : PermissionRow → PermissionRow) (rows : List PermissionRow)
      → any p rows ≡ false
      → update_where p f rows ≡ rows
  unfolding update_where
  update_where-none p f [] h = refl
  update_where-none p f (r ∷ rows) h = ground (arith, update_where-none p f rows)

  regrant_rows-permissions :
      (grantee : Text) (t : Tables) {t' : Tables}
      → any (of_file owner filename) t.file_permissions ≡ false
      → regrant_rows owner filename user new_name grantee t ≡ ok (t', tt)
      → t'.file_permissions ≡ t.file_permissions
  unfolding regrant_rows
  regrant_rows-permissions grantee t {t'} h e =
      let same =
        update_where-none (of_file owner filename)
          (λ r. record r { file_owner = user; filename = new_name; grantee = grantee })
          t.file_permissions h in
      ground arith

or_true : (a : Bool) {b : Bool} → b ≡ true → (a || b) ≡ true
or_true true h = refl
or_true false h = h

insert_permission-permissions :
    (r : PermissionRow) (t : Tables) {t' : Tables}
    → insert_permission r t ≡ ok (t', tt)
    → t'.file_permissions ≡ t.file_permissions ++ r ∷ []
insert_permission-permissions r t {t'} h = ground arith

-- The statements of an ownership transfer that all go through, for a file that the tables know and a
-- new owner other than the old one. Whatever the old owner was permitted on the file before, up to the
-- transfer of its ownership, they are still permitted on it under its new owner and name; the new
-- owner may read, write and manage it.
pub transfer_rows-permits :
    (header : BaseHeaderComponent) (auth : BaseAuthComponent) (subject : BasePermissionComponent)
    (config : ServerConfig) (user new_fname : Text) (now : ℕ) (s : FileServer)
    → any (is_file auth.identity subject.subject_file) s.storage.backend.tables.files ≡ true
    → text_eq user auth.identity ≡ false
    → (transfer_rows header auth subject config user new_fname now s).0 ≡ ok tt
    → let t = s.storage.backend.tables in
      let t' =
        (transfer_rows header auth subject config user new_fname now s).1.storage.backend.tables in
      ((p : FilePermissions) (until : ℕ)
        → permits subject.subject_file auth.identity auth.identity p until t ≡ true
        → permits new_fname user auth.identity p until t' ≡ true)
      × ((p : FilePermissions) (until : ℕ)
          → role_permits RoleTypes.manager p ≡ true
          → permits new_fname user user p until t' ≡ true)
transfer_rows-permits header auth subject config user new_fname now s known apart h =
    let owner = auth.identity in
    let file = subject.subject_file in
    let rename = rename_file_row owner file user new_fname in
    let regrant = regrant_rows owner file user new_fname owner in
    let row = manager_row header auth subject config user new_fname now in
    let m1 = on_db (execute rename) in
    let m2 = on_db (execute regrant) in
    let m3 = on_db (execute (insert_permission row)) in
    let s1 = (m1 s).1 in
    let s2 = (m2 s1).1 in
    let (_, e1, r1) = bind-inv m1 (λ _. m2 >> m3) s h in
    let h2 : ((m2 >> m3) s1).0 ≡ ok tt = sym (ap (λ r. r.0) r1) ∙ h in
    let (_, e2, r2) = bind-inv m2 (λ _. m3) s1 h2 in
    let e3 : (m3 s2).0 ≡ ok tt = sym (ap (λ r. r.0) r2) ∙ h2 in
    let p1 =
      rename_file_row-permissions owner file user new_fname s.storage.backend.tables known
        (execute-ok rename s.storage.backend e1) in
    let moved =
      rekeyed-of_file owner file user new_fname s.storage.backend.tables.file_permissions apart in
    let p2 =
      regrant_rows-permissions owner file user new_fname owner s1.storage.backend.tables
        (ap (any (of_file owner file)) p1 ∙ moved) (execute-ok regrant s1.storage.backend e2) in
    let p3 =
      insert_permission-permissions row s2.storage.backend.tables
        (execute-ok (insert_permission row) s2.storage.backend e3) in
    let rows =
      update_where (of_file owner file) (rekey_permission user new_fname)
        s.storage.backend.tables.file_permissions in
    let final : (transfer_rows header auth subject config user new_fname now
          s).1.storage.backend.tables.file_permissions
        ≡ rows ++ row ∷ [] =
      ap (λ r. r.1.storage.backend.tables.file_permissions) (r1 ∙ r2)
      ∙ p3
      ∙ ap (λ l. l ++ row ∷ []) (p2 ∙ p1) in
    (
      λ p until held.
          (let q = grants new_fname user owner p until in
            ap (any q) final
            ∙ any-append q rows (row ∷ [])
            ∙ ap (λ b. b || any q (row ∷ []))
                (rekeyed-grants owner file user new_fname owner p until
                  s.storage.backend.tables.file_permissions held)),
      λ p until may.
          (let q = grants new_fname user user p until in
            let last : any q (row ∷ []) ≡ true =
              rw (text_eq_refl user, text_eq_refl new_fname, may) refl in
            ap (any q) final ∙ any-append q rows (row ∷ []) ∙ or_true (any q rows) last),
    )
