-- ===== src/Database/Statements.antt =====
-- The SQL statements of the server, as functions of the tables.
use custom_file_operation_pr.Prelude.{
  ℕ, ltb, if◌then◌else◌, Bool, true, false, ◌&&◌, Option, none, some, List, [], ◌∷◌, ◌++◌, any,
  Text, Bytes, text_eq,
}
use custom_file_operation_pr.Prelude.Int.{pos}
use custom_file_operation_pr.Prelude.Action.{Result, ok, err}
use custom_file_operation_pr.Errors.{PgError, unique_violation, foreign_key_violation}
use custom_file_operation_pr.Database.Tables.{Tables, UserRow, FileRow, PermissionRow}

-- `cursor.fetchone()` on the rows that a query selects
abbrev pub first {ℓ} : {A : Type ℓ} → List A → Option A
first [] = none
first (x ∷ xs) = some x

-- The first row that passes a test.
unfoldable pub find {ℓ} : {A : Type ℓ} → (A → Bool) → List A → Option A
find p [] = none
find p (x ∷ xs) = let rest = find p xs in if p x then some x else rest

-- A row is changed where the test holds.
unfoldable pub update_where {ℓ} : {A : Type ℓ} → (A → Bool) → (A → A) → List A → List A
update_where p f [] = []
update_where p f (x ∷ xs) = (if p x then f x else x) ∷ update_where p f xs

unfoldable pub delete_where {ℓ} : {A : Type ℓ} → (A → Bool) → List A → List A
delete_where p [] = []
delete_where p (x ∷ xs) = let rest = delete_where p xs in if p x then rest else x ∷ rest

-- `WHERE username = %s`
abbrev pub is_user : Text → UserRow → Bool
is_user u r = text_eq r.username u

-- `WHERE owner = %s AND filename = %s`
abbrev pub is_file : Text → Text → FileRow → Bool
is_file owner filename r = text_eq r.owner owner && text_eq r.filename filename

-- `WHERE file_owner = %s AND filename = %s AND grantee = %s`
abbrev pub is_grant : Text → Text → Text → PermissionRow → Bool
is_grant owner filename grantee r =
    text_eq r.file_owner owner && text_eq r.filename filename && text_eq r.grantee grantee

-- `t > %s` and `t < %s`, which no row with NULL for `t` passes.
abbrev pub later_than : ℕ → Option ℕ → Bool
later_than now none = false
later_than now (some t) = ltb now t

abbrev pub earlier_than : ℕ → Option ℕ → Bool
earlier_than now none = false
earlier_than now (some t) = ltb t now

abbrev pub is_null : Option ℕ → Bool
is_null none = true
is_null (some t) = false

abbrev pub has_user : Text → Tables → Bool
has_user u t = any (is_user u) t.users

-- `INSERT INTO users (username, password_hash, password_salt)`
abbrev pub insert_user : Text → Bytes → Bytes → Tables → Result PgError (Tables × Unit {0})
insert_user u hash salt t =
    if has_user u t
    then err unique_violation
    else ok (
      record t {
        users =
            t.users
            ++ record {
              username = u;
              file_count = pos 0;
              storage_used = pos 0;
              password_hash = hash;
              password_salt = salt;
            }
              ∷ [];
      },
      tt,
    )

-- A NULL foreign key refers to nothing.
abbrev pub known_user : Option Text → Tables → Bool
known_user none t = true
known_user (some u) t = has_user u t

-- `INSERT INTO file_permissions`, with its primary key and its three foreign keys
abbrev pub insert_permission : PermissionRow → Tables → Result PgError (Tables × Unit {0})
insert_permission r t =
    if any (is_grant r.file_owner r.filename r.grantee) t.file_permissions
    then err unique_violation
    else if any (is_file r.file_owner r.filename) t.files
        && has_user r.grantee t
        && known_user r.granted_by t
    then ok (record t { file_permissions = t.file_permissions ++ r ∷ [] }, tt)
    else err foreign_key_violation
