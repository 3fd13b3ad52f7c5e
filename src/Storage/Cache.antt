-- ===== src/Storage/Cache.antt =====
-- `StorageData`, and the methods of `StorageCache` that a request calls. A proxy that the caller
-- passes is known by its level. An exception that a query raises passes the `reclaim_connection`
-- that stands after it.
use custom_file_operation_pr.Prelude.{
  ℕ, if◌then◌else◌, Bool, true, false, Option, none, some, [], ◌∷◌, Text,
}
use custom_file_operation_pr.Prelude.Int.{ℤ, pos, ◌+ℤ◌, ◌-ℤ◌, is_zero}
use custom_file_operation_pr.Prelude.Dict.{Dict, lookup, insert, erase, setdefault}
use custom_file_operation_pr.Prelude.Action.{Action, ok, ◌>>=◌, ◌>>◌, pure, gets, or_raise, modify}
use custom_file_operation_pr.Errors.{Exception, user_not_found, file_not_found, key_error}
use custom_file_operation_pr.Database.Tables.{UserRow, FileRow}
use custom_file_operation_pr.Database.Backend.{
  Backend, Db, ConnectionPriority, low, PoolEvent, requested, reclaimed, execute,
}
use custom_file_operation_pr.Database.Statements.{find, is_user, is_file}

pub record StorageData : Type 0 where
  pub filecount : ℤ
  pub storage_used : ℤ
  pub file_data : Dict ℤ

-- `StorageData(**result)` of a row of `storage_fetch_query`
abbrev pub from_row : UserRow → StorageData
from_row r = record { filecount = r.file_count; storage_used = r.storage_used; file_data = [] }

-- The cache itself is an `OrderedDict`, oldest entry first.
pub record StorageCache : Type 0 where
  pub entries : Dict StorageData
  pub flush_batch_size : ℕ
  pub backend : Backend

abbrev pub Storage : Type 0 → Type 0
Storage = Action Exception StorageCache

abbrev pub on_backend : {A : Type 0} → Db A → Storage A
on_backend m s = let (r, b) = m s.backend in (r, record s { backend = b })

abbrev pub pool_event : PoolEvent → Storage (Unit {0})
pool_event e = modify (λ s. record s { backend = record (s.backend) { pool = e ∷ s.backend.pool } })

-- `if not proxy`: the connection to use, and whether to give it back.
abbrev pub ensure_proxy : Option ConnectionPriority → Bool → Storage (ConnectionPriority × Bool)
ensure_proxy none release_after = pool_event (requested low) >> pure (low, true)
ensure_proxy (some level) release_after = pure (level, release_after)

abbrev pub release : ConnectionPriority × Bool → Storage (Unit {0})
release (level, release_after) = if release_after then pool_event (reclaimed level) else pure tt

abbrev pub fetch_storage : Text → Db (Option UserRow)
fetch_storage username = execute (λ t. ok (t, find (is_user username) t.users))

abbrev pub fetch_size : Text → Text → Db (Option FileRow)
fetch_size username file = execute (λ t. ok (t, find (is_file username file) t.files))

-- `self.setdefault(username, data)`
abbrev pub set_default : Text → StorageData → Storage StorageData
set_default username found s =
    let (entries, d) = setdefault username found s.entries in (ok d, record s { entries = entries })

-- What `get_storage_data` does for a user who is not in the cache.
unfoldable pub load_storage_data : Text → Option ConnectionPriority → Bool → Storage StorageData
unfolding execute find setdefault
load_storage_data username proxy release_after = do
  used ← ensure_proxy proxy release_after
  result ← on_backend (fetch_storage username)
  release used
  row ← or_raise user_not_found result
  set_default username (from_row row)

unfoldable pub get_storage_data : Text → Option ConnectionPriority → Bool → Storage StorageData
unfolding load_storage_data
get_storage_data username proxy release_after s = elim (lookup username s.entries) [
  | none ↦ load_storage_data username proxy release_after s
  | some current ↦ (ok current, s)
]

-- A write to the object of one user, which the cache holds.
abbrev pub put_data : Text → StorageData → Storage (Unit {0})
put_data username found = modify (λ s. record s { entries = insert username found s.entries })

unfoldable pub update_file_size : Text → ℤ → Option ConnectionPriority → Bool → Storage ℤ
update_file_size username diff proxy release_after = do
  found ← get_storage_data username proxy release_after
  let used = found.storage_used +ℤ diff
  put_data username (record found { storage_used = used })
  pure used

unfoldable pub update_file_count : Text → Text → ℤ → Option ConnectionPriority → Bool → Storage ℤ
unfolding setdefault
update_file_count username file diff proxy release_after = do
  found ← get_storage_data username proxy release_after
  let count = found.filecount +ℤ diff
  put_data username
      (record found { filecount = count; file_data = (setdefault file (pos 0) found.file_data).0 })
  pure count

-- `storage_data and (file_data := storage_data.file_data.get(file))`: a size of 0 counts as none.
abbrev pub known_size : Text → Option StorageData → Option ℤ
known_size file none = none
known_size file (some found) = elim (lookup file found.file_data) [
  | none ↦ none
  | some size ↦ if is_zero size then none else some size
]

-- `storage_data`, looked up before, or fetched now on the same connection.
abbrev pub ensure_data : Text → ConnectionPriority → Option StorageData → Storage StorageData
ensure_data username level none = load_storage_data username (some level) false
ensure_data username level (some found) = pure found

unfoldable pub load_file_size : Text → Text → Option ConnectionPriority → Bool → Storage ℤ
unfolding load_storage_data execute find setdefault
load_file_size username file proxy release_after = do
  known ← gets (λ s. lookup username s.entries)
  used ← ensure_proxy proxy release_after
  found ← ensure_data username used.0 known
  result ← on_backend (fetch_size username file)
  row ← or_raise file_not_found result
  release used
  found' ← set_default username found
  let sizes = setdefault file row.file_size found'.file_data
  put_data username (record found' { file_data = sizes.0 })
  pure sizes.1

unfoldable pub get_file_size : Text → Text → Option ConnectionPriority → Bool → Storage ℤ
unfolding load_file_size lookup
get_file_size username file proxy release_after s =
    elim (known_size file (lookup username s.entries)) [
      | none ↦ load_file_size username file proxy release_after s
      | some size ↦ (ok size, s)
    ]

-- `file_data.pop(file)` for a file that the cache knows, else `get_file_size`.
abbrev pub take_size : Text → Text → Option ConnectionPriority → Bool → StorageData → Storage ℤ
take_size username file proxy release_after found = elim (lookup file found.file_data) [
  | none ↦ get_file_size username file proxy release_after
  | some size ↦
      put_data username (record found { file_data = erase file found.file_data }) >> pure size
]

-- `storage_used -= file_size` and `filecount -= 1` on the user's object.
abbrev pub drop_file : Text → ℤ → Storage StorageData
drop_file username size = do
  found ← or_raise key_error (← gets (λ s. lookup username s.entries))
  let found' = record found {
    storage_used = found.storage_used -ℤ size;
    filecount = found.filecount -ℤ pos 1;
  }
  put_data username found'
  pure found'

unfoldable pub remove_file : Text → Text → Option ConnectionPriority → Bool → Storage ℤ
remove_file username file proxy release_after = do
  found ← get_storage_data username proxy release_after
  size ← take_size username file proxy release_after found
  drop_file username size
  pure size

unfoldable pub reflect_removed_file : Text → ℤ → Option ConnectionPriority → Storage ℤ
reflect_removed_file username file_size proxy = do
  get_storage_data username proxy true
  found ← drop_file username file_size
  pure found.storage_used
