-- ===== src/Files/Tree.antt =====
-- The operations of server/file_ops/base_operations.py that create, delete and move files.
use custom_file_operation_pr.Prelude.{
  ◌==◌, if◌then◌else◌, Bool, true, false, not, ◌&&◌, ◌||◌, Option, none, some, List, [], ◌∷◌, ◌++◌,
  Text, Bytes, text_eq, join_path, is_some, any, select,
}
use custom_file_operation_pr.Prelude.Dict.{Dict, lookup, contains}
use custom_file_operation_pr.Prelude.Action.{
  ◌>>=◌, ◌>>◌, pure, raise, gets, modify, raise_if, raise_unless, catch,
}
use custom_file_operation_pr.Errors.{
  os_error, file_not_found_error, internal_server_error, stop_iteration,
}
use custom_file_operation_pr.Files.Disk.{Disk, is_file, is_directory, put_file, remove_path}
use custom_file_operation_pr.Files.Buffers.{
  rename_buffers, move_buffers, relocate, FileState, purge_buffers, mark_deleted,
}
use custom_file_operation_pr.Files.Calls.{FileOp, os_call, on_disk, is_os_error}

-- `lower` is `str.lower`. The path of the new file, or `none` if there is one already. Its time of
-- creation is left out.
unfoldable pub create_file :
    (lower : Text → Text) → (root owner filename : Text) → FileOp (Option Text)
create_file lower root owner filename = do
  let parent = join_path root (lower owner)
  there ← gets (λ s. is_file parent s.disk)
  raise_if there os_error
  os_call
  on_disk (λ d. record d { directories = parent ∷ d.directories })
  let fpath = join_path parent filename
  taken ← gets (λ s. is_file fpath s.disk || is_directory fpath s.disk)
  if taken
      then pure none
      else (os_call
          >> on_disk (put_file fpath [])
          >> pure (some (join_path (lower owner) filename)))

-- `with_caches` tells whether the two caches of buffers are passed.
-- `fpath in deleted_cache or not os.path.isfile(abs_fpath)`
unfoldable pub is_deleted : (root fpath : Text) → FileState → Bool
unfolding contains
is_deleted root fpath s =
    contains fpath s.deleted_cache || not (is_file (join_path root fpath) s.disk)

-- The removal itself, from the disk and then from the caches.
abbrev pub forget_file : (root fpath : Text) → (with_caches : Bool) → FileOp Bool
forget_file root fpath with_caches = do
  on_disk (remove_path (join_path root fpath))
  modify (relocate (λ p. if text_eq p (join_path root fpath) then [] else p))
  modify (if with_caches then purge_buffers fpath else mark_deleted fpath)
  pure true

abbrev pub remove_from_disk : (root fpath : Text) → (with_caches : Bool) → FileOp Bool
remove_from_disk root fpath with_caches = os_call >> forget_file root fpath with_caches

unfoldable pub delete_file : (root fpath : Text) → (with_caches : Bool) → FileOp Bool
delete_file root fpath with_caches = do
  gone ← gets (is_deleted root fpath)
  if gone
      then pure false
      else (catch (remove_from_disk root fpath with_caches)
          (λ e. if is_os_error e then pure false else raise e))

-- `os.replace(src, dst)`: it fails where the directory `parent` of `dst` is missing.
abbrev pub replace_file : (src dst parent : Text) → FileOp (Unit {0})
replace_file src dst parent = do
  os_call
  there ← gets (λ s. is_directory parent s.disk && is_file src s.disk)
  raise_unless there os_error
  on_disk (λ d. elim (lookup src d.files) [
    | none ↦ d
    | some content ↦ put_file dst content (remove_path src d)
  ])
  modify (relocate (λ p. if text_eq p src then dst else if text_eq p dst then [] else p))

abbrev pub truthy_or : Option Text → Text → Text
truthy_or none file = file
truthy_or (some []) file = file
truthy_or (some (c ∷ s)) file = c ∷ s

abbrev pub ensure_root : Text → FileOp (Unit {0})
ensure_root root = do
  there ← gets (λ s. is_directory root s.disk)
  if there
      then pure tt
      else (os_call >> on_disk (λ d. record d { directories = root ∷ d.directories }))

-- The move itself: `fresh` is what `uuid4().hex` gives, put before the name if the new one is taken.
abbrev pub move_file : (root prev_fpath new_owner file fresh : Text) → FileOp (Option Text)
move_file root prev_fpath new_owner file fresh = do
  let parent = join_path root new_owner
  ensure_root root
  taken ← gets (λ s. is_file (join_path parent file) s.disk)
  let file' = if taken then fresh ++ b'_' ∷ file else file
  replace_file prev_fpath (join_path parent file') parent
  pure (some file')

unfoldable pub transfer_file :
    (root previous_owner file new_owner : Text)
    → (new_name : Option Text) → (fresh : Text) → FileOp (Option Text)
transfer_file root previous_owner file new_owner new_name fresh = do
  let prev_fpath = join_path (join_path root previous_owner) file
  gone ← gets (λ s. contains prev_fpath s.deleted_cache || not (is_file prev_fpath s.disk))
  if gone
      then pure none
      else (catch (move_file root prev_fpath new_owner (truthy_or new_name file) fresh)
          (λ e. if is_os_error e then pure none else raise e))

-- `rename_file`; `dirname` is `os.path.dirname`. The path that is renamed is `fpath` itself, without
-- `root`. It is called by nothing.
unfoldable pub rename_file :
    (dirname : Text → Text) → (root fpath name : Text) → (with_caches : Bool) → FileOp Bool
unfolding rename_buffers
rename_file dirname root fpath name with_caches = do
  let abs_fpath = join_path root fpath
  gone ← gets (λ s. contains fpath s.deleted_cache || not (is_file abs_fpath s.disk))
  let new_fpath = join_path (dirname abs_fpath) name
  if gone
      then pure false
      else (catch
          (replace_file fpath new_fpath (dirname abs_fpath)
            >> modify (λ s. if with_caches then move_buffers fpath new_fpath s else s)
            >> pure true)
          (λ e. if is_os_error e then pure false else raise e))

-- What follows `directory/` in a path.
unfoldable pub below : (directory path : Text) → Option Text
below [] [] = none
below [] (c ∷ path) = if c == b'/' then some path else none
below (d ∷ directory) [] = none
below (d ∷ directory) (c ∷ path) = let rest = below directory path in if d == c then rest else none

-- The names of the files that stand right in a directory: `next(os.walk(top))[2]`.
unfoldable pub names_in : (directory : Text) → Dict Bytes → List Text
unfolding below
names_in directory [] = []
names_in directory ((path, content) ∷ files) =
    let rest = names_in directory files in
    elim (below directory path) [
      | none ↦ rest
      | some name ↦ if any (λ c. c == b'/') name then rest else name ∷ rest
    ]

-- `shutil.rmtree`; one that is refused removes nothing.
abbrev pub remove_tree : Text → Disk → Disk
remove_tree directory d = record d {
  files = select (λ f. not (is_some (below directory f.0))) d.files;
  directories =
      select (λ p. not (text_eq p directory || is_some (below directory p))) d.directories;
}

unfoldable pub delete_directory :
    (root dirname : Text) → (raise_on_absence : Bool) → FileOp (List Text)
unfolding names_in below
delete_directory root dirname raise_on_absence = do
  let abs_dpath = join_path root dirname
  there ← gets (λ s. is_directory abs_dpath s.disk)
  raise_if (not there && raise_on_absence) file_not_found_error
  raise_unless there stop_iteration
  deleted_files ← gets (λ s. names_in abs_dpath s.disk.files)
  catch
      (os_call
        >> on_disk (remove_tree abs_dpath)
        >> modify (relocate (λ p. if is_some (below abs_dpath p) then [] else p)))
      (λ e. if is_os_error e then raise internal_server_error else raise e)
  pure deleted_files
