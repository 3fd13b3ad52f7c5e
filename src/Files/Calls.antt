-- ===== src/Files/Calls.antt =====
-- Calls on the disk by the operations of server/file_ops/base_operations.py. A path is relative to the
-- server's directory of files, `root`.
use custom_file_operation_pr.Prelude.{
  ◌≡◌, refl, if◌then◌else◌, Bool, true, false, not, ◌||◌, Text, join_path,
}
use custom_file_operation_pr.Prelude.Dict.{contains}
use custom_file_operation_pr.Prelude.Action.{Action, ok, err, modify}
use custom_file_operation_pr.Errors.{Exception, os_error, file_not_found_error}
use custom_file_operation_pr.Files.Disk.{Disk, is_refused, called, is_file}
use custom_file_operation_pr.Files.Buffers.{FileState, is_marked, set_disk}

abbrev pub FileOp : Type 0 → Type 0
FileOp = Action Exception FileState

-- A call that the operating system may refuse.
unfoldable pub os_call : FileOp (Unit {0})
os_call s = (if is_refused s.disk then err os_error else ok tt, set_disk (called s.disk) s)

abbrev pub on_disk : (Disk → Disk) → FileOp (Unit {0})
on_disk f = modify (λ s. set_disk (f s.disk) s)

-- `isinstance(e, OSError)`
abbrev pub is_os_error : Exception → Bool
is_os_error os_error = true
is_os_error file_not_found_error = true
is_os_error _ = false

-- `deleted_cache.get(fpath) or not os.path.isfile(abs_fpath)`
unfoldable pub is_gone : (root fpath : Text) → FileState → Bool
unfolding contains
is_gone root fpath s = is_marked fpath s || not (is_file (join_path root fpath) s.disk)

pub os_call-allowed :
    (s : FileState) → is_refused s.disk ≡ false → os_call s ≡ (ok tt, set_disk (called s.disk) s)
unfolding os_call
os_call-allowed s h = rw h refl

pub os_call-refused :
    (s : FileState)
    → is_refused s.disk ≡ true
    → os_call s ≡ (err os_error, set_disk (called s.disk) s)
unfolding os_call
os_call-refused s h = rw h refl
