-- ===== src/Files/Amendment.antt =====
-- `handle_amendment` of server/file_ops/file_subhandlers.py, with the check of
-- server/file_ops/utils.py.
use custom_file_operation_pr.Prelude.{
  ℕ, ltb, min, if◌then◌else◌, Bool, true, false, not, ◌&&◌, ◌||◌, Option, none, some, length, Text,
  Bytes, is_some,
}
use Prim.Native.Nat.{bit_or}
use custom_file_operation_pr.Prelude.Int.{ℤ, pos, ◌+ℤ◌, ◌-ℤ◌, leb_ℤ, nonneg_part, is_zero}
use custom_file_operation_pr.Prelude.Dict.{Dict, lookup}
use custom_file_operation_pr.Prelude.Action.{
  ok, err, ◌>>=◌, ◌>>◌, pure, gets, or_raise, raise_unless,
}
use custom_file_operation_pr.Errors.{
  invalid_file_data, file_not_found, insufficient_permissions, file_conflict, file_contested,
  key_error, value_error,
}
use custom_file_operation_pr.Models.Flags.{
  has_flag, write_bit, overwrite_bit, append_bit, purge_cursor,
}
use custom_file_operation_pr.Models.Roles.{FilePermissions}
use custom_file_operation_pr.Models.Request.{
  BaseHeaderComponent, BaseAuthComponent, BaseFileComponent, truthy,
}
use custom_file_operation_pr.Models.Responses.{
  ServerConfig, ResponseHeader, ResponseBody, cursor_of, from_server, successful_amend,
}
use custom_file_operation_pr.Database.Tables.{permission}
use custom_file_operation_pr.Database.Backend.{moderate}
use custom_file_operation_pr.Database.Queries.{check_file_existence, check_file_permission}
use custom_file_operation_pr.Storage.Cache.{get_storage_data, update_file_size, get_file_size}
use custom_file_operation_pr.Files.Buffers.{get_buffer}
use custom_file_operation_pr.Files.Calls.{FileOp}
use custom_file_operation_pr.Files.Locks.{acquire_file_lock}
use custom_file_operation_pr.Files.Writing.{write_file, append_file}
use custom_file_operation_pr.Files.State.{
  Handler, on_storage, on_db, on_files, with_proxy, require, set_lock, drop_lock,
}
use custom_file_operation_pr.Files.Handlers.{path_of, position_of, keepalive}
use custom_file_operation_pr.Prelude.{text_eq}

-- `cursor_position or current_file_size`
abbrev pub start_of : Option ℤ → ℤ → ℤ
start_of none size = size
start_of (some p) size = if is_zero p then size else p

unfoldable pub check_amendmend_storage_integrity :
    (content_size current_file_size current_storage_used : ℤ)
    → ServerConfig
    → (is_append : Bool) → (cursor_position : Option ℤ) → Bool
check_amendmend_storage_integrity content_size current_file_size current_storage_used config
      is_append cursor_position =
    if is_append
    then leb_ℤ (current_storage_used +ℤ (current_file_size +ℤ content_size)) config.user_max_storage
    else leb_ℤ (current_storage_used +ℤ start_of cursor_position current_file_size +ℤ content_size)
        config.user_max_storage

-- `if not file_component.write_data`
abbrev pub write_data_of : BaseFileComponent → Option Bytes
write_data_of file = if truthy file.write_data then file.write_data else none

-- The rounds of `acquire_file_lock`.
abbrev pub max_attempts : ℕ
max_attempts = 10000

-- `asyncio.wait_for(acquire_file_lock(...), timeout)`, where the timeout comes after `patience`
-- rounds. The value that it returns is not looked at. `others` is what the other tasks do to the
-- locks meanwhile.
unfoldable pub contend :
    (fpath identity : Text)
    → (patience : ℕ) → (others : ℕ → Dict Text → Dict Text) → FileOp (Unit {0})
contend fpath identity patience others s =
    let (answer, locks) =
      acquire_file_lock (min patience max_attempts) fpath identity others s.file_locks in
    (
      if not (is_some answer) && ltb patience max_attempts then err file_contested else ok tt,
      record s { file_locks = locks },
    )

module _ (header : BaseHeaderComponent) (auth : BaseAuthComponent) (file : BaseFileComponent)
    (config : ServerConfig) where
  unfoldable pub check_amendable : Bytes → Handler ℤ
  check_amendable new = do
    exists ← on_db (check_file_existence file.subject_file file.subject_file_owner)
    raise_unless exists file_not_found
    allowed ← on_db (
        check_file_permission file.subject_file file.subject_file_owner auth.identity
          FilePermissions.write header.sender_timestamp)
    require allowed permission (some auth.identity) insufficient_permissions
    found ← on_storage (get_storage_data auth.identity (some moderate) false)
    file_size ← on_storage (get_file_size file.subject_file_owner file.subject_file none false)
    require
        (check_amendmend_storage_integrity (pos (length new)) file_size found.storage_used config
          (has_flag header.subcategory append_bit) none)
        permission (some auth.identity) file_conflict
    pure file_size

  abbrev pub take_lock : (patience : ℕ) → (others : ℕ → Dict Text → Dict Text) → FileOp (Unit {0})
  take_lock patience others =
      if text_eq file.subject_file_owner auth.identity
      then set_lock (path_of header auth file config) auth.identity
      else contend (path_of header auth file config) auth.identity patience others

  abbrev pub purge : Bool
  purge = file.end_operation || has_flag file.cursor_bitfield purge_cursor

  -- The growth that a write is taken to be.
  abbrev pub write_diff : (overwrite : Bool) → (position : ℕ) → (file_size : ℤ) → ℤ
  write_diff overwrite position file_size =
      if overwrite then pos position -ℤ file_size else nonneg_part (pos position -ℤ file_size)

  abbrev pub amend_by_write : Bytes → ℤ → Handler ℤ
  amend_by_write new file_size = do
    let overwrite = has_flag header.subcategory overwrite_bit
    position ← on_files (
        write_file config.files_directory (path_of header auth file config) new auth.identity
          (position_of file.cursor_position) overwrite (keepalive header auth file config) purge)
    on_storage (
        update_file_size file.subject_file_owner (write_diff overwrite position file_size) none
          false)
    pure (pos position)

  abbrev pub amend_by_append : Bytes → ℤ → Handler ℤ
  amend_by_append new file_size = do
    position ← on_files (
        append_file config.files_directory (path_of header auth file config) new auth.identity
          (keepalive header auth file config) purge false)
    on_storage (update_file_size file.subject_file_owner (position -ℤ file_size) none false)
    pure position

  -- `file_locks.pop(fpath)`, whoever holds it
  abbrev pub release_lock : Text → FileOp (Unit {0})
  release_lock fpath = do
    or_raise key_error (← gets (λ s. lookup fpath s.file_locks))
    drop_lock fpath

  abbrev pub write_or_append : Bytes → ℤ → Handler ℤ
  write_or_append new file_size =
      if has_flag header.subcategory (bit_or write_bit overwrite_bit)
      then amend_by_write new file_size
      else amend_by_append new file_size

  -- What follows once the lock is asked for, for a file that was `file_size` long.
  unfoldable pub amend_locked :
      Bytes → (file_size : ℤ) → Handler (ResponseHeader × ResponseBody (Unit {0}))
  amend_locked new file_size = do
    position ← write_or_append new file_size
    kept ←
        gets (λ s.
          get_buffer (s.files).amendment_cache (path_of header auth file config) auth.identity)
    on_files (if is_some kept then pure tt else release_lock (path_of header auth file config))
    cursor_position ← or_raise value_error (cursor_of position)
    pure (
      from_server config successful_amend (some header.version) header.finish,
      record {
        contents = none;
        operation_ended = true;
        cursor_position = cursor_position;
        cursor_keepalive_accepted = is_some kept;
      },
    )

  -- What follows the checks.
  unfoldable pub amend_file :
      (patience : ℕ)
      → (others : ℕ → Dict Text → Dict Text) → Bytes
      → ℤ
      → Handler (ResponseHeader × ResponseBody (Unit {0}))
  amend_file patience others new file_size =
      on_files (take_lock patience others) >> amend_locked new file_size

  unfoldable pub handle_amendment :
      (patience : ℕ)
      → (others : ℕ → Dict Text → Dict Text) → Handler (ResponseHeader × ResponseBody (Unit {0}))
  handle_amendment patience others = do
    new ← or_raise invalid_file_data (write_data_of file)
    file_size ← with_proxy moderate (check_amendable new)
    amend_file patience others new file_size
