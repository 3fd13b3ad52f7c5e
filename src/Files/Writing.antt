-- ===== src/Files/Writing.antt =====
-- `write_file` and `append_file` of server/file_ops/base_operations.py.
use custom_file_operation_pr.Prelude.{
  ℕ, ◌+◌, ◌==◌, if◌then◌else◌, Bool, true, false, not, ◌&&◌, ◌||◌, Option, none, some, [], length,
  Text, Bytes, text_eq, join_path, is_some,
}
use custom_file_operation_pr.Prelude.Int.{ℤ, pos, negsuc}
use custom_file_operation_pr.Prelude.Dict.{lookup}
use custom_file_operation_pr.Prelude.Action.{
  ok, ◌>>=◌, ◌>>◌, pure, raise, gets, modify, raise_if, catch,
}
use custom_file_operation_pr.Errors.{Exception, os_error, file_not_found_error, value_error}
use custom_file_operation_pr.Files.Disk.{put_file}
use custom_file_operation_pr.Files.Buffers.{
  Writer, seek, put_bytes, close_writer, get_buffer, remove_buffer, set_buffer, FileState, set_disk,
  drop_writer,
}
use custom_file_operation_pr.Files.Calls.{FileOp, os_call, on_disk, is_os_error, is_gone}

-- The writer that `write_file` opens: `wb` empties the file, `r+b` does not.
unfoldable pub open_writer : Text → Bool → FileOp Writer
open_writer path truncate = do
  os_call
  on_disk (λ d. if truncate then put_file path [] d else d)
  pure (record { path = path; append = false; position = 0; pending = [] })

abbrev pub writer_for : (path : Text) → (truncate : Bool) → Option Writer → FileOp Writer
writer_for path truncate none = open_writer path truncate
writer_for path truncate (some w) = pure w

-- `if await writer.tell() != cursor_position: await writer.seek(cursor_position)`
unfoldable pub move_to : ℕ → Writer → FileOp Writer
move_to p w s =
    if w.position == p then (ok w, s) else (let (w', d) = seek p w s.disk in (ok w', set_disk d s))

-- `await writer.write(data)`
unfoldable pub write_bytes : Bytes → Writer → FileOp Writer
write_bytes new w = os_call >> λ s. (let (w', d) = put_bytes new w s.disk in (ok w', set_disk d s))

-- What becomes of the writer: it is closed and leaves the cache, it is kept, or it stays in the
-- cache if it was there, and closes as nothing refers to it if it was not.
abbrev pub settle_writer :
    (fpath identifier : Text) → (keepalive purge cached : Bool) → Writer → FileState → FileState
settle_writer fpath identifier keepalive purge cached w s =
    if purge
    then (record s {
      amendment_cache = remove_buffer s.amendment_cache fpath identifier;
      disk = close_writer w s.disk;
    })
    else if keepalive || cached
    then (record s { amendment_cache = set_buffer s.amendment_cache fpath identifier w })
    else set_disk (close_writer w s.disk) s

-- `except IOError`
abbrev pub write_failed : (fpath identifier : Text) → Writer → Exception → FileOp (Unit {0})
write_failed fpath identifier w e =
    if is_os_error e
    then (modify (settle_writer fpath identifier false true false w) >> raise os_error)
    else raise e

-- Writes and settles, or fails.
unfoldable pub write_and_settle :
    (fpath identifier : Text) → Bytes → (keepalive purge cached : Bool) → Writer → FileOp (Unit {0})
unfolding write_bytes
write_and_settle fpath identifier new keepalive purge cached w =
    catch
      (write_bytes new w >>= λ written.
        modify (settle_writer fpath identifier keepalive purge cached written))
      (write_failed fpath identifier w)

-- The answer is the position after the write.
unfoldable pub amend_with :
    (fpath identifier : Text)
    → Bytes
    → (position : ℕ) → (keepalive purge cached : Bool) → Writer
    → FileOp ℕ
amend_with fpath identifier new position keepalive purge cached w = do
  moved ← move_to position w
  write_and_settle fpath identifier new keepalive purge cached moved
  pure (position + length new)

unfoldable pub write_file :
    (root fpath : Text)
    → Bytes
    → (identifier : Text) → (position : ℕ) → (truncate keepalive purge : Bool) → FileOp ℕ
write_file root fpath new identifier position truncate keepalive purge = do
  gone ← gets (is_gone root fpath)
  raise_if gone file_not_found_error
  cached ← gets (λ s. get_buffer s.amendment_cache fpath identifier)
  w ← writer_for (join_path root fpath) truncate cached
  amend_with fpath identifier new position keepalive purge (is_some cached) w

-- `+ab` opens at the end of the file.
unfoldable pub open_append : Text → FileOp Writer
open_append path = do
  os_call
  content ← gets (λ s. lookup path s.disk.files)
  pure (record {
    path = path;
    append = true;
    position = elim content [ none ↦ 0 | some old ↦ length old ];
    pending = [];
  })

-- With `writer_cached`, the cached writer is looked up or opened, and then not used.
abbrev pub look_up_writer : (path fpath identifier : Text) → FileOp (Unit {0})
look_up_writer path fpath identifier = do
  raise_if (text_eq identifier []) value_error
  found ← gets (λ s. get_buffer s.amendment_cache fpath identifier)
  if is_some found then pure tt else os_call

abbrev pub settle_append :
    (fpath identifier : Text)
    → (keepalive purge writer_cached : Bool) → Writer
    → FileState
    → FileState
settle_append fpath identifier keepalive purge writer_cached w s =
    if keepalive && not writer_cached
    then (record (drop_writer fpath identifier s) {
      amendment_cache = set_buffer s.amendment_cache fpath identifier w;
    })
    else if purge
    then (let s' = drop_writer fpath identifier s in set_disk (close_writer w s'.disk) s')
    else set_disk (close_writer w s.disk) s

-- `except IOError`: -1 is the answer.
abbrev pub append_failed : (fpath identifier : Text) → Exception → FileOp ℤ
append_failed fpath identifier e =
    if is_os_error e then (modify (drop_writer fpath identifier) >> pure (negsuc 0)) else raise e

unfoldable pub append_file :
    (root fpath : Text)
    → Bytes
    → (identifier : Text) → (keepalive purge writer_cached : Bool) → FileOp ℤ
append_file root fpath new identifier keepalive purge writer_cached = do
  gone ← gets (is_gone root fpath)
  raise_if gone file_not_found_error
  if writer_cached then look_up_writer (join_path root fpath) fpath identifier else pure tt
  w ← open_append (join_path root fpath)
  catch
      (write_bytes new w >>= λ written.
        modify (settle_append fpath identifier keepalive purge writer_cached written)
        >> pure (pos (length new)))
      (append_failed fpath identifier)
