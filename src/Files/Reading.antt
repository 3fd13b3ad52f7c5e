-- ===== src/Files/Reading.antt =====
-- `read_file` of server/file_ops/base_operations.py.
use custom_file_operation_pr.Prelude.{
  ℕ, ◌+◌, ltb, if◌then◌else◌, Bool, not, ◌||◌, none, some, [], Option, true, false, ◌-◌, ◌∷◌,
  length, take, drop, Text, Bytes, join_path, is_some,
}
use custom_file_operation_pr.Prelude.Dict.{lookup}
use custom_file_operation_pr.Prelude.Action.{◌>>=◌, ◌>>◌, pure, gets, modify, raise_if}
use custom_file_operation_pr.Errors.{file_not_found_error}
use custom_file_operation_pr.Files.Buffers.{
  get_buffer, remove_buffer, set_buffer, FileState, FileReader, fresh_reader, seek_reader,
  read_bytes,
}
use custom_file_operation_pr.Files.Calls.{FileOp, os_call, is_gone}

abbrev pub content_of : Text → FileState → Bytes
content_of path s = elim (lookup path s.disk.files) [ none ↦ [] | some content ↦ content ]

-- The bytes, the position after them, and whether the end of the file is reached.
abbrev pub ReadResult : Type 0
ReadResult = Bytes × ℕ × Bool

-- What follows the `read(1)`.
abbrev pub go_back : Bytes → FileReader → Bool × FileReader
go_back [] r = (false, r)
go_back (b ∷ bs) r = (true, seek_reader (r.position - 1) r)

-- One more byte is read, and the reader goes back: whether there was one.
unfoldable pub preemptive_eof_check : (content : Bytes) → FileReader → Bool × FileReader
unfolding seek_reader read_bytes
preemptive_eof_check content r = let (more, r') = read_bytes 1 content r in go_back more r'

-- The seek, the read and the check of the end, on an open reader.
unfoldable pub read_through :
    (position nbytes : ℕ) → (content : Bytes) → FileReader → ReadResult × FileReader
unfolding preemptive_eof_check
read_through position nbytes content reader =
    let (read_data, reader') = read_bytes nbytes content (seek_reader position reader) in
    let (more, reader'') = preemptive_eof_check content reader' in
    ((read_data, reader''.position, not more), reader'')

-- What a reader without a buffer makes of a content: the chunk at the position, the position after
-- it, and whether no byte stands there.
abbrev pub read_at : (position nbytes : ℕ) → Bytes → ReadResult
read_at position nbytes content =
    let read_data = take nbytes (drop position content) in
    let position' = position + length read_data in
    (read_data, position', not (ltb position' (length content)))

abbrev pub reader_or : Option FileReader → FileReader
reader_or none = fresh_reader
reader_or (some reader) = reader

-- What becomes of the reader.
abbrev pub settle_reader :
    (fpath identifier : Text) → (keepalive purge cached : Bool) → FileReader → FileState → FileState
settle_reader fpath identifier keepalive purge cached reader s =
    if purge
    then (record s { read_cache = remove_buffer s.read_cache fpath identifier })
    else if keepalive || cached
    then (record s { read_cache = set_buffer s.read_cache fpath identifier reader })
    else s

abbrev pub open_reader : (cached : Bool) → FileOp (Unit {0})
open_reader cached = if cached then pure tt else os_call

unfoldable pub read_with :
    (path fpath identifier : Text)
    → (cursor_position nbytes : ℕ) → (keepalive purge : Bool) → Option FileReader
    → FileOp ReadResult
unfolding read_through
read_with path fpath identifier cursor_position nbytes keepalive purge cached = do
  content ← gets (content_of path)
  let result = read_through cursor_position nbytes content (reader_or cached)
  modify (settle_reader fpath identifier keepalive purge (is_some cached) result.1)
  pure result.0

unfoldable pub read_file :
    (root fpath identifier : Text)
    → (cursor_position nbytes : ℕ) → (keepalive purge : Bool) → FileOp ReadResult
read_file root fpath identifier cursor_position nbytes keepalive purge = do
  gone ← gets (is_gone root fpath)
  raise_if gone file_not_found_error
  reader ← gets (λ s. get_buffer s.read_cache fpath identifier)
  open_reader (is_some reader)
  read_with (join_path root fpath) fpath identifier cursor_position nbytes keepalive purge reader
