-- ===== src/Files/Buffers.antt =====
-- The open files that the server keeps (server/file_ops/cache_ops.py). A reader holds
-- what it has read ahead. A writer holds the bytes that it has not passed on yet: it passes them on when they grow
-- past its buffer, when it moves, and when it is closed, which Python also does once nothing refers
-- to it. An entry of a cache that has expired is in it no more; none expires within a call.
use custom_file_operation_pr.Prelude.{
  ℕ, ◌+◌, ◌-◌, ◌%◌, ltb, leb, ◌==◌, ◌&&◌, take, drop, if◌then◌else◌, Bool, true, false, Option,
  none, some, [], ◌∷◌, ◌++◌, length, Text, Bytes,
}
use custom_file_operation_pr.Prelude.Dict.{Dict, lookup, insert, erase}
use custom_file_operation_pr.Files.Disk.{Disk, write_at, change_file}

-- `append` is the mode `+ab`.
pub record Writer : Type 0 where
  pub path : Text
  pub append : Bool
  pub position : ℕ
  pub pending : Bytes

-- The size of the buffer of an open file.
abbrev pub buffer_size : ℕ
buffer_size = 8192

-- An open reader (io.BufferedReader): its position, and of its buffer the bytes before and after it.
pub record FileReader : Type 0 where
  pub position : ℕ
  pub behind : Bytes
  pub ahead : Bytes

-- As `open` returns it.
abbrev pub fresh_reader : FileReader
fresh_reader = record { position = 0; behind = []; ahead = [] }

-- `seek(p)`: within the buffer, nothing is read again.
unfoldable pub seek_reader : ℕ → FileReader → FileReader
seek_reader p r =
    if leb r.position p && leb (p - r.position) (length r.ahead)
    then record {
      position = p;
      behind = r.behind ++ take (p - r.position) r.ahead;
      ahead = drop (p - r.position) r.ahead;
    }
    else if ltb p r.position && leb (r.position - p) (length r.behind)
    then record {
      position = p;
      behind = take (length r.behind - (r.position - p)) r.behind;
      ahead = drop (length r.behind - (r.position - p)) r.behind ++ r.ahead;
    }
    else record { position = p; behind = []; ahead = [] }

-- `read(n)`: what the buffer does not have is read from the file, whole blocks first, and then a
-- buffer of which the rest is taken.
unfoldable pub read_bytes : ℕ → (content : Bytes) → FileReader → Bytes × FileReader
read_bytes n content r =
    let missing = n - length r.ahead in
    let remote = take missing (drop (r.position + length r.ahead) content) in
    let read = r.ahead ++ remote in
    let rest = missing % buffer_size in
    if leb n (length r.ahead)
    then (
      take n r.ahead,
      record {
        position = r.position + n;
        behind = r.behind ++ take n r.ahead;
        ahead = drop n r.ahead;
      },
    )
    else (
      read,
      record {
        position = r.position + length read;
        behind = drop (missing - rest) remote;
        ahead =
            if rest == 0
            then []
            else take (buffer_size - rest) (drop (r.position + length read) content);
      },
    )

abbrev pub pass_on : Writer → Bytes → Bytes
pass_on w old =
    if w.append then old ++ w.pending else write_at (w.position - length w.pending) w.pending old

abbrev pub flush_pending : Bytes → Writer → Disk → Disk
flush_pending [] w d = d
flush_pending (b ∷ bs) w d = change_file w.path (pass_on w) d

-- `close()`
unfoldable pub close_writer : Writer → Disk → Disk
close_writer w d = flush_pending w.pending w d

abbrev pub close_if_any : Option Writer → Disk → Disk
close_if_any none d = d
close_if_any (some w) d = close_writer w d

-- `seek(p)`
unfoldable pub seek : ℕ → Writer → Disk → Writer × Disk
unfolding close_writer
seek p w d = (record w { position = p; pending = [] }, close_writer w d)

-- `write(new)`
unfoldable pub put_bytes : Bytes → Writer → Disk → Writer × Disk
unfolding close_writer
put_bytes new w d =
    let w' = record w { position = w.position + length new; pending = w.pending ++ new } in
    if ltb buffer_size (length w'.pending)
    then (record w' { pending = [] }, close_writer w' d)
    else (w', d)

-- A cache of buffers: for a path, the buffer of each user.
abbrev pub BufferCache : Type 0 → Type 0
BufferCache H = Dict (Dict H)

module _ {H : Type 0} where
  unfoldable pub get_buffer : BufferCache H → (fpath identifier : Text) → Option H
  get_buffer cache fpath identifier = elim (lookup fpath cache) [
    | none ↦ none
    | some buffers ↦ lookup identifier buffers
  ]

  unfoldable pub remove_buffer : BufferCache H → (fpath identifier : Text) → BufferCache H
  remove_buffer cache fpath identifier = elim (lookup fpath cache) [
    | none ↦ cache
    | some buffers ↦ insert fpath (erase identifier buffers) cache
  ]

  -- `cache.setdefault(fpath, {})[identifier] = buffer`
  unfoldable pub set_buffer : BufferCache H → (fpath identifier : Text) → H → BufferCache H
  set_buffer cache fpath identifier h = elim (lookup fpath cache) [
    | none ↦ insert fpath (insert identifier h []) cache
    | some buffers ↦ insert fpath (insert identifier h buffers) cache
  ]

  -- `rename_buffers` on one cache
  unfoldable pub rename_buffers : (old_fpath new_fpath : Text) → BufferCache H → BufferCache H
  rename_buffers old_fpath new_fpath cache = elim (lookup old_fpath cache) [
    | none ↦ insert new_fpath [] (erase old_fpath cache)
    | some buffers ↦ insert new_fpath buffers (erase old_fpath cache)
  ]

-- The closing of each writer that `purge_buffers` takes out of the cache.
unfoldable pub close_all : Dict Writer → Disk → Disk
unfolding close_writer
close_all [] d = d
close_all ((identifier, w) ∷ buffers) d = close_all buffers (close_writer w d)

abbrev pub writers_of : Option (Dict Writer) → Dict Writer
writers_of none = []
writers_of (some buffers) = buffers

-- What the handlers of files share: the disk, and the caches of the server's registry.
pub record FileState : Type 0 where
  pub disk : Disk
  pub deleted_cache : Dict Bool
  pub read_cache : BufferCache FileReader
  pub amendment_cache : BufferCache Writer
  pub file_locks : Dict Text

-- An open writer follows its file when that is moved, and has no path once it is removed.
abbrev pub relocate_writers : (Text → Text) → Dict Writer → Dict Writer
relocate_writers f [] = []
relocate_writers f ((identifier, w) ∷ buffers) =
    (identifier, record w { path = f w.path }) ∷ relocate_writers f buffers

abbrev pub relocate_all : (Text → Text) → BufferCache Writer → BufferCache Writer
relocate_all f [] = []
relocate_all f ((fpath, buffers) ∷ cache) =
    (fpath, relocate_writers f buffers) ∷ relocate_all f cache

abbrev pub relocate : (Text → Text) → FileState → FileState
relocate f s = record s { amendment_cache = relocate_all f s.amendment_cache }

-- `deleted_cache.get(fpath)`
abbrev pub marked_in : Text → Dict Bool → Bool
marked_in fpath cache = elim (lookup fpath cache) [ none ↦ false | some b ↦ b ]

abbrev pub is_marked : Text → FileState → Bool
is_marked fpath s = marked_in fpath s.deleted_cache

abbrev pub set_disk : Disk → FileState → FileState
set_disk d s = record s { disk = d }

-- `remove_buffer(amendment_cache, ...)`; the writer that nothing refers to any more closes.
unfoldable pub drop_writer : (fpath identifier : Text) → FileState → FileState
unfolding get_buffer remove_buffer close_writer
drop_writer fpath identifier s = record s {
  amendment_cache = remove_buffer s.amendment_cache fpath identifier;
  disk = close_if_any (get_buffer s.amendment_cache fpath identifier) s.disk;
}

-- `purge_buffers(fpath, deleted_cache, read_cache, amendment_cache)`
unfoldable pub purge_buffers : Text → FileState → FileState
unfolding close_all
purge_buffers fpath s = record s {
  deleted_cache = insert fpath true s.deleted_cache;
  read_cache = erase fpath s.read_cache;
  amendment_cache = erase fpath s.amendment_cache;
  disk = close_all (writers_of (lookup fpath s.amendment_cache)) s.disk;
}

-- `purge_buffers(fpath, deleted_cache)`, with no cache of buffers
unfoldable pub mark_deleted : Text → FileState → FileState
mark_deleted fpath s = record s { deleted_cache = insert fpath true s.deleted_cache }

-- `rename_buffers(old_fpath, new_fpath, read_cache, amendment_cache)`
abbrev pub move_buffers : (old_fpath new_fpath : Text) → FileState → FileState
move_buffers old_fpath new_fpath s = record s {
  read_cache = rename_buffers old_fpath new_fpath s.read_cache;
  amendment_cache = rename_buffers old_fpath new_fpath s.amendment_cache;
}
