-- ===== src/Tests/Files.antt =====
-- Runs of the file operations: one file of five bytes.
use custom_file_operation_pr.Prelude.{
  ℕ, ◌≡◌, ◌≢◌, refl, Bool, true, false, none, some, [], ◌∷◌, ◌++◌, length, min, Text, Bytes, codes,
  join_path, text_eq, text_eq_iff, if◌then◌else◌, ◌↔◌, arith, ◌+◌, ◌-◌, ◌≤◌,
}
use custom_file_operation_pr.Prelude.Int.{pos}
use custom_file_operation_pr.Prelude.Dict.{Dict, lookup, contains}
use custom_file_operation_pr.Prelude.Action.{ok, err}
use custom_file_operation_pr.Errors.{file_contested}
use custom_file_operation_pr.Models.Request.{BaseAuthComponent, BaseFileComponent}
use custom_file_operation_pr.Files.Disk.{write_at}
use custom_file_operation_pr.Files.Buffers.{FileState, get_buffer}
use custom_file_operation_pr.Files.Locks.{acquire_file_lock}
use custom_file_operation_pr.Files.Calls.{os_call}
use custom_file_operation_pr.Files.Tree.{create_file, delete_file, is_deleted}
use custom_file_operation_pr.Files.State.{FileServer}
use custom_file_operation_pr.Files.Views.{content, Readable, Spares}
use custom_file_operation_pr.Files.Writes.{write_file-Readable}
use custom_file_operation_pr.Files.Appends.{append_file-Readable}
use custom_file_operation_pr.Files.Reads.{read_file-bounds, read_file-write_file}
use custom_file_operation_pr.Files.Removal.{Shut, delete_file-Shut}
use custom_file_operation_pr.Files.Contention.{
  acquire_file_lock_iff, amend_file-contested, comes_free,
}
use custom_file_operation_pr.Files.Served.{Serving, handle_read-Serving}
use custom_file_operation_pr.Files.Permitted.{
  Refused, may_read, may_write, handle_amendment-Refused,
}
use custom_file_operation_pr.Database.Statements.{find}
use custom_file_operation_pr.Files.Calls.{is_gone, os_call}
use custom_file_operation_pr.Files.Writing.{open_writer, amend_with, move_to, write_and_settle}
use custom_file_operation_pr.Files.Buffers.{seek}
use custom_file_operation_pr.Files.Reading.{read_at, read_file}
use custom_file_operation_pr.Files.Writing.{write_file, append_file}
use custom_file_operation_pr.Files.Handlers.{path_of, handle_read}
use custom_file_operation_pr.Files.Amendment.{amend_file, handle_amendment}
use custom_file_operation_pr.Models.Roles.{role_permits, role_permission_mapping}
use custom_file_operation_pr.Models.Responses.{ResponseBody, from_server, successful_read}
use custom_file_operation_pr.Database.Backend.{moderate, requested, reclaimed}
use custom_file_operation_pr.Tests.Fixtures.{
  alice, bob, notes, file_row, header, by_alice, config, backend,
}

abbrev pub root : Text
root = codes "files"

abbrev pub path : Text
path = codes "alice/notes"

abbrev pub files : FileState
files = record {
  disk = record {
    files = (codes "files/alice/notes", codes "hello") ∷ [];
    directories = [];
    refusals = [];
  };
  deleted_cache = [];
  read_cache = [];
  amendment_cache = [];
  file_locks = (path, alice) ∷ [];
}

abbrev pub server : FileServer
server = record {
  storage = record { entries = []; flush_batch_size = 2; backend = backend };
  files = files;
}

abbrev by_bob : BaseAuthComponent
by_bob = record by_alice { identity = bob }

abbrev pub file : BaseFileComponent
file = record {
  subject_file = notes;
  subject_file_owner = alice;
  cursor_position = some 1;
  chunk_size = 3;
  write_data = some (codes "!!");
  cursor_bitfield = 0;
  end_operation = true;
}

pub files-Readable : Readable root path (codes "hello") files
unfolding lookup join_path text_eq
files-Readable = (refl, refl, refl)

pub nobody_writes : get_buffer files.amendment_cache path alice ≡ none
unfolding get_buffer lookup
nobody_writes = refl

write_file-Readable_example :
    let (r, s') = write_file root path (codes "!!") alice 4 false false true files in
    (r ≡ ok 6)
    × Readable root path (write_at 4 (codes "!!") (codes "hello")) s'
    × Spares (join_path root path) files s'
write_file-Readable_example =
    write_file-Readable root path (codes "!!") (codes "hello") alice 4 false false true files
      files-Readable nobody_writes refl refl

append_file-Readable_example :
    let (r, s') = append_file root path (codes "!!") alice false true false files in
    (r ≡ ok (pos 2))
    × Readable root path (codes "hello" ++ codes "!!") s'
    × Spares (join_path root path) files s'
    × (get_buffer s'.amendment_cache path alice ≡ none)
append_file-Readable_example =
    append_file-Readable root path (codes "!!") (codes "hello") alice true files files-Readable
      nobody_writes refl

nobody_reads : get_buffer files.read_cache path bob ≡ none
unfolding get_buffer lookup
nobody_reads = refl

nobody_reads_after :
    get_buffer
      (write_file root path (codes "!!") alice 4 true false true files).1.read_cache
      path
      bob
    ≡ none
unfolding write_file get_buffer lookup is_gone text_eq join_path open_writer os_call amend_with
    move_to write_and_settle seek
nobody_reads_after = refl

read_file-write_file_example :
    let s' = (write_file root path (codes "!!") alice 4 true false true files).1 in
    (eof_reached : Bool) × ((read_file root path bob 4 2 false false s').0
      ≡ ok (codes "!!", 6, eof_reached))
read_file-write_file_example =
    read_file-write_file root path (codes "!!") (codes "hello") alice bob 4 true false true false
      false files files-Readable nobody_writes refl refl nobody_reads_after

read_file-bounds_example :
    (read_data : Bytes) × (position' : ℕ) × (eof_reached : Bool) × ((read_file root path bob 3 9
        true false files).0
      ≡ ok (read_data, position', eof_reached))
    × (length read_data ≡ min 9 (length (codes "hello") - 3))
    × (position' ≡ 3 + length read_data)
    × ((eof_reached ≡ true) ↔ (length (codes "hello") ≤ position'))
read_file-bounds_example =
    read_file-bounds root path bob 3 9 true false (codes "hello") files files-Readable nobody_reads

-- The lock is another's at first, and is freed after one round.
abbrev freed : ℕ → Dict Text → Dict Text
freed i locks = []

acquire_file_lock_iff_example :
    let (answer, locks') = acquire_file_lock 2 path bob freed files.file_locks in
    (answer ≡ (if comes_free 2 path bob freed files.file_locks then some true else none))
    × (answer ≡ some true → lookup path locks' ≡ some bob)
acquire_file_lock_iff_example = acquire_file_lock_iff 2 path bob freed files.file_locks

comes_free_run : comes_free 2 path bob freed files.file_locks ≡ true
unfolding comes_free lookup text_eq
comes_free_run = refl

abbrev held : ℕ → Dict Text → Dict Text
held i locks = locks

alice_is_not_bob : alice ≢ bob
alice_is_not_bob = λ e. absurd (ground (arith, (text_eq_iff alice bob).1 e))

never_free : comes_free 3 (path_of header by_bob file config) bob held files.file_locks ≡ false
unfolding comes_free lookup text_eq join_path
never_free = refl

amend_file-contested_example :
    let (r, s') = amend_file header by_bob file config 3 held (codes "!!") (pos 5) server in
    (r ≡ err file_contested)
    × (s'.files.disk ≡ server.files.disk)
    × (s'.files.amendment_cache ≡ server.files.amendment_cache)
    × (s'.storage ≡ server.storage)
amend_file-contested_example =
    amend_file-contested header by_bob file config 3 held (codes "!!") (pos 5) server
      alice_is_not_bob (omega arith) never_free

delete_file_run : (delete_file root path true files).0 ≡ ok true
unfolding delete_file is_deleted os_call contains lookup join_path text_eq
delete_file_run = refl

abbrev same : Text → Text
same name = name

delete_file-Shut_example :
    let s' = (delete_file root path true files).1 in
    (content s' (join_path root path) ≡ none)
    × ((identifier : Text) → get_buffer s'.read_cache path identifier ≡ none)
    × ((identifier : Text) → get_buffer s'.amendment_cache path identifier ≡ none)
    × Shut root path s'
    × Shut root path (create_file same root alice notes s').1
delete_file-Shut_example = delete_file-Shut root path same alice notes files delete_file_run

bob_may_not_read : may_read header by_bob file config server.storage.backend.tables ≡ false
unfolding find text_eq
bob_may_not_read = refl

bob_may_not_write : may_write header by_bob file config server.storage.backend.tables ≡ false
unfolding text_eq
bob_may_not_write = refl

handle_amendment-Refused_example :
    Refused (handle_amendment header by_bob file config 3 held) server
handle_amendment-Refused_example =
    handle_amendment-Refused header by_bob file config 3 held server bob_may_not_write

pub server-Serving : Serving header by_alice file config (codes "hello") server
unfolding find text_eq lookup join_path role_permits role_permission_mapping get_buffer
server-Serving = (refl, (file_row, refl, refl), (refl, refl, refl), refl, refl)

handle_read-Serving_example :
    let (r, s') = handle_read header by_alice file config server in
    let (read_data, position, eof_reached) = read_at 1 3 (codes "hello") in
    ((body : ResponseBody (Bytes × Bool)) × (ongoing : Bool) × (r
        ≡ ok (from_server config successful_read (some header.version) false, body))
      × (body.contents ≡ some (read_data, ongoing))
      × (body.operation_ended ≡ eof_reached)
      × (body.cursor_position ≡ position))
    × (s'.storage.backend.pool ≡ reclaimed moderate ∷ requested moderate ∷ [])
    × Serving header by_alice file config (codes "hello") s'
handle_read-Serving_example =
    handle_read-Serving header by_alice file config (codes "hello") server server-Serving
