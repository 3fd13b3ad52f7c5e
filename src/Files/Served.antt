-- ===== src/Files/Served.antt =====
-- What `handle_read` answers to a user who may read a file that is there.
use custom_file_operation_pr.Prelude.{
  ◌≡◌, refl, ◌∙◌, ap, Bool, true, false, not, none, ◌&&◌, ◌||◌, some, [], ◌∷◌, Bytes, Bool-cases,
  inl, inr, arith,
}
use custom_file_operation_pr.Prelude.Action.{ok, ◌>>=◌, bind-ok}
use custom_file_operation_pr.Models.Roles.{FilePermissions}
use custom_file_operation_pr.Models.Request.{
  BaseHeaderComponent, BaseAuthComponent, BaseFileComponent,
}
use custom_file_operation_pr.Models.Responses.{
  ServerConfig, ResponseBody, from_server, successful_read,
}
use custom_file_operation_pr.Database.Tables.{Tables, FileRow}
use custom_file_operation_pr.Database.Backend.{moderate, execute, requested, reclaimed}
use custom_file_operation_pr.Database.Queries.{permits, get_file_data, check_file_permission}
use custom_file_operation_pr.Database.Statements.{find, is_file}
use custom_file_operation_pr.Files.Buffers.{FileState, get_buffer, remove_buffer}
use custom_file_operation_pr.Files.Appends.{get_buffer-remove_buffer}
use custom_file_operation_pr.Files.Views.{Readable}
use custom_file_operation_pr.Files.Reading.{read_at, read_file}
use custom_file_operation_pr.Files.Reads.{read_file-chunk, read_file-read_cache}
use custom_file_operation_pr.Files.State.{FileServer, with_proxy}
use custom_file_operation_pr.Files.Handlers.{
  path_of, check_readable, handle_read, position_of, keepalive, read_chunk, answer_read,
  kill_cursor,
}

module _ (header : BaseHeaderComponent) (auth : BaseAuthComponent) (file : BaseFileComponent)
    (config : ServerConfig) where
  -- The tables know the file, and it is public or the user may read it at the time of the request.
  abbrev pub MayRead : Tables → Type 0
  MayRead t =
      (row : FileRow) × (find (is_file file.subject_file_owner file.subject_file) t.files
        ≡ some row)
      × ((row.public
            || permits file.subject_file file.subject_file_owner auth.identity FilePermissions.read
                header.sender_timestamp t)
          ≡ true)

  check_readable-ok :
      (s : FileServer)
      → s.storage.backend.faults ≡ []
      → MayRead s.storage.backend.tables
      → let (r, s') = with_proxy moderate (check_readable header auth file config) s in
        (r ≡ ok tt)
        × (s'.files ≡ s.files)
        × (s'.storage.backend.tables ≡ s.storage.backend.tables)
        × (s'.storage.backend.faults ≡ [])
        × (s'.storage.backend.pool
            ≡ reclaimed moderate ∷ requested moderate ∷ s.storage.backend.pool)
  unfolding check_readable get_file_data check_file_permission execute
  check_readable-ok s calm (row, found, may) = elim (Bool-cases row.public) [
    | inl open_to_all ↦ ground (arith)
    | inr closed ↦ ground (arith)
  ]

  -- The disk has the file, no cache keeps a reader of it for the user, none is to be kept, and the
  -- database refuses nothing.
  abbrev pub Serving : Bytes → FileServer → Type 0
  Serving bytes s =
      (s.storage.backend.faults ≡ [])
      × MayRead s.storage.backend.tables
      × Readable config.files_directory (path_of header auth file config) bytes s.files
      × (get_buffer s.files.read_cache (path_of header auth file config) auth.identity ≡ none)
      × (keepalive header auth file config ≡ false)

  kill_cursor-Readable :
      (bytes : Bytes) (killed : Bool) (s : FileState)
      → Readable config.files_directory (path_of header auth file config) bytes s
      → get_buffer s.read_cache (path_of header auth file config) auth.identity ≡ none
      → let s' = kill_cursor header auth file config killed s in
        Readable config.files_directory (path_of header auth file config) bytes s'
        × (get_buffer s'.read_cache (path_of header auth file config) auth.identity ≡ none)
  unfolding get_buffer remove_buffer
  kill_cursor-Readable bytes false s h absent = (h, absent)
  kill_cursor-Readable bytes true s h absent =
      (h, get_buffer-remove_buffer s.read_cache (path_of header auth file config) auth.identity)

  -- A request to read a file that the user may read, of whom no cache keeps a reader of it, and that
  -- does not ask to keep one, when neither the database nor the disk refuses anything: the body has the chunk of the file's content, the position after it and whether the
  -- file ends there, the response is a success, the connection that was requested is given back, and
  -- the next request finds the same.
  pub handle_read-Serving :
      (bytes : Bytes) (s : FileServer)
      → Serving bytes s
      → let (r, s') = handle_read header auth file config s in
        let (read_data, position, eof_reached) =
          read_at (position_of file.cursor_position) file.chunk_size bytes in
        ((body : ResponseBody (Bytes × Bool)) × (ongoing : Bool) × (r
            ≡ ok (from_server config successful_read (some header.version) header.finish, body))
          × (body.contents ≡ some (read_data, ongoing))
          × (body.operation_ended ≡ eof_reached)
          × (body.cursor_position ≡ position))
        × (s'.storage.backend.pool
            ≡ reclaimed moderate ∷ requested moderate ∷ s.storage.backend.pool)
        × Serving bytes s'
  unfolding handle_read
  handle_read-Serving bytes s (calm, may, readable, absent, unkept) =
      let (r, files, tables, calm', pool) = check_readable-ok s calm may in
      let s1 = (with_proxy moderate (check_readable header auth file config) s).1 in
      let readable1 : Readable config.files_directory (path_of header auth file config) bytes
          s1.files =
        rw files readable in
      let path = path_of header auth file config in
      let absent1 : get_buffer s1.files.read_cache path auth.identity ≡ none = rw files absent in
      let (read, same, still) =
        read_file-chunk config.files_directory (path_of header auth file config) auth.identity
          (position_of file.cursor_position) file.chunk_size (keepalive header auth file config)
          false bytes s1.files readable1 absent1 in
      let result = read_at (position_of file.cursor_position) file.chunk_size bytes in
      let s2 = (read_chunk header auth file config s1).1 in
      let cache : s2.files.read_cache ≡ s1.files.read_cache =
        ap
          (λ k.
            (read_file config.files_directory path auth.identity (position_of file.cursor_position)
              file.chunk_size k false s1.files).1.read_cache)
          unkept
        ∙ read_file-read_cache config.files_directory path auth.identity
            (position_of file.cursor_position) file.chunk_size bytes s1.files readable1 absent1 in
      let absent2 : get_buffer s2.files.read_cache path auth.identity ≡ none =
        ap (λ c. get_buffer c path auth.identity) cache ∙ absent1 in
      let run : handle_read header auth file config s
          ≡ answer_read header auth file config result s2 =
        bind-ok (with_proxy moderate (check_readable header auth file config))
          (λ _. read_chunk header auth file config >>= answer_read header auth file config)
          (ap (λ x. (x, s1)) r)
        ∙ bind-ok (read_chunk header auth file config) (answer_read header auth file config)
            (ap (λ x. (x, s2)) read) in
      let (_, _, eof_reached) = result in
      let killed = eof_reached && not (keepalive header auth file config) in
      let (after, none_kept) = kill_cursor-Readable bytes killed s2.files still absent2 in
      rw run
        ((_, _, refl, refl, refl, refl), pool, (calm', rw tables may, after, none_kept, unkept))
