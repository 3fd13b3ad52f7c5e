-- ===== src/Client/Reading.antt =====
-- `read_remote_file` of client/operations/file_operations.py: a file is read chunk by chunk.
use custom_file_operation_pr.Prelude.{
  ℕ, zero, suc, ◌+◌, ◌-◌, ltb, min, if◌then◌else◌, Bool, Option, none, some, [], ◌++◌, length, Text,
  true, false, not, ◌∷◌,
}
use custom_file_operation_pr.Errors.{Exception, type_error}

-- How the reading ends, with the text that was displayed; a failure is a response that is no success,
-- or whose body lacks the text.
pub data ReadOutcome : Type 0 where
  unfinished : ReadOutcome
  failed received : Text → ReadOutcome
  raised : Exception → ReadOutcome

-- `bytearray.extend` takes no text but the empty one; `display` takes any.
abbrev pub takes : (chunked_display : Bool) → Text → Bool
takes true remote = true
takes false [] = true
takes false (c ∷ remote) = false

-- `serve` is one exchange with the server: a request for a chunk at a position, and the text and
-- `operation_ended` of its response, or `none` for a failure. The client reads JSON, so what it gets
-- for `bytes` is a text, of which it counts the characters.
module _ {S : Type 0} (serve : (position chunk_size : ℕ) → S → Option (Text × Bool) × S)
    (chunked_display : Bool) where
  -- The loop, for a number of rounds. `read_data` is what was received.
  unfoldable pub read_chunks :
      (rounds read_limit position chunk_size bytes_read : ℕ) → Text → S → ReadOutcome × S
  read_chunks zero read_limit position chunk_size bytes_read read_data s =
      (if ltb bytes_read read_limit then unfinished else received read_data, s)
  read_chunks (suc rounds) read_limit position chunk_size bytes_read read_data s =
      let size = min (read_limit - bytes_read) chunk_size in
      let (answer, s') = serve position size s in
      let next : ReadOutcome × S = elim answer [
        | none ↦ (failed read_data, s')
        | some (remote, operation_ended) ↦
            (let kept = read_data ++ remote in
              let more =
                read_chunks rounds read_limit (position + length remote) size
                  (bytes_read + length remote) kept s' in
              if not (takes chunked_display remote)
              then (raised type_error, s')
              else if operation_ended
              then (received kept, s')
              else more)
      ] in
      if ltb bytes_read read_limit then next else (received read_data, s)

  -- `if not read_limit`
  abbrev pub limit_or : (chunk_max_size : ℕ) → Option ℕ → ℕ
  limit_or chunk_max_size none = chunk_max_size
  limit_or chunk_max_size (some zero) = chunk_max_size
  limit_or chunk_max_size (some (suc n)) = suc n

  abbrev pub start_or : Option ℕ → ℕ
  start_or none = 0
  start_or (some n) = n

  unfoldable pub read_remote_file :
      (chunk_max_size rounds : ℕ)
      → (cursor_position : Option ℕ) → (chunk_size : ℕ) → (read_limit : Option ℕ) → S
      → ReadOutcome × S
  unfolding read_chunks
  read_remote_file chunk_max_size rounds cursor_position chunk_size read_limit =
      read_chunks rounds (limit_or chunk_max_size read_limit) (start_or cursor_position) chunk_size
        0 []
