-- ===== src/Client/Remote.antt =====
-- A client that reads a file from the server's handler.
use custom_file_operation_pr.Prelude.{
  ℕ, zero, suc, min, ◌-◌, ◌≤◌, ◌<◌, ◌≡◌, ◌∙◌, ap, Bool, true, false, Text, All, ◌∷◌, Option, none,
  some, [], take, drop, Bytes, arith,
}
use custom_file_operation_pr.Prelude.Action.{Result, ok, err}
use custom_file_operation_pr.Models.Request.{
  BaseHeaderComponent, BaseAuthComponent, BaseFileComponent,
}
use custom_file_operation_pr.Models.Responses.{
  ServerConfig, from_server, successful_read, ResponseHeader, ResponseBody,
}
use custom_file_operation_pr.Errors.{Exception, type_error}
use custom_file_operation_pr.Files.Reading.{read_at}
use custom_file_operation_pr.Files.State.{FileServer}
use custom_file_operation_pr.Files.Handlers.{handle_read}
use custom_file_operation_pr.Files.Served.{Serving, handle_read-Serving}
use custom_file_operation_pr.Client.Reading.{received, raised, read_remote_file, limit_or, start_or}
use custom_file_operation_pr.Client.Complete.{read_chunks-Complete}

All-take : (n : ℕ) (xs : Bytes) → All (λ c. c < 128) xs → All (λ c. c < 128) (take n xs)
All-take zero xs h = tt
All-take (suc n) [] h = tt
All-take (suc n) (x ∷ xs) (small, h) = (small, All-take n xs h)

All-drop : (n : ℕ) (xs : Bytes) → All (λ c. c < 128) xs → All (λ c. c < 128) (drop n xs)
All-drop zero xs h = h
All-drop (suc n) [] h = tt
All-drop (suc n) (x ∷ xs) (small, h) = All-drop n xs h

-- `decode` is what the bytes become on their way through JSON, the UTF-8 text that they are; without
-- it, the server cannot serialize its answer and sends an error.
module _ (decode : Bytes → Option Text) where
  -- What the client takes from a response: the text and `operation_ended`.
  abbrev pub taken :
      Result Exception (ResponseHeader × ResponseBody (Bytes × Bool)) → Option (Text × Bool)
  taken (err e) = none
  taken (ok (header, body)) = elim body.contents [
    | none ↦ none
    | some (remote, ongoing) ↦ elim (decode remote) [
      | none ↦ none
      | some text ↦ some (text, body.operation_ended)
    ]
  ]

  taken-body :
      (header : ResponseHeader) (body : ResponseBody (Bytes × Bool)) {remote : Bytes} {text : Text}
      {ongoing operation_ended : Bool}
      → body.contents ≡ some (remote, ongoing)
      → body.operation_ended ≡ operation_ended
      → decode remote ≡ some text
      → taken (ok (header, body)) ≡ some (text, operation_ended)
  taken-body header body h e d = ground (arith, h, e, d)

  module _ (header : BaseHeaderComponent) (auth : BaseAuthComponent) (file : BaseFileComponent)
      (config : ServerConfig) where
    -- One request of the loop, and its response.
    abbrev pub exchange : (position chunk_size : ℕ) → FileServer → Option (Text × Bool) × FileServer
    exchange position chunk_size s =
        let request = record file { cursor_position = some position; chunk_size = chunk_size } in
        let (r, s') = handle_read header auth request config s in (taken r, s')

    module _ (ascii : (b : Bytes) → All (λ c. c < 128) b → decode b ≡ some b) (bytes : Bytes)
        (plain : All (λ c. c < 128) bytes) where
      exchange-Serving :
          (position n : ℕ) (s : FileServer)
          → Serving header auth file config bytes s
          → ((exchange position n s).0
              ≡ some ((read_at position n bytes).0, (read_at position n bytes).2))
            × Serving header auth file config bytes (exchange position n s).1
      exchange-Serving position n s h =
          let request = record file { cursor_position = some position; chunk_size = n } in
          let ((body, ongoing, r, contents, ended, _), _, still) =
            handle_read-Serving header auth request config bytes s h in
          let text =
            ascii (take n (drop position bytes))
              (All-take n (drop position bytes) (All-drop position bytes plain)) in
          (
            ap taken r
                ∙ taken-body
                    (from_server config successful_read (some header.version) header.finish) body
                    contents ended text,
            still,
          )

      -- A client that reads, chunk by chunk and displaying each, a file of ASCII characters that its
      -- user may read and of which no cache keeps a reader for the user nor is asked to, from a
      -- server on which nothing is refused, stops after at most one round for each character that
      -- it wants, and has displayed just the characters of the file from its start position on, up
      -- to its limit: the rounds given are as many as the limit, and a chunk has at least one byte.
      pub read_remote_file-Complete :
          (chunk_max_size rounds : ℕ) (cursor_position : Option ℕ) (chunk_size : ℕ)
          (read_limit : Option ℕ) (s : FileServer)
          → limit_or exchange true chunk_max_size read_limit ≤ rounds
          → 1 ≤ chunk_size
          → Serving header auth file config bytes s
          → (read_remote_file exchange true chunk_max_size rounds cursor_position chunk_size
              read_limit s).0
            ≡ received (
                take
                  (limit_or exchange true chunk_max_size read_limit)
                  (drop (start_or exchange true cursor_position) bytes))
      unfolding read_remote_file
      read_remote_file-Complete chunk_max_size rounds cursor_position chunk_size read_limit s enough
            positive h =
          let limit = limit_or exchange true chunk_max_size read_limit in
          let start = start_or exchange true cursor_position in
          let whole : limit - 0 ≡ limit = omega arith in
          read_chunks-Complete exchange bytes (Serving header auth file config bytes)
            exchange-Serving rounds limit start chunk_size 0 [] s (omega arith) positive h
          ∙ ap (λ k. received (take k (drop start bytes))) whole

-- A client that does not display the chunks but gathers them: the first text that is not empty ends
-- the reading with a TypeError.
read_remote_file-raises :
    {S : Type 0} (serve : (position chunk_size : ℕ) → S → Option (Text × Bool) × S)
    (chunk_max_size rounds start chunk_size limit c : ℕ) (remote : Text) (ended : Bool) (s : S)
    → (serve start (min (suc limit) chunk_size) s).0 ≡ some (c ∷ remote, ended)
    → (read_remote_file serve false chunk_max_size
        (suc rounds)
        (some start)
        chunk_size
        (some (suc limit))
        s).0
      ≡ raised type_error
unfolding read_remote_file
read_remote_file-raises serve chunk_max_size rounds start chunk_size limit c remote ended s h =
    ground (arith, h)
