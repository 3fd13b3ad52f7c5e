-- ===== src/Client/Answers.antt =====
-- What the client reads of a response that the server framed.
use custom_file_operation_pr.Prelude.{
  ℕ, ◌≤◌, ◌≡◌, ◌≢◌, refl, ◌∙◌, ap, if◌then◌else◌, true, false, Option, none, some, [], ◌++◌, length,
  drop, Bytes, arith,
}
use custom_file_operation_pr.Prelude.Action.{ok}
use custom_file_operation_pr.Files.Contents.{append_assoc, drop-append}
use custom_file_operation_pr.Streams.Padding.{Json, pad, length-pad}
use custom_file_operation_pr.Streams.Reads.{read_exactly-append}
use custom_file_operation_pr.Dispatch.Outgoing.{SentHeader, bytesize, send_response}
use custom_file_operation_pr.Dispatch.Callback.{
  Dependencies, Connection, respond, sized_response, body_stream,
}
use custom_file_operation_pr.Client.Communication.{
  Streams, parse_response, read_response, process_response,
}

abbrev pub receiving : Streams → Bytes → Streams
receiving s buffer = record s { reader = record (s.reader) { buffer = buffer } }

read_response-append :
    {A : Type 0} (json : Json A) (n : ℕ) (raw rest : Bytes) (s : Streams) {a : A}
    → length raw ≡ n
    → json.model_validate_json raw ≡ some a
    → read_response json n (receiving s (raw ++ rest)) ≡ (ok a, receiving s rest)
unfolding read_response parse_response
read_response-append json n raw rest s fits valid =
    let e = read_exactly-append n raw rest s.reader.eof fits in rw (e, parse_response, valid) refl

-- A body that the client can tell from none, and parse.
abbrev pub Parses : {B : Type 0} → Json B → (B → Bytes) → SentHeader → Option B → Type 0
Parses body_json dump header none = header.body_size ≡ 0
Parses body_json dump header (some body) =
    (length (dump body) ≢ 0) × (body_json.model_validate_json (dump body) ≡ some body)

-- The client's connection once it has read a response and all that it read is gone.
abbrev pub received : Streams → SentHeader → Bytes → Streams
received s header rest = record (receiving s rest) {
  closed = if header.ended_connection then true else s.closed;
}

abbrev locked : Streams → Streams
locked s = record s { read_lock = true }

module _ {B : Type 0} (sent_json : Json SentHeader) (body_json : Json B) where
  -- `process_response` of a padded header and the stream of a body.
  process_response-none :
      (sized : SentHeader) (rest : Bytes) (s : Streams)
      → length (sent_json.model_dump_json sized) ≤ bytesize
      → sent_json.model_validate_json (pad bytesize (sent_json.model_dump_json sized)) ≡ some sized
      → sized.body_size ≡ 0
      → s.read_lock ≡ false
      → process_response sent_json body_json
          (receiving s (pad bytesize (sent_json.model_dump_json sized) ++ rest))
        ≡ (ok (sized, none), received s sized rest)
  unfolding process_response
  process_response-none sized rest s fits valid empty free =
      let raw = pad bytesize (sent_json.model_dump_json sized) in
      let size : length raw ≡ bytesize =
        omega (arith, fits, length-pad bytesize (sent_json.model_dump_json sized)) in
      let read = read_response-append sent_json bytesize raw rest (locked s) size valid in
      ground (arith, free, read, empty)

  process_response-some :
      (sized : SentHeader) (body : B) (stream rest : Bytes) (s : Streams)
      → length (sent_json.model_dump_json sized) ≤ bytesize
      → sent_json.model_validate_json (pad bytesize (sent_json.model_dump_json sized)) ≡ some sized
      → length stream ≡ sized.body_size
      → sized.body_size ≢ 0
      → body_json.model_validate_json stream ≡ some body
      → s.read_lock ≡ false
      → process_response sent_json body_json
          (receiving s (pad bytesize (sent_json.model_dump_json sized) ++ (stream ++ rest)))
        ≡ (ok (sized, some body), received s sized rest)
  unfolding process_response
  process_response-some sized body stream rest s fits valid counts some_bytes parses free =
      let raw = pad bytesize (sent_json.model_dump_json sized) in
      let size : length raw ≡ bytesize =
        omega (arith, fits, length-pad bytesize (sent_json.model_dump_json sized)) in
      let read =
        read_response-append sent_json bytesize raw (stream ++ rest) (locked s) size valid in
      let read_stream =
        read_response-append body_json sized.body_size stream rest (locked s) counts parses in
      ground (arith, free, read, some_bytes, read_stream)

module _ {S B : Type 0} (deps : Dependencies S B) (body_json : Json B) where
  abbrev pub framed : SentHeader → Option B → Bytes
  framed header body =
      send_response (deps.sent_json.model_dump_json (sized_response deps header body))
        (body_stream deps body)

  process_response-framed :
      (header : SentHeader) (body : Option B) (rest : Bytes) (s : Streams)
      → let sized = sized_response deps header body in
        length (deps.sent_json.model_dump_json sized) ≤ bytesize
        → deps.sent_json.model_validate_json (pad bytesize (deps.sent_json.model_dump_json sized))
          ≡ some sized
        → Parses body_json deps.dump_body header body
        → s.read_lock ≡ false
        → process_response deps.sent_json body_json (receiving s (framed header body ++ rest))
          ≡ (ok (sized, body), received s header rest)
  unfolding send_response sized_response body_stream
  process_response-framed header none rest s fits valid empty free =
      let raw = pad bytesize (deps.sent_json.model_dump_json header) in
      ap (λ b. process_response deps.sent_json body_json (receiving s b)) (append_assoc raw [] rest)
      ∙ process_response-none deps.sent_json body_json header rest s fits valid empty free
  process_response-framed header (some body) rest s fits valid (some_bytes, parses) free =
      let sized = sized_response deps header (some body) in
      let raw = pad bytesize (deps.sent_json.model_dump_json sized) in
      ap (λ b. process_response deps.sent_json body_json (receiving s b))
        (append_assoc raw (deps.dump_body body) rest)
      ∙ process_response-some deps.sent_json body_json sized body (deps.dump_body body) rest s fits
          valid refl some_bytes parses free

  -- The client reads the response that the server framed: the handler's header, with the size of
  -- the body, and the body; it reads just its bytes, gives its lock back, and closes the connection
  -- if the header says so.
  pub process_response-respond :
      (header : SentHeader) (body : Option B) (c : Connection S) (rest : Bytes) (s : Streams)
      → let sized = sized_response deps header body in
        length (deps.sent_json.model_dump_json sized) ≤ bytesize
        → deps.sent_json.model_validate_json (pad bytesize (deps.sent_json.model_dump_json sized))
          ≡ some sized
        → Parses body_json deps.dump_body header body
        → s.read_lock ≡ false
        → process_response deps.sent_json body_json
            (receiving s (drop (length c.written) (respond deps header body c).1.written ++ rest))
          ≡ (ok (sized, body), received s header rest)
  unfolding respond
  process_response-respond header body c rest s fits valid parses free =
      let written : (respond deps header body c).1.written ≡ c.written ++ framed header body =
        ground arith in
      let new =
        ap (drop (length c.written)) written
        ∙ drop-append (length c.written) c.written (framed header body) refl in
      ap (λ b. process_response deps.sent_json body_json (receiving s (b ++ rest))) new
      ∙ process_response-framed header body rest s fits valid parses free
