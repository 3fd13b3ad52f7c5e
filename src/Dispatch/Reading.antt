-- ===== src/Dispatch/Reading.antt =====
-- A request to read a file, from the client's bytes to the handler of server/file_ops and back.
use custom_file_operation_pr.Prelude.{ℕ, ◌≡◌, refl, ◌∙◌, ap, Bool, true, Option, some, List, Bytes}
use custom_file_operation_pr.Prelude.Ttl.{TtlCache}
use custom_file_operation_pr.Prelude.Action.{Result, ok, err}
use custom_file_operation_pr.Errors.{Exception}
use custom_file_operation_pr.Models.Request.{
  BaseHeaderComponent, BaseAuthComponent, BaseFileComponent,
}
use custom_file_operation_pr.Models.Responses.{
  ServerConfig, ResponseHeader, ResponseBody, from_server, successful_read,
}
use custom_file_operation_pr.Files.Reading.{read_at}
use custom_file_operation_pr.Files.State.{FileServer}
use custom_file_operation_pr.Files.Handlers.{handle_read, position_of}
use custom_file_operation_pr.Files.Served.{Serving, handle_read-Serving}
use custom_file_operation_pr.Dispatch.Outgoing.{SentHeader, sent_header}
use custom_file_operation_pr.Dispatch.Handlers.{
  Call, Registry, ComponentJson, FileSubhandler, top_file_handler,
}
use custom_file_operation_pr.Dispatch.Callback.{
  Dependencies, Connection, respond, settle, serve_round,
}
use custom_file_operation_pr.Dispatch.Framing.{before}
use custom_file_operation_pr.Dispatch.Gate.{Admits}
use custom_file_operation_pr.Dispatch.Exchange.{Framed, sized_for, serve_round-file_body}
use custom_file_operation_pr.Client.Communication.{file_body, sized_header}

abbrev pub ReadBody : Type 0
ReadBody = ResponseBody (Bytes × Bool)

abbrev to_wire :
    Result Exception (ResponseHeader × ReadBody) → Result Exception (SentHeader × Option ReadBody)
to_wire (ok (header, body)) = ok (sent_header header, some body)
to_wire (err e) = err e

-- `handle_read` as a subhandler.
abbrev pub read_subhandler :
    (D : TtlCache (List Bytes))
    → ServerConfig
    → FileSubhandler (Registry D FileServer) (SentHeader × Option ReadBody)
read_subhandler D config header auth file s =
    let (r, services') = handle_read header auth file config s.services in
    (to_wire r, record s { services = services' })

-- An answer that is serializable is sent.
settle-sent :
    {S B : Type 0} (deps : Dependencies S B) (request : BaseHeaderComponent) (c : Connection S)
    (header : SentHeader) (body : B) (call' : Call S)
    → deps.serializes body ≡ true
    → settle deps request c (ok (header, some body), call')
      ≡ respond deps header (some body) (record c { call = call' })
unfolding settle
settle-sent deps request c header body call' h = rw h refl

module _ (D : TtlCache (List Bytes)) (J : ComponentJson) (now : ℕ)
    (deps : Dependencies (Registry D FileServer) ReadBody) (header : BaseHeaderComponent)
    (auth : BaseAuthComponent) (token rest : Bytes) (c : Connection (Registry D FileServer)) where
  -- A request to read a file that does not ask to keep its reader, framed by the client, of a user with
  -- a live session or with none, who may read the file and of whom no cache keeps a reader of it, when
  -- neither the database nor the disk refuses anything and every body with the chunk is serializable,
  -- which takes a chunk that is UTF-8: the server's next round sends a success whose body has the chunk of the file's content and the position after it, leaves
  -- what follows the request in the stream, and finds the same at the next request.
  pub serve_round-Serving :
      (mapping : ℕ → Option (FileSubhandler (Registry D FileServer) (SentHeader × Option ReadBody)))
      (file : BaseFileComponent) (config : ServerConfig) (bytes : Bytes)
      → Framed D J now deps header auth token rest c (file_body file)
      → J.file.model_validate_json (J.file.model_dump_json file) ≡ some file
      → Admits now auth.identity token c.call.registry.user_manager
      → deps.request_handler_mapping header.category
        ≡ some (λ h. top_file_handler J D now h mapping)
      → mapping header.subcategory ≡ some (read_subhandler D config)
      → let sized = sized_for D J now deps header auth token rest c (file_body file) in
        ((body : ReadBody) (ongoing : Bool)
          → body.contents
            ≡ some ((read_at (position_of file.cursor_position) file.chunk_size bytes).0, ongoing)
          → deps.serializes body ≡ true)
        → Serving sized auth file config bytes c.call.registry.services
        → (body : ReadBody) × (ongoing : Bool) × (c' : Connection (Registry D FileServer))
          × (serve_round deps c
              ≡ respond deps
                  (sent_header
                    (from_server config successful_read (some header.version) header.finish))
                  (some body)
                  c')
          × (body.contents
              ≡ some
                  ((read_at (position_of file.cursor_position) file.chunk_size bytes).0, ongoing))
          × (body.cursor_position
              ≡ (read_at (position_of file.cursor_position) file.chunk_size bytes).1)
          × (c'.call.reader.buffer ≡ rest)
          × (c'.written ≡ c.written)
          × Serving sized auth file config bytes c'.call.registry.services
  unfolding settle sized_header
  serve_round-Serving mapping file config bytes framed parses admitted handled found texts serving =
      let sized = sized_for D J now deps header auth token rest c (file_body file) in
      let round =
        serve_round-file_body D J now deps header auth token rest c mapping file
          (read_subhandler D config) framed parses admitted handled found in
      let (answer, _, after) =
        handle_read-Serving sized auth file config bytes c.call.registry.services serving in
      let (body, ongoing, e, contents, _, position) = answer in
      let services' = (handle_read sized auth file config c.call.registry.services).1 in
      let registry' = record (c.call.registry) { services = services' } in
      let c' : Connection (Registry D FileServer) = record c {
        call = record (before c.call rest) { registry = registry' };
      } in
      (
        body,
        ongoing,
        c',
        round
            ∙ ap
                (λ r.
                  settle deps sized c
                    (to_wire r, record (before c.call rest) { registry = registry' }))
                e
            ∙ settle-sent deps sized c
                (sent_header
                  (from_server config successful_read (some header.version) header.finish))
                body (record (before c.call rest) { registry = registry' })
                (texts body ongoing contents),
        contents,
        position,
        refl,
        refl,
        after,
      )
