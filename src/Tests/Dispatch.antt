-- ===== src/Tests/Dispatch.antt =====
-- Requests on a connection: one to read a file, framed by the client, and one on permissions.
use custom_file_operation_pr.Prelude.{
  ℕ, ◌<◌, ◌≡◌, refl, inr, ◌⊎◌, if◌then◌else◌, ◌==◌, Bool, true, false, Option, none, some, [], ◌∷◌,
  ◌++◌, length, Bytes, codes, text_eq, arith,
}
use custom_file_operation_pr.Prelude.Dict.{lookup}
use custom_file_operation_pr.Prelude.Action.{Action, err}
use custom_file_operation_pr.Errors.{Exception, unsupported_operation}
use custom_file_operation_pr.Models.Request.{BaseHeaderComponent, auth_logical_check}
use custom_file_operation_pr.Models.Responses.{from_server, successful_read}
use custom_file_operation_pr.Models.Roles.{role_permits, role_permission_mapping}
use custom_file_operation_pr.Database.Statements.{find}
use custom_file_operation_pr.Files.State.{FileServer}
use custom_file_operation_pr.Files.Served.{Serving}
use custom_file_operation_pr.Files.Buffers.{get_buffer}
use custom_file_operation_pr.Files.Reading.{read_at}
use custom_file_operation_pr.Prelude.{join_path}
use custom_file_operation_pr.Streams.Reader.{at_eof}
use custom_file_operation_pr.Streams.Padding.{Json, pad, spaces}
use custom_file_operation_pr.Dispatch.Outgoing.{SentHeader, sent_header}
use custom_file_operation_pr.Dispatch.Handlers.{
  Registry, ComponentJson, on_registry, top_file_handler,
}
use custom_file_operation_pr.Dispatch.Routing.{
  Subhandlers, partialised_mapping, file_subhandler_mapping,
}
use custom_file_operation_pr.Dispatch.Callback.{
  Dependencies, Connection, respond, serve_round, settle, callback,
}
use custom_file_operation_pr.Dispatch.Framing.{before}
use custom_file_operation_pr.Dispatch.Gate.{Admits}
use custom_file_operation_pr.Dispatch.Passing.{Admitted, Refuses, top_file_handler-Admitted}
use custom_file_operation_pr.Dispatch.Closed.{callback_stops}
use custom_file_operation_pr.Dispatch.Serving.{Sent}
use custom_file_operation_pr.Dispatch.Exchange.{Framed, sized_for, serve_round-file_body}
use custom_file_operation_pr.Dispatch.Reading.{ReadBody, read_subhandler, serve_round-Serving}
use custom_file_operation_pr.Client.Communication.{
  file_body, request_bytes, sized_header, dump_auth, dump_body,
}
use custom_file_operation_pr.Tests.Fixtures.{
  by_alice, for_bob, config, manager, plain_cache, session, alice, file_row,
}
use custom_file_operation_pr.Tests.Files.{file, server}

abbrev starts : ℕ → Bytes → Bool
starts b [] = false
starts b (c ∷ bs) = b == c

-- A format that knows one component, by its first byte.
abbrev tagged : {A : Type 0} → ℕ → A → Json A
tagged b a = record {
  model_dump_json = λ _. b ∷ [];
  model_validate_json = λ bs. if starts b bs then some a else none;
}

-- A `READ` request, with the sizes of its components in that format.
abbrev pub read_header : BaseHeaderComponent
read_header = record {
  version = codes "1.0";
  auth_size = 1;
  body_size = 1;
  sender_timestamp = 10;
  finish = false;
  category = 4;
  subcategory = 2;
}

abbrev json : ComponentJson
json = record {
  header = tagged b'h' read_header;
  auth = tagged b'a' by_alice;
  permission = tagged b'p' for_bob;
  file = tagged b'f' file;
  info = tagged b'i' (record { subject_resource = none });
}

abbrev ServerRegistry : Type 0
ServerRegistry = Registry plain_cache FileServer

abbrev refuse : Action Exception ServerRegistry (SentHeader × Option ReadBody)
refuse s = (err unsupported_operation, s)

abbrev subs : Subhandlers ServerRegistry (SentHeader × Option ReadBody)
subs = record {
  auth = record {
    handle_registration = λ _ _. refuse;
    handle_login = λ _ _. refuse;
    handle_session_refresh = λ _ _. refuse;
    handle_session_termination = λ _ _. refuse;
    handle_password_change = λ _ _. refuse;
    handle_deletion = λ _ _. refuse;
  };
  info = record {
    handle_heartbeat = λ _ _ _. refuse;
    handle_permission_query = λ _ _ _. refuse;
    handle_filedata_query = λ _ _ _. refuse;
    handle_storage_query = λ _ _ _. refuse;
    handle_ssl_query = λ _ _ _. refuse;
  };
  permission = record {
    grant_permission = λ _ _ _. refuse;
    revoke_permission = λ _ _ _. refuse;
    hide_file = λ _ _ _. refuse;
    publicise_file = λ _ _ _. refuse;
    transfer_ownership = λ _ _ _. refuse;
  };
  file = record {
    handle_creation = λ _ _ _. refuse;
    handle_amendment = λ _ _ _. refuse;
    handle_read = read_subhandler plain_cache config;
    handle_deletion = λ _ _ _. refuse;
  };
}

abbrev deps : Dependencies ServerRegistry ReadBody
deps = record {
  header_json = json.header;
  sent_json = record { model_dump_json = λ _. codes "s"; model_validate_json = λ _. none };
  dump_body = λ _. codes "b";
  serializes = λ _. true;
  log = λ s. s;
  version = codes "1.0";
  request_handler_mapping = partialised_mapping json plain_cache 50 (λ _. true) subs;
}

abbrev connection : Connection ServerRegistry
connection = record {
  call = record {
    reader = record {
      buffer = request_bytes json read_header (codes "a") (codes "f") ++ codes "next";
      eof = true;
    };
    registry = record { user_manager = manager; services = server };
  };
  written = [];
  closed = false;
}

alice_is_admitted : Admits 50 alice (codes "t") manager
unfolding lookup text_eq
alice_is_admitted = inr (session, refl, omega arith, refl)

alice_asks :
    Sent json
      (sized_for plain_cache json 50 deps read_header by_alice
        (codes "t")
        (codes "next")
        connection
        (file_body file))
      (dump_auth json (some by_alice))
      (dump_body json (some (file_body file)))
      by_alice
      (codes "t")
unfolding sized_header dump_auth dump_body auth_logical_check
alice_asks = record {
  auth_size = refl;
  body_size = refl;
  both = refl;
  auth_valid = refl;
  complete = refl;
  given = refl;
}

alice_is_heard :
    Framed plain_cache json 50 deps read_header by_alice
      (codes "t")
      (codes "next")
      connection
      (file_body file)
unfolding sized_header dump_auth dump_body pad
alice_is_heard = record { fits = omega arith; valid = refl; sent = alice_asks; buffer = refl }

files_are_handled :
    deps.request_handler_mapping 4
    ≡ some (λ h. top_file_handler json plain_cache 50 h (file_subhandler_mapping subs.file))
unfolding partialised_mapping
files_are_handled = refl

reads_are_handled : file_subhandler_mapping subs.file 2 ≡ some (read_subhandler plain_cache config)
unfolding file_subhandler_mapping
reads_are_handled = refl

server-Serving_sized :
    Serving
      (sized_for plain_cache json 50 deps read_header by_alice
        (codes "t")
        (codes "next")
        connection
        (file_body file))
      by_alice
      file
      config
      (codes "hello")
      server
unfolding find text_eq lookup join_path role_permits role_permission_mapping get_buffer sized_header
    dump_auth dump_body
server-Serving_sized = (refl, (file_row, refl, refl), (refl, refl, refl), refl, refl)

few_bytes : length connection.call.reader.buffer < 300
unfolding request_bytes sized_header pad spaces
few_bytes = omega arith

callback_stops_example :
    (c' : Connection ServerRegistry) × (callback deps 300 connection ≡ some c')
    × ((c'.closed ≡ true) ⊎ (at_eof c'.call.reader ≡ true))
callback_stops_example =
    callback_stops json plain_cache 50 (λ _. true) subs deps connection 300 refl few_bytes

top_file_handler-Admitted_example :
    Admitted json plain_cache 50 read_header (before connection.call (codes "af"))
    ⊎ Refuses
        (top_file_handler json plain_cache 50 read_header (file_subhandler_mapping subs.file))
        (before connection.call (codes "af"))
top_file_handler-Admitted_example =
    top_file_handler-Admitted json plain_cache 50 read_header (before connection.call (codes "af"))
      (file_subhandler_mapping subs.file)

serve_round-file_body_example :
    let sized =
      sized_for plain_cache json 50 deps read_header by_alice
        (codes "t")
        (codes "next")
        connection
        (file_body file) in
    serve_round deps connection
    ≡ settle deps sized connection (
        on_registry
          (read_subhandler plain_cache config sized by_alice file)
          (before connection.call (codes "next")))
serve_round-file_body_example =
    serve_round-file_body plain_cache json 50 deps read_header by_alice (codes "t") (codes "next")
      connection (file_subhandler_mapping subs.file) file (read_subhandler plain_cache config)
      alice_is_heard refl alice_is_admitted files_are_handled reads_are_handled

serve_round-Serving_example :
    let sized =
      sized_for plain_cache json 50 deps read_header by_alice
        (codes "t")
        (codes "next")
        connection
        (file_body file) in
    (body : ReadBody) × (ongoing : Bool) × (c' : Connection ServerRegistry) × (serve_round deps
        connection
      ≡ respond deps
          (sent_header (from_server config successful_read (some (codes "1.0")) false))
          (some body)
          c')
    × (body.contents ≡ some ((read_at 1 3 (codes "hello")).0, ongoing))
    × (body.cursor_position ≡ (read_at 1 3 (codes "hello")).1)
    × (c'.call.reader.buffer ≡ codes "next")
    × (c'.written ≡ [])
    × Serving sized by_alice file config (codes "hello") c'.call.registry.services
serve_round-Serving_example =
    serve_round-Serving plain_cache json 50 deps read_header by_alice (codes "t") (codes "next")
      connection (file_subhandler_mapping subs.file) file config (codes "hello") alice_is_heard refl
      alice_is_admitted files_are_handled reads_are_handled (λ body ongoing h. refl)
      server-Serving_sized
