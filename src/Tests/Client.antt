-- ===== src/Tests/Client.antt =====
-- Runs of a client that reads a file from its second byte on, two bytes at a time, and that sends
-- three bytes, two at a time.
use custom_file_operation_pr.Prelude.{
  Bool, ◌≡◌, ◌≢◌, refl, true, false, ◌++◌, [], none, some, length, take, drop, Text, codes, arith,
}
use custom_file_operation_pr.Client.Reading.{received, read_remote_file}
use custom_file_operation_pr.Client.Remote.{exchange, read_remote_file-Complete}
use custom_file_operation_pr.Tests.Fixtures.{utf8, ascii_text-some, header, by_alice, config}
use custom_file_operation_pr.Tests.Files.{file, server, server-Serving}
use custom_file_operation_pr.Client.Sending.{ChunkRequest}
use custom_file_operation_pr.Prelude.Action.{ok}
use custom_file_operation_pr.Streams.Padding.{Json}
use custom_file_operation_pr.Dispatch.Outgoing.{SentHeader}
use custom_file_operation_pr.Dispatch.Callback.{Dependencies, Connection, respond, sized_response}
use custom_file_operation_pr.Client.Communication.{Streams, process_response}
use custom_file_operation_pr.Client.Answers
use custom_file_operation_pr.Client.Answers.{receiving, process_response-respond}

read_remote_file-Complete_example :
    (read_remote_file
      (exchange utf8.decode header by_alice file config)
      true
      9
      9
      (some 1)
      2
      (some 3)
      server).0
    ≡ received (take 3 (drop 1 (codes "hello")))
read_remote_file-Complete_example =
    read_remote_file-Complete utf8.decode header by_alice file config ascii_text-some
      (codes "hello") (ground arith) 9 9 (some 1) 2 (some 3) server (omega arith) (omega arith)
      server-Serving

-- The component as the caller of the loop passes it.
abbrev start : ChunkRequest
start = record {
  write_data = [];
  cursor_position = 0;
  end_operation = false;
  cursor_bitfield = 0;
  finish = false;
}

-- A server that takes one request, and fails from then on.
abbrev once : ChunkRequest → Bool → Bool × Bool
once r more = (more, false)

abbrev answer : SentHeader
answer = record {
  version = codes "1.0";
  code = codes "1:read";
  body_size = 0;
  ended_connection = true;
}

abbrev answer_json : Json SentHeader
answer_json = record {
  model_dump_json = λ _. codes "s";
  model_validate_json = λ _. some (record answer { body_size = 2 });
}

abbrev two_bytes : Json Text
two_bytes = record {
  model_dump_json = λ _. codes "ok";
  model_validate_json = λ _. some (codes "ok");
}

abbrev answering : Dependencies (Unit {0}) Text
answering = record {
  header_json = record { model_dump_json = λ _. []; model_validate_json = λ _. none };
  sent_json = answer_json;
  dump_body = two_bytes.model_dump_json;
  serializes = λ _. true;
  log = λ s. s;
  version = codes "1.0";
  request_handler_mapping = λ _. none;
}

abbrev served : Connection (Unit {0})
served = record {
  call = record { reader = record { buffer = []; eof = false }; registry = tt };
  written = codes "earlier";
  closed = false;
}

abbrev streams : Streams
streams = record {
  reader = record { buffer = []; eof = false };
  written = [];
  closed = false;
  read_lock = false;
  stream_lock = false;
}

body_has_bytes : length (codes "ok") ≢ 0
body_has_bytes h = absurd (omega (arith, h))

process_response-respond_example :
    process_response answer_json two_bytes (
      receiving streams
        (drop 7 (respond answering answer (some (codes "ok")) served).1.written ++ codes "next"))
    ≡ (
      ok (record answer { body_size = 2 }, some (codes "ok")),
      Answers.received streams answer (codes "next"),
    )
unfolding sized_response
process_response-respond_example =
    process_response-respond answering two_bytes answer (some (codes "ok")) served (codes "next")
      streams (omega arith) refl (body_has_bytes, refl) refl
