-- ===== src/Dispatch/Ended.antt =====
-- The loop over a connection's requests comes to an end.
use custom_file_operation_pr.Prelude.{
  ℕ, ◌≤◌, ◌<◌, ◌≡◌, refl, inl, inr, true, false, Option, none, some, length, arith, Option-cases,
  ◌⊎◌,
}
use custom_file_operation_pr.Prelude.Action.{err, Result-cases}
use custom_file_operation_pr.Errors.{Exception, slow_stream_rate}
use custom_file_operation_pr.Models.Request.{BaseHeaderComponent}
use custom_file_operation_pr.Streams.Reader.{at_eof}
use custom_file_operation_pr.Streams.Padding.{Json}
use custom_file_operation_pr.Streams.Reads.{read_exactly-progress}
use custom_file_operation_pr.Dispatch.Incoming.{parse_component, process_component}
use custom_file_operation_pr.Dispatch.Outgoing.{SentHeader, max_bytesize}
use custom_file_operation_pr.Dispatch.Handlers.{Call, Handling, read_component}
use custom_file_operation_pr.Prelude.{Bool-cases}
use custom_file_operation_pr.Errors.{value_error}
use custom_file_operation_pr.Dispatch.Callback.{
  Dependencies, Connection, respond, answer_exception, handle_request, handle_header, settle,
  is_serializable, serve_round,
}
use custom_file_operation_pr.Dispatch.Shrinks.{Shrinks}

abbrev pub unread : {S : Type 0} → Connection S → ℕ
unread c = length c.call.reader.buffer

-- The read of a header takes bytes, or finds the peer silent.
process_component-progress :
    {S A : Type 0} (json : Json A) (c : Call S)
    → at_eof c.reader ≡ false
    → (length (read_component json max_bytesize c).1.reader.buffer < length c.reader.buffer)
      ⊎ ((read_component json max_bytesize c).0 ≡ err slow_stream_rate)
unfolding read_component process_component parse_component
process_component-progress json c more =
    elim (read_exactly-progress max_bytesize c.reader (omega arith) more) [
      | inl less ↦ inl less
      | inr slow ↦ inr (ground arith)
    ]

module _ {S B : Type 0} (deps : Dependencies S B) where
  respond-unread :
      (header : SentHeader) (body : Option B) (c : Connection S)
      → unread (respond deps header body c).1 ≡ unread c
  unfolding respond
  respond-unread header body c = ground arith

  answer_exception-unread :
      (header : Option BaseHeaderComponent) (e : Exception) (c : Connection S)
      → unread (answer_exception deps header e c).1 ≡ unread c
  unfolding answer_exception
  answer_exception-unread none slow_stream_rate c = refl
  answer_exception-unread none _ c = ground arith
  answer_exception-unread (some header) e c = ground arith

  answer_exception-slow :
      (c : Connection S) → (answer_exception deps none slow_stream_rate c).0 ≡ false
  unfolding answer_exception
  answer_exception-slow c = refl

  abbrev pub HandlersShrink : Type 0
  HandlersShrink =
      (category : ℕ) (handler : BaseHeaderComponent → Handling S (SentHeader × Option B))
      → deps.request_handler_mapping category ≡ some handler
      → (header : BaseHeaderComponent) → Shrinks (handler header)

  handle_request-Shrinks :
      HandlersShrink → (header : BaseHeaderComponent) → Shrinks (handle_request deps header)
  handle_request-Shrinks h header =
      elim (Option-cases (deps.request_handler_mapping header.category)) [
        | inl missing ↦ record { shrinks = λ c. ground arith }
        | inr (handler, e) ↦ record {
          shrinks = λ c. ground (arith, (h header.category handler e header).shrinks c);
        }
      ]

  handle_header-unread :
      HandlersShrink
      → (header : BaseHeaderComponent) (c : Connection S)
      → unread (handle_header deps header c).1 ≤ unread c
  unfolding handle_header settle
  handle_header-unread h header c =
      let smaller = (handle_request-Shrinks h header).shrinks c.call in
      let call' = (handle_request deps header c.call).1 in
      elim (Result-cases (handle_request deps header c.call).0) [
        | inl (answer, e) ↦ elim (Bool-cases (is_serializable deps answer.1)) [
          | inl sent ↦ ground (arith, respond-unread answer.0 answer.1 (record c { call = call' }))
          | inr fails ↦
              ground (
                arith,
                answer_exception-unread (some header) value_error (record c { call = call' }),
              )
        ]
        | inr (x, e) ↦
            ground (arith, answer_exception-unread (some header) x (record c { call = call' }))
      ]

  -- A round that goes on has read something.
  pub serve_round-unread :
      HandlersShrink
      → (c : Connection S) → at_eof c.call.reader ≡ false
      → (serve_round deps c).0 ≡ true
      → unread (serve_round deps c).1 < unread c
  unfolding serve_round
  serve_round-unread h c more goes =
      let call' = (read_component deps.header_json max_bytesize c.call).1 in
      let c' : Connection S = record c { call = call' } in
      elim (process_component-progress deps.header_json c.call more) [
        | inl less ↦ elim (Result-cases (read_component deps.header_json max_bytesize c.call).0) [
          | inl (header, e) ↦ ground (arith, handle_header-unread h header c')
          | inr (x, e) ↦ ground (arith, answer_exception-unread none x c')
        ]
        | inr slow ↦ absurd (let stops = answer_exception-slow c' in ground arith)
      ]
