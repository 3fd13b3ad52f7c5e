-- ===== src/Dispatch/Closed.antt =====
-- When the loop over a connection's requests stops.
use custom_file_operation_pr.Prelude.{
  ℕ, zero, suc, ◌<◌, ◌==◌, ◌≡◌, refl, sym, ◌∙◌, ap, inl, inr, ◌⊎◌, if◌then◌else◌, Bool, true, false,
  Option, none, some, List, Bytes, arith, Bool-cases,
}
use custom_file_operation_pr.Prelude.Ttl.{TtlCache}
use custom_file_operation_pr.Prelude.Action.{Result-cases}
use custom_file_operation_pr.Errors.{Exception, slow_stream_rate}
use custom_file_operation_pr.Models.Flags.{
  info_category, auth_category, file_op_category, permission_category,
}
use custom_file_operation_pr.Models.Request.{BaseHeaderComponent}
use custom_file_operation_pr.Streams.Reader.{at_eof}
use custom_file_operation_pr.Dispatch.Outgoing.{SentHeader, max_bytesize}
use custom_file_operation_pr.Dispatch.Handlers.{Handling, Registry, ComponentJson, read_component}
use custom_file_operation_pr.Dispatch.Routing.{
  Subhandlers, partialised_mapping, auth_subhandler_mapping, info_subhandler_mapping,
  permission_subhandler_mapping, file_subhandler_mapping,
}
use custom_file_operation_pr.Prelude.{Bool-cases}
use custom_file_operation_pr.Errors.{value_error}
use custom_file_operation_pr.Dispatch.Callback.{
  Dependencies, Connection, respond, answer_exception, handle_request, handle_header, settle,
  is_serializable, serve_round, callback,
}
use custom_file_operation_pr.Dispatch.Shrinks.{
  Shrinks, top_auth_handler-Shrinks, top_permission_handler-Shrinks, top_file_handler-Shrinks,
  top_info_handler-Shrinks,
}
use custom_file_operation_pr.Dispatch.Ended.{HandlersShrink, unread, serve_round-unread}

abbrev StopsClosed : {S : Type 0} → Bool × Connection S → Type 0
StopsClosed r = r.0 ≡ false → r.1.closed ≡ true

module _ {S B : Type 0} (deps : Dependencies S B) where
  respond-StopsClosed :
      (header : SentHeader) (body : Option B) (c : Connection S)
      → StopsClosed (respond deps header body c)
  unfolding respond
  respond-StopsClosed header body c h = ground arith

  answer_exception-StopsClosed :
      (header : Option BaseHeaderComponent) (e : Exception) (c : Connection S)
      → StopsClosed (answer_exception deps header e c)
  unfolding answer_exception
  answer_exception-StopsClosed none slow_stream_rate c h = refl
  answer_exception-StopsClosed none _ c h = absurd (ground arith)
  answer_exception-StopsClosed (some header) e c h = ground arith

  handle_header-StopsClosed :
      (header : BaseHeaderComponent) (c : Connection S) → StopsClosed (handle_header deps header c)
  unfolding handle_header settle
  handle_header-StopsClosed header c h =
      let call' = (handle_request deps header c.call).1 in
      let c' : Connection S = record c { call = call' } in
      elim (Result-cases (handle_request deps header c.call).0) [
        | inl (answer, e) ↦ elim (Bool-cases (is_serializable deps answer.1)) [
          | inl sent ↦ ground (arith, respond-StopsClosed answer.0 answer.1 c')
          | inr fails ↦ ground (arith, answer_exception-StopsClosed (some header) value_error c')
        ]
        | inr (x, e) ↦ ground (arith, answer_exception-StopsClosed (some header) x c')
      ]

  serve_round-StopsClosed : (c : Connection S) → StopsClosed (serve_round deps c)
  unfolding serve_round
  serve_round-StopsClosed c h =
      let call' = (read_component deps.header_json max_bytesize c.call).1 in
      let c' : Connection S = record c { call = call' } in
      elim (Result-cases (read_component deps.header_json max_bytesize c.call).0) [
        | inl (header, e) ↦ ground (arith, handle_header-StopsClosed header c')
        | inr (x, e) ↦ ground (arith, answer_exception-StopsClosed none x c')
      ]

  -- The loop over a connection whose handlers put nothing into its stream stops within as many
  -- rounds as there are bytes to read, and one more: with the connection closed, or at the end of
  -- what the peer sent.
  callback_ends :
      HandlersShrink deps
      → (rounds : ℕ) (c : Connection S) → unread c < rounds
      → (c' : Connection S) × (callback deps rounds c ≡ some c')
        × ((c'.closed ≡ true) ⊎ (at_eof c'.call.reader ≡ true))
  unfolding callback
  callback_ends h zero c few = absurd (omega arith)
  callback_ends h (suc rounds) c few = elim (Bool-cases (at_eof c.call.reader)) [
    | inl ended ↦ (c, ground arith, inr ended)
    | inr more ↦ elim (Bool-cases (serve_round deps c).0) [
      | inl goes ↦
          (let less = serve_round-unread deps h c more goes in
            let (c', e, stop) =
              callback_ends h rounds (serve_round deps c).1 (omega (arith, less)) in
            (c', ground arith, stop))
      | inr stops ↦ ((serve_round deps c).1, ground arith, inl (serve_round-StopsClosed c stops))
    ]
  ]

-- What holds of each branch of a table holds of the entry found.
module _ {H : Type 0} (P : H → Type 0) where
  found-if :
      (b : Bool) (x h : H) (o : Option H)
      → P x
      → (o ≡ some h → P h)
      → (if b then some x else o) ≡ some h
      → P h
  found-if true x h o p k e =
      let same = ap (λ a. elim a [ none ↦ x | some y ↦ y ]) e in rw (sym same) p
  found-if false x h o p k e = k e

-- The handlers of `partialised_mapping` put nothing into the stream.
module _ (J : ComponentJson) (D : TtlCache (List Bytes)) {V R : Type 0} (now : ℕ) (known : ℕ → Bool)
    (subs : Subhandlers (Registry D V) R) where
  abbrev AllShrink : (BaseHeaderComponent → Handling (Registry D V) R) → Type 0
  AllShrink handler = (header : BaseHeaderComponent) → Shrinks (handler header)

  partialised_mapping-Shrinks :
      (category : ℕ) (handler : BaseHeaderComponent → Handling (Registry D V) R)
      → partialised_mapping J D now known subs category ≡ some handler
      → AllShrink handler
  unfolding partialised_mapping
  partialised_mapping-Shrinks category handler =
      found-if AllShrink (category == auth_category) _ handler _
        (λ h. top_auth_handler-Shrinks J h (auth_subhandler_mapping subs.auth))
        (found-if AllShrink (category == info_category) _ handler _
          (λ h. top_info_handler-Shrinks J D now h known (info_subhandler_mapping subs.info))
          (found-if AllShrink (category == permission_category) _ handler _
            (λ h.
              top_permission_handler-Shrinks J D now h
                (permission_subhandler_mapping subs.permission))
            (found-if AllShrink (category == file_op_category) _ handler _
              (λ h. top_file_handler-Shrinks J D now h (file_subhandler_mapping subs.file))
              (λ e. absurd cc))))

-- The loop over the requests of a connection stops, whatever the subhandlers do, within one round
-- more than there are bytes to read: either the connection is closed, or all that the peer sent was
-- read and it will send no more.
pub callback_stops :
    (J : ComponentJson) (D : TtlCache (List Bytes)) {V B : Type 0} (now : ℕ) (known : ℕ → Bool)
    (subs : Subhandlers (Registry D V) (SentHeader × Option B))
    (deps : Dependencies (Registry D V) B) (c : Connection (Registry D V)) (rounds : ℕ)
    → deps.request_handler_mapping ≡ partialised_mapping J D now known subs
    → unread c < rounds
    → (c' : Connection (Registry D V)) × (callback deps rounds c ≡ some c')
      × ((c'.closed ≡ true) ⊎ (at_eof c'.call.reader ≡ true))
callback_stops J D now known subs deps c rounds table enough =
    callback_ends deps
      (λ category handler e.
        partialised_mapping-Shrinks J D now known subs category handler
          (ap (λ m. m category) (sym table) ∙ e))
      rounds c enough
