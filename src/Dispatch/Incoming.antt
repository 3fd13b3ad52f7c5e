-- ===== src/Dispatch/Incoming.antt =====
-- The components of a request as they come in (server/comms_utils/incoming.py).
use custom_file_operation_pr.Prelude.{ℕ, none, some, [], ◌∷◌}
use custom_file_operation_pr.Prelude.Action.{Result, ok, err, Action}
use custom_file_operation_pr.Errors.{Exception, slow_stream_rate, invalid_header_semantic}
use custom_file_operation_pr.Streams.Reader.{
  StreamReader, Read, complete, incomplete, timed_out, read_exactly,
}
use custom_file_operation_pr.Streams.Padding.{Json}

-- What `process_component` makes of the end of its read.
unfoldable pub parse_component : {A : Type 0} → Json A → Read → Result Exception A
parse_component J (complete raw_component) = elim (J.model_validate_json raw_component) [
  | none ↦ err invalid_header_semantic
  | some component ↦ ok component
]
parse_component J (incomplete []) = err slow_stream_rate
parse_component J (incomplete (b ∷ bs)) = err invalid_header_semantic
parse_component J timed_out = err slow_stream_rate

unfoldable pub process_component : {A : Type 0} → Json A → ℕ → Action Exception StreamReader A
process_component J n_bytes reader =
    let (r, reader') = read_exactly n_bytes reader in (parse_component J r, reader')
