-- ===== src/Client/Sending.antt =====
-- `_send_amendment_chunks` of client/operations/file_operations.py: bytes are sent chunk by chunk.
use custom_file_operation_pr.Prelude.{
  ℕ, zero, suc, ◌+◌, leb, if◌then◌else◌, Bool, true, false, ◌||◌, Option, none, some, [], ◌∷◌,
  length, take, drop, Bytes,
}
use Prim.Native.Nat.{bit_or}
use custom_file_operation_pr.Models.Flags.{post_operation_cursor_keepalive}

-- What the loop sets in the header and in the file component of a request.
pub record ChunkRequest : Type 0 where
  pub write_data : Bytes
  pub cursor_position : ℕ
  pub end_operation : Bool
  pub cursor_bitfield : ℕ
  pub finish : Bool

-- `serve` is one exchange with the server: whether its response is `SUCCESSFUL_AMEND`.
module _ {S : Type 0} (serve : ChunkRequest → S → Bool × S) (chunk_size : ℕ)
    (post_op_cursor_keepalive end_connection : Bool) where
  -- The request of a round; `last` is the one before it, and `view` the bytes that are left.
  abbrev pub next_request : ChunkRequest → (view : Bytes) → ChunkRequest
  next_request last view =
      let end_reached = leb (length view) chunk_size in
      record {
        write_data = take chunk_size view;
        cursor_position = last.cursor_position;
        end_operation = end_reached || last.end_operation;
        cursor_bitfield =
            if end_reached
            then bit_or last.cursor_bitfield
                (if post_op_cursor_keepalive then post_operation_cursor_keepalive else 0)
            else last.cursor_bitfield;
        finish = if end_reached then end_connection else last.finish;
      }

  -- `file_component.cursor_position += len(file_component.write_data)`
  abbrev pub advanced : ChunkRequest → ChunkRequest
  advanced r = record r { cursor_position = r.cursor_position + length r.write_data }

  -- The loop over the offsets, for a number of rounds: `none` is a loop that has more to send.
  unfoldable pub send_amendment_chunks :
      (rounds : ℕ) → ChunkRequest → (view : Bytes) → S → Option Bool × S
  send_amendment_chunks rounds last [] s = (some true, s)
  send_amendment_chunks zero last (b ∷ view) s = (none, s)
  send_amendment_chunks (suc rounds) last (b ∷ view) s =
      let request = next_request last (b ∷ view) in
      let (success, s') = serve request s in
      let rest = send_amendment_chunks rounds (advanced request) (drop chunk_size (b ∷ view)) s' in
      if success then rest else (some false, s')
