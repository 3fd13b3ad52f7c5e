-- ===== src/Client/Sent.antt =====
-- What a client that sends bytes chunk by chunk has sent, whatever the server answers.
use custom_file_operation_pr.Prelude.{
  ℕ, suc, ◌+◌, ◌≤◌, ◌≡◌, Bool, true, List, [], ◌∷◌, ◌++◌, length, Bytes,
}
use custom_file_operation_pr.Client.Sending.{ChunkRequest, next_request}

-- The exchange with a server, and the requests made so far.
abbrev pub recorded :
    {S : Type 0}
    → (ChunkRequest → S → Bool × S)
    → ChunkRequest
    → S × List ChunkRequest
    → Bool × (S × List ChunkRequest)
recorded serve r (s, sent) = let (success, s') = serve r s in (success, (s', sent ++ r ∷ []))

-- The request of the last chunk says that it is the last one.
abbrev pub Ends : (end_connection : Bool) → (rest : Bytes) → ChunkRequest → Type 0
Ends end_connection [] r = (r.end_operation ≡ true) × (r.finish ≡ end_connection)
Ends end_connection (b ∷ rest) r = Unit

-- The requests carry the bytes `view` up to `left`, from `position` on, one after another, each at
-- least one byte and at most `chunk_size`.
abbrev pub Chunked :
    (chunk_size : ℕ)
    → (end_connection : Bool) → (position : ℕ) → (view : Bytes) → List ChunkRequest
    → (left : Bytes) → Type 0
Chunked chunk_size end_connection position view [] left = view ≡ left
Chunked chunk_size end_connection position view (r ∷ rs) left =
    (rest : Bytes) × (view ≡ r.write_data ++ rest)
    × (r.cursor_position ≡ position)
    × (1 ≤ length r.write_data)
    × (length r.write_data ≤ chunk_size)
    × Ends end_connection rest r
    × Chunked chunk_size end_connection (position + length r.write_data) rest rs left

module _ {S : Type 0} (serve : ChunkRequest → S → Bool × S) (chunk : ℕ)
    (post_op end_connection : Bool) where
  abbrev next : ChunkRequest → Bytes → ChunkRequest
  next = next_request (recorded serve) (suc chunk) post_op end_connection
