-- ===== src/Streams/Reader.antt =====
-- `asyncio.StreamReader` under `wait_for`. What the peer sends in time is in the buffer; a read that
-- wants more waits until its timeout, unless the peer has closed its side.
use custom_file_operation_pr.Prelude.{
  ℕ, leb, Bool, true, false, ◌&&◌, [], ◌∷◌, length, take, drop, Bytes, if◌then◌else◌,
}

pub record StreamReader : Type 0 where
  pub buffer : Bytes
  -- the peer will send no more
  pub eof : Bool

-- How a read ends: with the bytes, with `IncompleteReadError` and its `partial`, or with
-- `TimeoutError`.
pub data Read : Type 0 where
  complete incomplete : Bytes → Read
  timed_out : Read

-- `wait_for(reader.readexactly(n), timeout)`. A read that meets the end empties the buffer, and one
-- that runs out of time keeps it.
unfoldable pub read_exactly : ℕ → StreamReader → Read × StreamReader
read_exactly n r =
    if leb n (length r.buffer)
    then (complete (take n r.buffer), record r { buffer = drop n r.buffer })
    else if r.eof
    then (incomplete r.buffer, record r { buffer = [] })
    else (timed_out, r)

abbrev is_empty : Bytes → Bool
is_empty [] = true
is_empty (b ∷ bs) = false

-- `reader.at_eof()`
unfoldable pub at_eof : StreamReader → Bool
at_eof r = r.eof && is_empty r.buffer
