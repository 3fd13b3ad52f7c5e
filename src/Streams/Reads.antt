-- ===== src/Streams/Reads.antt =====
-- What a read takes from the stream.
use custom_file_operation_pr.Prelude.{
  ℕ, ◌≤◌, ◌<◌, leb, leb→le, le→leb, ◌⊎◌, List-cases, ◌≡◌, inl, inr, Bool, false, ◌++◌, length,
  length-drop, length-append, Bytes, arith, Bool-cases,
}
use custom_file_operation_pr.Files.Contents.{take-append, drop-append}
use custom_file_operation_pr.Streams.Reader.{
  StreamReader, complete, timed_out, read_exactly, at_eof,
}

-- What was sent is read first, and what follows stays.
pub read_exactly-append :
    (n : ℕ) (xs ys : Bytes) (eof : Bool)
    → length xs ≡ n
    → read_exactly n (record { buffer = xs ++ ys; eof = eof })
      ≡ (complete xs, record { buffer = ys; eof = eof })
unfolding read_exactly
read_exactly-append n xs ys eof h =
    let there = le→leb n (length (xs ++ ys)) (omega (arith, h, length-append xs ys)) in
    let first = take-append n xs ys h in let rest = drop-append n xs ys h in grind arith

pub length-read_exactly :
    (n : ℕ) (r : StreamReader) → length (read_exactly n r).1.buffer ≤ length r.buffer
unfolding read_exactly
length-read_exactly n r = ground (arith, length-drop n r.buffer)

-- A read from a stream that has not ended takes bytes, or times out.
pub read_exactly-progress :
    (n : ℕ) (r : StreamReader)
    → 0 < n
    → at_eof r ≡ false
    → (length (read_exactly n r).1.buffer < length r.buffer) ⊎ ((read_exactly n r).0 ≡ timed_out)
unfolding read_exactly at_eof
read_exactly-progress n r pos more = elim (Bool-cases (leb n (length r.buffer))) [
  | inl enough ↦
      (let le = leb→le n (length r.buffer) enough in inl (ground (arith, length-drop n r.buffer)))
  | inr short ↦ elim (Bool-cases r.eof) [
    | inl ended ↦ elim (List-cases r.buffer) [
      | inl empty ↦ absurd (ground arith)
      | inr (b, bs, e) ↦ inl (ground arith)
    ]
    | inr open_ ↦ inr (ground arith)
  ]
]
