-- ===== src/Client/Complete.antt =====
-- A client that reads a file chunk by chunk gets the bytes that it asked for, and stops.
use custom_file_operation_pr.Prelude.{
  ℕ, zero, suc, ◌+◌, ◌-◌, ◌≤◌, ◌<◌, ltb, min, ◌≡◌, ◌∙◌, ap, sym, Bool, true, Text, Option, some,
  ◌++◌, length, take, drop, length-take, length-drop, Bytes, Bool-cases, ltb→lt, ltb-false→le,
  le→ltb, inl, inr, arith,
}
use custom_file_operation_pr.Client.Reading.{received, read_chunks}
use custom_file_operation_pr.Files.Reading.{read_at}
use custom_file_operation_pr.Files.Contents.{
  take-all, take-add, append_nil, append_assoc, drop-drop,
}

-- A chunk that reaches the end of the bytes is all that is left, and one that does not is full.
module _ (position size : ℕ) (bytes : Bytes) where
  abbrev chunk : Bytes
  chunk = take size (drop position bytes)

  length-chunk : length chunk ≡ min size (length bytes - position)
  length-chunk = omega (arith, length-take size (drop position bytes), length-drop position bytes)

  chunk-last :
      (wanted : ℕ)
      → length bytes ≤ position + length chunk
      → size ≤ wanted
      → chunk ≡ take wanted (drop position bytes)
  chunk-last wanted ends le =
      let rest = drop position bytes in
      let small : length rest ≤ size = omega (arith, length-drop position bytes, length-chunk) in
      take-all size rest small ∙ sym (take-all wanted rest (omega (arith, small)))

  chunk-more :
      (wanted : ℕ)
      → position + length chunk < length bytes
      → size ≤ wanted
      → chunk ++ take (wanted - length chunk) (drop (position + length chunk) bytes)
        ≡ take wanted (drop position bytes)
  chunk-more wanted goes le =
      let full : length chunk ≡ size = omega (arith, length-chunk) in
      let split : size + (wanted - size) ≡ wanted = omega arith in
      ap (λ k. chunk ++ take (wanted - k) (drop (position + k) bytes)) full
      ∙ ap (λ xs. chunk ++ take (wanted - size) xs) (sym (drop-drop position size bytes))
      ∙ sym (take-add size (wanted - size) (drop position bytes))
      ∙ ap (λ k. take k (drop position bytes)) split

-- A server that answers each request from the same bytes, in a state that keeps `Inv`.
module _ {S : Type 0} (serve : (position chunk_size : ℕ) → S → Option (Text × Bool) × S)
    (bytes : Bytes) (Inv : S → Type 0)
    (serves : (position n : ℕ) (s : S)
      → Inv s
      → ((serve position n s).0 ≡ some ((read_at position n bytes).0, (read_at position n bytes).2))
        × Inv (serve position n s).1) where
  read_chunks-stop :
      (rounds read_limit position chunk_size bytes_read : ℕ) (read_data : Bytes) (s : S)
      → read_limit ≤ bytes_read
      → (read_chunks serve true rounds read_limit position chunk_size bytes_read read_data s).0
        ≡ received (read_data ++ take (read_limit - bytes_read) (drop position bytes))
  unfolding read_chunks
  read_chunks-stop zero read_limit position chunk_size bytes_read read_data s le =
      let none_left : read_limit - bytes_read ≡ 0 = omega arith in
      rw (le→ltb read_limit bytes_read le, none_left) (ap received (sym (append_nil read_data)))
  read_chunks-stop (suc rounds) read_limit position chunk_size bytes_read read_data s le =
      let none_left : read_limit - bytes_read ≡ 0 = omega arith in
      rw (le→ltb read_limit bytes_read le, none_left) (ap received (sym (append_nil read_data)))

  -- Enough rounds are one for each byte that is wanted: a chunk has a byte, or it is the last.
  pub read_chunks-Complete :
      (rounds read_limit position chunk_size bytes_read : ℕ) (read_data : Bytes) (s : S)
      → read_limit - bytes_read ≤ rounds
      → 1 ≤ chunk_size
      → Inv s
      → (read_chunks serve true rounds read_limit position chunk_size bytes_read read_data s).0
        ≡ received (read_data ++ take (read_limit - bytes_read) (drop position bytes))
  unfolding read_chunks
  read_chunks-Complete zero read_limit position chunk_size bytes_read read_data s enough positive
        inv =
      read_chunks-stop zero read_limit position chunk_size bytes_read read_data s (omega arith)
  read_chunks-Complete (suc rounds) read_limit position chunk_size bytes_read read_data s enough
        positive inv =
      elim (Bool-cases (ltb bytes_read read_limit)) [
        | inr over ↦
            read_chunks-stop (suc rounds) read_limit position chunk_size bytes_read read_data s
              (ltb-false→le bytes_read read_limit over)
        | inl under ↦
            (let size = min (read_limit - bytes_read) chunk_size in
              let (h, inv') = serves position size s inv in
              let new = chunk position size bytes in
              let wanted = read_limit - bytes_read in
              let le : size ≤ wanted = omega arith in
              let lt = ltb→lt bytes_read read_limit under in
              elim (Bool-cases (ltb (position + length new) (length bytes))) [
                | inr ends ↦
                    rw (under, h, ends)
                      (ap (λ xs. received (read_data ++ xs))
                        (chunk-last position size bytes wanted
                          (ltb-false→le (position + length new) (length bytes) ends) le))
                | inl goes ↦
                    (let further = ltb→lt (position + length new) (length bytes) goes in
                      let full : length new ≡ size =
                        omega (arith, length-chunk position size bytes) in
                      let left : read_limit - (bytes_read + length new) ≡ wanted - length new =
                        omega arith in
                      let rest =
                        read_chunks-Complete rounds read_limit (position + length new) size
                          (bytes_read + length new) (read_data ++ new) (serve position size s).1
                          (omega (arith, full)) (omega arith) inv' in
                      rw (under, h, goes)
                        (rest
                          ∙ ap
                              (λ k.
                                received (
                                  (read_data ++ new)
                                  ++ take k (drop (position + length new) bytes)))
                              left
                          ∙ ap received (
                              append_assoc read_data new
                                (take (wanted - length new) (drop (position + length new) bytes)))
                          ∙ ap (λ xs. received (read_data ++ xs))
                              (chunk-more position size bytes wanted further le)))
              ])
      ]
