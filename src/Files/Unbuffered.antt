-- ===== src/Files/Unbuffered.antt =====
-- A reader that has read nothing ahead reads the file as it stands.
use custom_file_operation_pr.Prelude.{
  ℕ, zero, suc, ◌+◌, ◌-◌, ltb, ◌≡◌, refl, ap, true, false, [], length, take, drop, leb, ◌%◌, ◌==◌,
  if◌then◌else◌, Bool-cases, length-take, length-drop, Bytes, arith, List-cases, inl, inr,
}
use custom_file_operation_pr.Files.Buffers.{
  FileReader, fresh_reader, seek_reader, read_bytes, buffer_size,
}
use custom_file_operation_pr.Files.Reading.{read_at, read_through, preemptive_eof_check}

-- A reader at a position without a buffer.
abbrev at : ℕ → FileReader
at position = record { position = position; behind = []; ahead = [] }

seek_reader-fresh : (p : ℕ) → seek_reader p fresh_reader ≡ at p
unfolding seek_reader
seek_reader-fresh zero = refl
seek_reader-fresh (suc p) = ground arith

-- What is read ahead is what stands there.
record Agrees (content : Bytes) (r : FileReader) : Type 0 where
  size : ℕ
  same : r.ahead ≡ take size (drop r.position content)

read_bytes-at :
    (n position : ℕ) (content : Bytes)
    → let (read, r') = read_bytes n content (at position) in
      (read ≡ take n (drop position content))
      × (r'.position ≡ position + length (take n (drop position content)))
      × Agrees content r'
unfolding read_bytes
read_bytes-at zero position content = (refl, omega arith, record { size = 0; same = refl })
read_bytes-at (suc n) position content =
    let grow : leb (suc n) 0 ≡ false = ground arith in
    let all : suc n - 0 ≡ suc n = omega arith in
    let here : position + 0 ≡ position = omega arith in
    let rest = suc n % buffer_size in
    let read = take (suc n) (drop position content) in
    rw (grow, all, here)
      (
        refl,
        refl,
        record {
          size = if rest == 0 then 0 else buffer_size - rest;
          same = elim (Bool-cases (rest == 0)) [
            | inl none_left ↦ ground arith
            | inr left ↦ ground arith
          ];
        },
      )

preemptive_eof_check-Agrees :
    (content : Bytes) (r : FileReader)
    → Agrees content r
    → let (more, r') = preemptive_eof_check content r in
      (more ≡ ltb r.position (length content)) × (r'.position ≡ r.position)
unfolding preemptive_eof_check seek_reader read_bytes
preemptive_eof_check-Agrees content r h =
    let there = h.same in
    elim (List-cases r.ahead) [
      | inl none_ahead ↦ elim (List-cases (drop r.position content)) [
        | inl over ↦
            (let here : r.position + 0 ≡ r.position = omega arith in
              let ends : ltb r.position (length content) ≡ false =
                ground (arith, ap length over, length-drop r.position content) in
              ground (arith, ends, here))
        | inr (b, bs, e) ↦
            (let here : r.position + 0 ≡ r.position = omega arith in
              let goes : ltb r.position (length content) ≡ true =
                ground (arith, ap length e, length-drop r.position content) in
              ground (arith, goes, here))
      ]
      | inr (b, bs, e) ↦
          (let goes : ltb r.position (length content) ≡ true = ground (
            arith,
            ap length e,
            ap length there,
            length-take h.size (drop r.position content),
            length-drop r.position content,
          ) in
            ground (arith, goes))
    ]

pub read_through-fresh :
    (position nbytes : ℕ) (content : Bytes)
    → (read_through position nbytes content fresh_reader).0 ≡ read_at position nbytes content
unfolding read_through
read_through-fresh position nbytes content =
    let (read, place, agrees) = read_bytes-at nbytes position content in
    let r = (read_bytes nbytes content (at position)).1 in
    let (more, still) = preemptive_eof_check-Agrees content r agrees in
    rw (seek_reader-fresh position, read, more, still, place) refl
