-- ===== src/Files/Views.antt =====
-- The disk as a map from paths to contents, and what a writer passes on to it.
use custom_file_operation_pr.Prelude.{
  ℕ, ◌+◌, ◌-◌, ltb, ◌==◌, if◌then◌else◌, ◌≡◌, ◌≢◌, refl, Bool, false, not, ◌&&◌, Option, some, [],
  ◌∷◌, ◌++◌, length, Text, Bytes, join_path, Bool-cases, inl, inr, arith,
}
use custom_file_operation_pr.Prelude.Dict.{lookup, contains}
use custom_file_operation_pr.Prelude.Action.{ok}
use custom_file_operation_pr.Files.Disk.{Disk, is_file, write_at, put_file}
use custom_file_operation_pr.Files.Buffers.{
  Writer, close_writer, put_bytes, seek, buffer_size, FileState, is_marked, set_disk,
}
use custom_file_operation_pr.Files.Calls.{is_gone}
use custom_file_operation_pr.Files.Writing.{move_to, settle_writer}

-- The abstract view of the disk: the content at each path.
abbrev pub content : FileState → Text → Option Bytes
content s path = lookup path s.disk.files

-- The file is there with these bytes, not marked as deleted, and the disk refuses nothing.
abbrev pub Readable : (root fpath : Text) → Bytes → FileState → Type 0
Readable root fpath bytes s =
    (s.disk.refusals ≡ [])
    × (is_marked fpath s ≡ false)
    × (content s (join_path root fpath) ≡ some bytes)

-- No file but the one at the path differs.
abbrev pub Spares : (path : Text) → FileState → FileState → Type 0
Spares path s s' = (other : Text) → path ≢ other → content s' other ≡ content s other

-- The bytes that a writer without pending ones passes on, once it is closed.
abbrev pub written_over : Writer → Bytes → Bytes → Bytes
written_over w new old = if w.append then old ++ new else write_at w.position new old

pub close_writer-put_bytes :
    (w : Writer) (d : Disk) (new old : Bytes) {b : ℕ} {bs : Bytes}
    → lookup w.path d.files ≡ some old
    → w.pending ≡ []
    → new ≡ b ∷ bs
    → let (w', d') = put_bytes new w d in
      close_writer w' d' ≡ put_file w.path (written_over w new old) d
unfolding close_writer put_bytes
close_writer-put_bytes w d new old {b} {bs} h quiet e =
    let back : w.position + length new - length new ≡ w.position = omega arith in
    elim (Bool-cases (ltb buffer_size (length new))) [
      | inl big ↦ ground (arith, back)
      | inr small ↦ ground (arith, back)
    ]

pub is_gone-lem :
    (root fpath : Text) (s : FileState) {old : Bytes}
    → is_marked fpath s ≡ false
    → content s (join_path root fpath) ≡ some old
    → is_gone root fpath s ≡ false
unfolding is_gone contains
is_gone-lem root fpath s there h = rw (there, is_file, contains, h) refl

pub move_to-quiet :
    (p : ℕ) (w : Writer) (s : FileState)
    → w.pending ≡ []
    → move_to p w s ≡ (ok (record w { position = p; pending = [] }), s)
unfolding move_to seek close_writer
move_to-quiet p w s quiet = elim (Bool-cases (w.position == p)) [
  | inl same ↦ (let e : w.position ≡ p = ground arith in rw (same, ← e, ← quiet) refl)
  | inr apart ↦ rw (apart, quiet) refl
]

-- The write and the close of a writer without pending bytes that no cache keeps, when the write is
-- not refused.
pub settle_writer-disk :
    (fpath identifier : Text) (new old : Bytes) (keepalive purge : Bool) (w : Writer)
    (s : FileState) {b : ℕ} {bs : Bytes}
    → lookup w.path s.disk.files ≡ some old
    → w.pending ≡ []
    → new ≡ b ∷ bs
    → (keepalive && not purge) ≡ false
    → let (w', d') = put_bytes new w s.disk in
      (settle_writer fpath identifier keepalive purge false w' (set_disk d' s)).disk
      ≡ put_file w.path (written_over w new old) s.disk
settle_writer-disk fpath identifier new old keepalive purge w s h quiet e k =
    let done = close_writer-put_bytes w s.disk new old h quiet e in ground (arith, done)
