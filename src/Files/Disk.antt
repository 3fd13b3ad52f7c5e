-- ===== src/Files/Disk.antt =====
-- The server's disk, as Python's `os` and `aiofiles` show it: regular files by path, and
-- directories. The operating system may refuse to open, write, move or remove a file, and to make or
-- remove a directory.
use custom_file_operation_pr.Prelude.{
  ℕ, zero, suc, ◌+◌, ◌-◌, Bool, false, none, some, List, [], ◌∷◌, ◌++◌, any, length, take, drop,
  Text, Bytes, text_eq,
}
use custom_file_operation_pr.Prelude.Dict.{Dict, lookup, insert, erase, contains}

pub record Disk : Type 0 where
  pub files : Dict Bytes
  pub directories : List Text
  -- which of the calls to come are refused: the first one if the list starts with `true`, and none
  -- after its end
  pub refusals : List Bool

abbrev pub next_refusal : List Bool → Bool
next_refusal [] = false
next_refusal (r ∷ rs) = r

abbrev pub later_refusals : List Bool → List Bool
later_refusals [] = []
later_refusals (r ∷ rs) = rs

abbrev pub is_refused : Disk → Bool
is_refused d = next_refusal d.refusals

-- The disk once a call was made.
abbrev pub called : Disk → Disk
called d = record d { refusals = later_refusals d.refusals }

abbrev pub is_file : Text → Disk → Bool
is_file path d = contains path d.files

abbrev pub is_directory : Text → Disk → Bool
is_directory path d = any (λ p. text_eq p path) d.directories

-- `n` bytes of value 0
unfoldable pub zeros : ℕ → Bytes
zeros zero = []
zeros (suc n) = 0 ∷ zeros n

-- A write at a position replaces what stands there; one past the end leaves a gap of zeros.
unfoldable pub write_at : ℕ → Bytes → Bytes → Bytes
unfolding zeros
write_at p new old = (take p old ++ zeros (p - length old)) ++ (new ++ drop (p + length new) old)

-- A write to a file that is there; one that was removed takes no more bytes.
abbrev pub put_file : Text → Bytes → Disk → Disk
put_file path content d = record d { files = insert path content d.files }

abbrev pub change_file : Text → (Bytes → Bytes) → Disk → Disk
change_file path f d = elim (lookup path d.files) [ none ↦ d | some old ↦ put_file path (f old) d ]

abbrev pub remove_path : Text → Disk → Disk
remove_path path d = record d { files = erase path d.files }
