-- ===== src/Info/Usage.antt =====
-- `get_local_storage_data` of server/info_ops/utils.py: what a user's directory holds.
use custom_file_operation_pr.Prelude.{
  ℕ, ◌+◌, ◌==◌, ◌≡◌, refl, ◌∙◌, ap, inl, inr, if◌then◌else◌, true, Option, none, some, List, [],
  ◌∷◌, any, length, Text, Bytes, text_eq, text_eq_iff, join_path, arith, Bool-cases, Option-cases,
}
use custom_file_operation_pr.Prelude.Dict.{Dict, lookup, insert}
use custom_file_operation_pr.Prelude.Action.{Result, ok, err}
use custom_file_operation_pr.Errors.{Exception, file_not_found_error}
use custom_file_operation_pr.Files.Disk.{Disk, is_directory, put_file}
use custom_file_operation_pr.Files.Tree.{below}

pub record StorageUsage : Type 0 where
  pub storage_used : ℕ
  pub files_made : ℕ
  pub storage_details : Dict ℕ

-- The name of a file that stands right in a directory.
unfoldable pub entry_name : (directory path : Text) → Option Text
unfolding below
entry_name directory path = elim (below directory path) [
  | none ↦ none
  | some name ↦ if any (λ c. c == b'/') name then none else some name
]

-- `os.scandir(directory)`, its files with their sizes
unfoldable pub file_entries : (directory : Text) → Dict Bytes → List (Text × ℕ)
unfolding entry_name
file_entries directory [] = []
file_entries directory ((path, content) ∷ files) =
    let rest = file_entries directory files in
    elim (entry_name directory path) [ none ↦ rest | some name ↦ (name, length content) ∷ rest ]

-- The loop, which adds up the sizes and enters each name in a dict.
unfoldable pub add_up : List (Text × ℕ) → (storage : ℕ) → Dict ℕ → ℕ × Dict ℕ
add_up [] storage file_storage_data = (storage, file_storage_data)
add_up ((name, file_size) ∷ entries) storage file_storage_data =
    add_up entries (storage + file_size) (insert name file_size file_storage_data)

unfoldable pub get_local_storage_data : (root user : Text) → Disk → Result Exception StorageUsage
unfolding file_entries add_up
get_local_storage_data root user d =
    let directory = join_path root user in
    let (storage, file_storage_data) = add_up (file_entries directory d.files) 0 [] in
    if is_directory directory d
    then ok (record {
      storage_used = storage;
      files_made = length file_storage_data;
      storage_details = file_storage_data;
    })
    else err file_not_found_error

abbrev sum_sizes : List (Text × ℕ) → ℕ
sum_sizes [] = 0
sum_sizes ((name, size) ∷ entries) = size + sum_sizes entries

add_up-sum :
    (entries : List (Text × ℕ)) (storage : ℕ) (file_storage_data : Dict ℕ)
    → (add_up entries storage file_storage_data).0 ≡ storage + sum_sizes entries
unfolding add_up
add_up-sum [] storage m = omega arith
add_up-sum ((name, size) ∷ entries) storage m =
    omega (arith, add_up-sum entries (storage + size) (insert name size m))

abbrev pub size_of : Option Bytes → ℕ
size_of none = 0
size_of (some content) = length content

-- A file's new content takes the place of its old one in the sum.
sum_sizes-insert :
    (directory path : Text) (content : Bytes) (files : Dict Bytes) {name : Text}
    → entry_name directory path ≡ some name
    → sum_sizes (file_entries directory (insert path content files)) + size_of (lookup path files)
      ≡ sum_sizes (file_entries directory files) + length content
unfolding file_entries insert lookup
sum_sizes-insert directory path content [] {name} h = ground arith
sum_sizes-insert directory path content ((other, old) ∷ files) {name} h =
    elim (Bool-cases (text_eq other path)) [
      | inl same ↦
          (let eq = (text_eq_iff other path).0 same in
            let named = ap (entry_name directory) eq ∙ h in ground arith)
      | inr other_path ↦ elim (Option-cases (entry_name directory other)) [
        | inl outside ↦
            ground (arith, sum_sizes-insert directory path content files {name = name} h)
        | inr (entry, e) ↦
            ground (arith, sum_sizes-insert directory path content files {name = name} h)
      ]
    ]

sum_sizes-elsewhere :
    (directory path : Text) (content : Bytes) (files : Dict Bytes)
    → entry_name directory path ≡ none
    → file_entries directory (insert path content files) ≡ file_entries directory files
unfolding file_entries insert
sum_sizes-elsewhere directory path content [] h = ground arith
sum_sizes-elsewhere directory path content ((other, old) ∷ files) h =
    elim (Bool-cases (text_eq other path)) [
      | inl same ↦
          (let eq = (text_eq_iff other path).0 same in
            let named = ap (entry_name directory) eq ∙ h in ground arith)
      | inr other_path ↦ ground (arith, sum_sizes-elsewhere directory path content files h)
    ]

-- When a file right in a user's directory gets a new content, the figure of the user's storage
-- grows by the bytes that it got, and shrinks by those that it had; the file may be a new one.
pub get_local_storage_data-put_file :
    (root user path : Text) (content : Bytes) (d : Disk) {name : Text}
    → is_directory (join_path root user) d ≡ true
    → entry_name (join_path root user) path ≡ some name
    → (before : StorageUsage) × (after : StorageUsage) × (get_local_storage_data root user d
        ≡ ok before)
      × (get_local_storage_data root user (put_file path content d) ≡ ok after)
      × (after.storage_used + size_of (lookup path d.files) ≡ before.storage_used + length content)
unfolding get_local_storage_data
get_local_storage_data-put_file root user path content d {name} there named =
    let directory = join_path root user in
    let old = add_up (file_entries directory d.files) 0 [] in
    let new = add_up (file_entries directory (insert path content d.files)) 0 [] in
    (
      record { storage_used = old.0; files_made = length old.1; storage_details = old.1 },
      record { storage_used = new.0; files_made = length new.1; storage_details = new.1 },
      rw there refl,
      rw there refl,
      omega (
        arith,
        add_up-sum (file_entries directory d.files) 0 [],
        add_up-sum (file_entries directory (insert path content d.files)) 0 [],
        sum_sizes-insert directory path content d.files {name = name} named,
      ),
    )
