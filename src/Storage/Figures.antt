-- ===== src/Storage/Figures.antt =====
-- What a change of a user's figures adds up to.
use custom_file_operation_pr.Prelude.{
  ◌≡◌, refl, ap, inl, inr, Bool, true, false, Option, none, some, [], ◌∷◌, Text, Option-cases,
  arith,
}
use custom_file_operation_pr.Prelude.Int.{ℤ, pos, ◌+ℤ◌, ◌-ℤ◌, is_zero}
use custom_file_operation_pr.Prelude.Dict.{lookup, insert, lookup-insert_self}
use custom_file_operation_pr.Prelude.Action.{Result-cases, ok, err}
use custom_file_operation_pr.Errors.{file_not_found}
use custom_file_operation_pr.Database.Backend.{ConnectionPriority, low, requested}
use custom_file_operation_pr.Database.Statements.{find, is_file}
use custom_file_operation_pr.Storage.Cache.{
  StorageData, StorageCache, known_size, get_storage_data, update_file_size, get_file_size,
  reflect_removed_file,
}

-- A `get_storage_data` that returns, from the cache or from the database, answers with what the
-- cache holds for the user after it.
get_storage_data-lookup :
    (username : Text) (proxy : Option ConnectionPriority) (release_after : Bool) (s : StorageCache)
    {d : StorageData}
    → (get_storage_data username proxy release_after s).0 ≡ ok d
    → lookup username (get_storage_data username proxy release_after s).1.entries ≡ some d
unfolding get_storage_data
get_storage_data-lookup username proxy release_after s {d} h =
    let self = lookup-insert_self username d s.entries in
    elim (Option-cases (lookup username s.entries)) [
      | inl absent ↦ elim proxy [ none ↦ ground (arith, self) | some level ↦ ground (arith, self) ]
      | inr (found, e) ↦ ground arith
    ]

-- A call on a user whom the cache knows reads nothing else.
get_storage_data-hit :
    (username : Text) (proxy : Option ConnectionPriority) (release_after : Bool) (s : StorageCache)
    {d : StorageData}
    → lookup username s.entries ≡ some d
    → get_storage_data username proxy release_after s ≡ (ok d, s)
unfolding get_storage_data
get_storage_data-hit username proxy release_after s {d} h = rw (get_storage_data, h) refl

update_file_size-lookup :
    (username : Text) (diff : ℤ) (proxy : Option ConnectionPriority) (release_after : Bool)
    (s : StorageCache) {n : ℤ}
    → (update_file_size username diff proxy release_after s).0 ≡ ok n
    → (d : StorageData) × (lookup username
          (update_file_size username diff proxy release_after s).1.entries
        ≡ some d)
      × (d.storage_used ≡ n)
unfolding update_file_size
update_file_size-lookup username diff proxy release_after s {n} h =
    elim (Result-cases (get_storage_data username proxy release_after s).0) [
      | inl (d, e) ↦ (
        record d { storage_used = n },
        ground (
          arith,
          lookup-insert_self username (record d { storage_used = d.storage_used +ℤ diff })
              (get_storage_data username proxy release_after s).1.entries,
        ),
        refl,
      )
      | inr (x, e) ↦ absurd (ground arith)
    ]

-- What an update does to a user whom the cache knows.
update_file_size-hit :
    (username : Text) (diff : ℤ) (proxy : Option ConnectionPriority) (release_after : Bool)
    (s : StorageCache) {d : StorageData}
    → lookup username s.entries ≡ some d
    → update_file_size username diff proxy release_after s ≡ (
      ok (d.storage_used +ℤ diff),
      record s {
        entries = insert username (record d { storage_used = d.storage_used +ℤ diff }) s.entries;
      },
    )
unfolding update_file_size
update_file_size-hit username diff proxy release_after s {d} h =
    let hit = get_storage_data-hit username proxy release_after s h in ground (arith, hit)

reflect_removed_file-hit :
    (username : Text) (size : ℤ) (proxy : Option ConnectionPriority) (s : StorageCache)
    {d : StorageData}
    → lookup username s.entries ≡ some d
    → reflect_removed_file username size proxy s ≡ (
      ok (d.storage_used -ℤ size),
      record s {
        entries =
            insert username
              (record d { storage_used = d.storage_used -ℤ size; filecount = d.filecount -ℤ pos 1 })
              s.entries;
      },
    )
unfolding reflect_removed_file
reflect_removed_file-hit username size proxy s {d} h =
    let hit = get_storage_data-hit username proxy true s h in ground (arith, hit)

get_file_size-hit :
    (username file : Text) (proxy : Option ConnectionPriority) (release_after : Bool)
    (s : StorageCache) {d : StorageData} {size : ℤ}
    → lookup username s.entries ≡ some d
    → lookup file d.file_data ≡ some size
    → is_zero size ≡ false
    → get_file_size username file proxy release_after s ≡ (ok size, s)
unfolding get_file_size
get_file_size-hit username file proxy release_after s {d} {size} h k z = ground arith

-- After an update of a user's size that returns, a further one of the same user returns the first
-- one's answer with the second difference added, asks the database nothing, and leaves that sum in
-- the cache.
update_file_size_twice :
    (username : Text) (diff diff' : ℤ) (proxy proxy' : Option ConnectionPriority)
    (release_after release_after' : Bool) (s : StorageCache) {n : ℤ}
    → (update_file_size username diff proxy release_after s).0 ≡ ok n
    → let s' = (update_file_size username diff proxy release_after s).1 in
      let (r, s'') = update_file_size username diff' proxy' release_after' s' in
      (r ≡ ok (n +ℤ diff'))
      × (s''.backend ≡ s'.backend)
      × ((d : StorageData) × (lookup username s''.entries ≡ some d) × (d.storage_used ≡ n +ℤ diff'))
update_file_size_twice username diff diff' proxy proxy' release_after release_after' s {n} h =
    let s' = (update_file_size username diff proxy release_after s).1 in
    let (d, held, used) = update_file_size-lookup username diff proxy release_after s h in
    let again = update_file_size-hit username diff' proxy' release_after' s' held in
    let added = record d { storage_used = d.storage_used +ℤ diff' } in
    rw again (
      ap (λ x. ok (x +ℤ diff')) used,
      refl,
      (added, lookup-insert_self username added s'.entries, ap (λ x. x +ℤ diff') used),
    )

-- A file that grows and is then deleted stays on the user's account: the size that the cache has of
-- the file does not follow an update of the user's size, so the deletion takes off the old one.
-- Here the cache knows the user and a size of the file other than 0, the update adds `diff`, and
-- the deletion asks for the file's size and reflects its removal, as the handler of a deletion does.
pub reflect_removed_file-update_file_size :
    (username file : Text) (diff size : ℤ) (proxy : Option ConnectionPriority)
    (release_after : Bool) (s : StorageCache) (d : StorageData)
    → lookup username s.entries ≡ some d
    → lookup file d.file_data ≡ some size
    → is_zero size ≡ false
    → let s' = (update_file_size username diff proxy release_after s).1 in
      (get_file_size username file proxy release_after s' ≡ (ok size, s'))
      × ((reflect_removed_file username size proxy s').0 ≡ ok (d.storage_used +ℤ diff -ℤ size))
reflect_removed_file-update_file_size username file diff size proxy release_after s d known held z =
    let grown = record d { storage_used = d.storage_used +ℤ diff } in
    let s' = record s { entries = insert username grown s.entries } in
    let stored : lookup username s'.entries ≡ some grown =
      lookup-insert_self username grown s.entries in
    rw (update_file_size-hit username diff proxy release_after s known) (
      get_file_size-hit username file proxy release_after s' stored held z,
      ap (λ x. x.0) (reflect_removed_file-hit username size proxy s' stored),
    )

-- A call of `get_file_size` without a proxy, for a file that the database answers to have no row,
-- raises with the connection that it requested still out: of a user whom the cache knows, and no
-- size other than 0 of the file.
get_file_size-leak :
    (username file : Text) (release_after : Bool) (s : StorageCache) (d : StorageData)
    → lookup username s.entries ≡ some d
    → known_size file (some d) ≡ none
    → find (is_file username file) s.backend.tables.files ≡ none
    → s.backend.faults ≡ []
    → ((get_file_size username file none release_after s).0 ≡ err file_not_found)
      × ((get_file_size username file none release_after s).1.backend.pool
          ≡ requested low ∷ s.backend.pool)
unfolding get_file_size
get_file_size-leak username file release_after s d held unknown missing quiet = ground arith
