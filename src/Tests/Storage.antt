-- ===== src/Tests/Storage.antt =====
-- The storage figures of one user with one file.
use custom_file_operation_pr.Prelude.{◌≡◌, refl, false, some, none, [], ◌∷◌, Text, text_eq, codes}
use custom_file_operation_pr.Prelude.Int.{pos, ◌+ℤ◌}
use custom_file_operation_pr.Prelude.Dict.{Dict, lookup, IsDict}
use custom_file_operation_pr.Prelude.Action.{ok}
use custom_file_operation_pr.Database.Backend.{execute, with_connection}
use custom_file_operation_pr.Database.Statements.{find, update_where}
use custom_file_operation_pr.Storage.Cache.{
  StorageData, StorageCache, get_storage_data, update_file_size,
}
use custom_file_operation_pr.Storage.Flush.{
  flush_buffer, store_figures, store_sizes, store_all_sizes,
}
use custom_file_operation_pr.Storage.Synced.{get_storage_data-flush_buffer}
use custom_file_operation_pr.Tests.Fixtures.{alice, notes, backend, user_row}

abbrev figures : StorageData
figures = record { filecount = pos 1; storage_used = pos 5; file_data = (notes, pos 5) ∷ [] }

abbrev buffer : Dict StorageData
buffer = (alice, figures) ∷ []

abbrev cache : StorageCache
cache = record { entries = buffer; flush_batch_size = 0; backend = backend }

known : lookup alice cache.entries ≡ some figures
unfolding lookup text_eq
known = refl

size_known : lookup notes figures.file_data ≡ some (pos 5)
unfolding lookup text_eq
size_known = refl

get_storage_data_runs : (get_storage_data alice none false cache).0 ≡ ok figures
unfolding get_storage_data lookup text_eq
get_storage_data_runs = refl

update_file_size_runs : (update_file_size alice (pos 3) none false cache).0 ≡ ok (pos 8)
unfolding update_file_size get_storage_data lookup text_eq ◌+ℤ◌
update_file_size_runs = refl

-- The cache after the update.
abbrev updated : StorageCache
updated = (update_file_size alice (pos 3) none false cache).1

abbrev missing : Text
missing = codes "missing"

flush_buffer_runs : (flush_buffer buffer backend).0 ≡ ok tt
unfolding flush_buffer execute with_connection store_figures store_all_sizes store_sizes
    update_where text_eq
flush_buffer_runs = refl

-- A cache that starts anew after the flush.
abbrev restarted : StorageCache
restarted = record {
  entries = [];
  flush_batch_size = 0;
  backend = record backend { tables = (flush_buffer buffer backend).1.tables };
}

one_key : IsDict buffer
unfolding lookup
one_key = (refl, tt)

get_storage_data-flush_buffer_example :
    (get_storage_data alice none false restarted).0 ≡ ok (record figures { file_data = [] })
unfolding lookup text_eq find
get_storage_data-flush_buffer_example =
    get_storage_data-flush_buffer alice buffer backend figures (user_row alice) restarted none false
      flush_buffer_runs one_key refl refl refl refl refl
