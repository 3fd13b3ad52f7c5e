-- ===== src/Storage/Flush.antt =====
-- The writes of the cache to the database: `_flush_buffer`, a round of `background_storage_sync`,
-- and the shutdown. `executemany` sends its statements in one pipeline, which takes effect as a
-- whole.
use custom_file_operation_pr.Prelude.{
  all, List, true, false, ℕ, leb, ltb, if◌then◌else◌, Bool, ◌&&◌, not, [], ◌∷◌, ◌++◌, any, length,
  Text,
}
use custom_file_operation_pr.Prelude.Int.{ℤ, pos, leb_ℤ}
use custom_file_operation_pr.Prelude.Dict.{Dict}
use custom_file_operation_pr.Prelude.Action.{Result, ok, err, ◌>>=◌, ◌>>◌, pure, gets, modify}
use custom_file_operation_pr.Errors.{PgError, other_error}
use custom_file_operation_pr.Database.Tables.{Tables, UserRow}
use custom_file_operation_pr.Database.Backend.{Db, low, execute, with_connection}
use custom_file_operation_pr.Database.Statements.{update_where, is_user, is_file}
use custom_file_operation_pr.Storage.Cache.{StorageData, Storage, on_backend}

-- `CHECK (... >= 0)`, and the range of an `INTEGER`
abbrev pub is_storable : ℤ → Bool
is_storable n = leb_ℤ (pos 0) n && leb_ℤ n (pos 2147483647)

abbrev pub has_user_row : Text → Tables → Bool
has_user_row username t = any (is_user username) t.users

abbrev pub has_file_row : Text → Text → Tables → Bool
has_file_row owner file t = any (is_file owner file) t.files

-- `UPDATE users SET file_count = %s, storage_used = %s WHERE username = %s`
abbrev pub set_figures : StorageData → UserRow → UserRow
set_figures d r = record r { file_count = d.filecount; storage_used = d.storage_used }

unfoldable pub store_figures : Dict StorageData → Tables → Result PgError Tables
store_figures [] t = ok t
store_figures ((username, d) ∷ buffer) t =
    let rest =
      store_figures buffer
        (record t { users = update_where (is_user username) (set_figures d) t.users }) in
    if has_user_row username t && not (is_storable d.filecount && is_storable d.storage_used)
    then err other_error
    else rest

-- `UPDATE files SET file_size = %s WHERE owner = %s AND filename = %s`
unfoldable pub store_sizes : Text → Dict ℤ → Tables → Result PgError Tables
store_sizes username [] t = ok t
store_sizes username ((file, size) ∷ sizes) t =
    let rest = store_sizes username sizes (record t {
      files = update_where (is_file username file) (λ r. record r { file_size = size }) t.files;
    }) in
    if has_file_row username file t && not (is_storable size) then err other_error else rest

abbrev pub and_then :
    Result PgError Tables → (Tables → Result PgError Tables) → Result PgError Tables
and_then (ok t) f = f t
and_then (err e) f = err e

unfoldable pub store_all_sizes : Dict StorageData → Tables → Result PgError Tables
unfolding store_sizes
store_all_sizes [] t = ok t
store_all_sizes ((username, d) ∷ buffer) t =
    and_then (store_sizes username d.file_data t) (store_all_sizes buffer)

abbrev pub done : Result PgError Tables → Result PgError (Tables × Unit {0})
done (ok t) = ok (t, tt)
done (err e) = err e

-- `executemany`: where there is nothing to write, no statement is sent.
abbrev pub executemany : (nothing : Bool) → (Tables → Result PgError Tables) → Db (Unit {0})
executemany nothing run = if nothing then pure tt else execute (λ t. done (run t))

abbrev pub is_empty : {A : Type 0} → List A → Bool
is_empty [] = true
is_empty (x ∷ xs) = false

abbrev pub flush_body : Dict StorageData → Db (Unit {0})
flush_body buffer = do
  executemany (is_empty buffer) (store_figures buffer)
  executemany (all (λ e. is_empty (e.1).file_data) buffer) (store_all_sizes buffer)

unfoldable pub flush_buffer : Dict StorageData → Db (Unit {0})
flush_buffer buffer = with_connection low (flush_body buffer)

-- `while self and len(current_buffer) <= self.flush_batch_size`, oldest entry first: the buffer,
-- and what stays in the cache. The keys of the cache are distinct, so each entry is a new one of
-- the buffer.
unfoldable pub fill_buffer :
    ℕ → Dict StorageData → Dict StorageData → Dict StorageData × Dict StorageData
fill_buffer batch buffer [] = (buffer, [])
fill_buffer batch buffer (item ∷ entries) =
    let more = fill_buffer batch (buffer ++ item ∷ []) entries in
    if leb (length buffer) batch then more else (buffer, item ∷ entries)

-- One round of the task. An exception of the flush ends the task, with the popped entries lost.
unfoldable pub sync_round : Storage (Unit {0})
unfolding fill_buffer
sync_round = do
  filled ← gets (λ s. fill_buffer s.flush_batch_size [] s.entries)
  modify (λ s. record s { entries = filled.1 })
  on_backend (flush_buffer filled.0)

-- `shutdown_handler`, once the shutdown event is set
unfoldable pub shutdown_flush : Storage (Unit {0})
shutdown_flush = do
  entries ← gets (λ s. s.entries)
  if ltb 0 (length entries)
      then (on_backend (flush_buffer entries) >> modify (λ s. record s { entries = [] }))
      else pure tt
