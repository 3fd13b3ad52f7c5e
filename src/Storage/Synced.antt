-- ===== src/Storage/Synced.antt =====
-- What reaches the database when the cache is flushed.
use custom_file_operation_pr.Prelude.{
  all, true, false, ℕ, suc, zero, ◌+◌, ◌≡◌, ◌≢◌, refl, inl, inr, Bool, Option, none, some, List, [],
  ◌∷◌, ◌++◌, length, take, drop, Text, text_eq_iff, arith, length-append,
}
use mathlib.Core.List.{append-nil, append_assoc}
use custom_file_operation_pr.Prelude.Int.{ℤ}
use custom_file_operation_pr.Prelude.Dict.{Dict, lookup, IsDict}
use custom_file_operation_pr.Prelude.Action.{Result, Result-cases, ok, err}
use custom_file_operation_pr.Errors.{PgError}
use custom_file_operation_pr.Database.Tables.{Tables, UserRow}
use custom_file_operation_pr.Database.Backend.{Backend, low, ConnectionPriority}
use custom_file_operation_pr.Database.Statements.{find, update_where, is_user, is_file}
use custom_file_operation_pr.Database.Rows.{find-update_where, find-update_where_ne}
use custom_file_operation_pr.Database.Outcomes.{
  From, From-pure, From-execute, From-bind, From-with_connection,
}
use custom_file_operation_pr.Storage.Cache.{StorageData, StorageCache, get_storage_data}
use custom_file_operation_pr.Storage.Flush.{
  executemany, is_empty, set_figures, store_figures, store_sizes, store_all_sizes, done,
  flush_buffer, fill_buffer, sync_round,
}

module _ (u : Text) where
  set_figures-apart :
      (v : Text) (d : StorageData) (users : List UserRow)
      → v ≢ u
      → find (is_user u) (update_where (is_user v) (set_figures d) users) ≡ find (is_user u) users
  set_figures-apart v d users h =
      find-update_where_ne (is_user v) (is_user u) (set_figures d) users (λ y. refl)
        (λ y e. ground (arith, text_eq_iff y.username v, text_eq_iff y.username u))

  store_figures-absent :
      (buffer : Dict StorageData) (t : Tables) {t' : Tables}
      → store_figures buffer t ≡ ok t'
      → lookup u buffer ≡ none
      → find (is_user u) t'.users ≡ find (is_user u) t.users
  unfolding store_figures lookup
  store_figures-absent [] t {t'} h k = ground arith
  store_figures-absent ((v, d) ∷ buffer) t {t'} h k = ground (
    arith,
    text_eq_iff v u,
    set_figures-apart v d t.users,
    store_figures-absent buffer
        (record t { users = update_where (is_user v) (set_figures d) t.users }) {t' = t'},
  )

  store_figures-stored :
      (buffer : Dict StorageData) (t : Tables) {t' : Tables} (d : StorageData) (r : UserRow)
      → store_figures buffer t ≡ ok t'
      → IsDict buffer
      → lookup u buffer ≡ some d
      → find (is_user u) t.users ≡ some r
      → find (is_user u) t'.users ≡ some (set_figures d r)
  unfolding store_figures lookup
  store_figures-stored [] t {t'} d r h keys k f = ground arith
  store_figures-stored ((v, e) ∷ buffer) t {t'} d r h keys k f =
      let t1 = record t { users = update_where (is_user v) (set_figures e) t.users } in
      ground (
        arith,
        text_eq_iff v u,
        set_figures-apart v e t.users,
        find-update_where (is_user u) (set_figures d) t.users {x = r} (λ y. refl) f,
        store_figures-absent buffer t1 {t' = t'},
        store_figures-stored buffer t1 {t' = t'} d r,
        store_figures-stored buffer t1 {t' = t'} d (set_figures e r),
      )

store_sizes-users :
    (username : Text) (sizes : Dict ℤ) (t : Tables) {t' : Tables}
    → store_sizes username sizes t ≡ ok t'
    → t'.users ≡ t.users
unfolding store_sizes
store_sizes-users username [] t {t'} h = ground arith
store_sizes-users username ((file, size) ∷ sizes) t {t'} h = ground (
  arith,
  store_sizes-users username sizes
      (record t {
        files = update_where (is_file username file) (λ r. record r { file_size = size }) t.files;
      })
      {t' = t'},
)

store_all_sizes-users :
    (buffer : Dict StorageData) (t : Tables) {t' : Tables}
    → store_all_sizes buffer t ≡ ok t'
    → t'.users ≡ t.users
unfolding store_all_sizes
store_all_sizes-users [] t {t'} h = ground arith
store_all_sizes-users ((username, d) ∷ buffer) t {t'} h =
    elim (Result-cases (store_sizes username d.file_data t)) [
      | inl (t1, e) ↦ ground (
        arith,
        store_sizes-users username d.file_data t {t' = t1},
        store_all_sizes-users buffer t1 {t' = t'},
      )
      | inr (x, e) ↦ absurd (ground arith)
    ]

done-ok : (r : Result PgError Tables) {t : Tables} {x : Unit {0}} → done r ≡ ok (t, x) → r ≡ ok t
done-ok (ok t) h = ground arith
done-ok (err e) h = cc

-- Both statements went through.
abbrev Flushed : Dict StorageData → Tables → Tables → Type 0
Flushed buffer t t' = (t1 : Tables) × (store_figures buffer t ≡ ok t1) × (t'.users ≡ t1.users)

-- What an `executemany` that returns leaves, whether or not it has anything to write.
From-executemany :
    (nothing : Bool) (run : Tables → Result PgError Tables) (t : Tables)
    {P : Unit {0} → Tables → Type 0}
    → (nothing ≡ true → P tt t)
    → ((t' : Tables) → run t ≡ ok t' → P tt t')
    → From t (executemany nothing run) P
From-executemany true run t idle ran = From-pure tt (idle refl)
From-executemany false run t idle ran =
    From-execute (λ t. done (run t)) (λ t' a e. ran t' (done-ok (run t) e))

store_figures-empty :
    (buffer : Dict StorageData) (t : Tables)
    → is_empty buffer ≡ true
    → store_figures buffer t ≡ ok t
unfolding store_figures
store_figures-empty [] t h = refl
store_figures-empty (e ∷ buffer) t h = ground arith

flush_buffer-Flushed :
    (buffer : Dict StorageData) (b : Backend) {x : Unit {0}}
    → (flush_buffer buffer b).0 ≡ ok x
    → Flushed buffer b.tables (flush_buffer buffer b).1.tables
unfolding flush_buffer
flush_buffer-Flushed buffer b h =
    let sizes : (t1 : Tables)
        → store_figures buffer b.tables ≡ ok t1
        → From t1
            (executemany (all (λ e. is_empty (e.1).file_data) buffer) (store_all_sizes buffer))
            (λ _ t'. Flushed buffer b.tables t') =
      λ t1 stored.
        From-executemany (all (λ e. is_empty (e.1).file_data) buffer) (store_all_sizes buffer) t1
          (λ _. (t1, stored, refl)) (λ t' e. (t1, stored, store_all_sizes-users buffer t1 e)) in
    (From-with_connection {t = b.tables} {P = λ _ t'. Flushed buffer b.tables t'} low (
        From-bind
          {f = λ _.
            executemany (all (λ e. is_empty (e.1).file_data) buffer) (store_all_sizes buffer)}
          (From-executemany (is_empty buffer) (store_figures buffer) b.tables
            (λ nothing. sizes b.tables (store_figures-empty buffer b.tables nothing))
            sizes))).returns
      b refl h

-- A flush that returns writes every user's figures: for a user of the buffer who has an account, a
-- cache that does not know the user then reads back, with the database answering, the counts that
-- were flushed, with no size of a file.
pub get_storage_data-flush_buffer :
    (u : Text) (buffer : Dict StorageData) (b : Backend) (d : StorageData) (r : UserRow)
    (s : StorageCache) (proxy : Option ConnectionPriority) (release_after : Bool)
    → (flush_buffer buffer b).0 ≡ ok tt
    → IsDict buffer
    → lookup u buffer ≡ some d
    → find (is_user u) b.tables.users ≡ some r
    → s.backend.tables ≡ (flush_buffer buffer b).1.tables
    → s.backend.faults ≡ []
    → lookup u s.entries ≡ none
    → (get_storage_data u proxy release_after s).0 ≡ ok (record d { file_data = [] })
unfolding get_storage_data
get_storage_data-flush_buffer u buffer b d r s proxy release_after h keys k f same quiet absent =
    let (t1, stored, users) = flush_buffer-Flushed buffer b h in
    let row = store_figures-stored u buffer b.tables {t' = t1} d r stored keys k f in
    elim proxy [ none ↦ ground arith | some level ↦ ground arith ]

-- The rounds of the background task.
fill_buffer-split :
    (batch room : ℕ) (buffer entries : Dict StorageData)
    → room + length buffer ≡ suc batch
    → fill_buffer batch buffer entries ≡ (buffer ++ take room entries, drop room entries)
unfolding fill_buffer
fill_buffer-split batch zero buffer [] h = ground (arith, append-nil buffer)
fill_buffer-split batch (suc room) buffer [] h = ground (arith, append-nil buffer)
fill_buffer-split batch zero buffer (item ∷ entries) h = ground (arith, append-nil buffer)
fill_buffer-split batch (suc room) buffer (item ∷ entries) h = ground (
  arith,
  append_assoc buffer (item ∷ []) (take room entries),
  length-append buffer (item ∷ []),
  fill_buffer-split batch room (buffer ++ item ∷ []) entries,
)

-- A round of the background task takes the oldest entries, one more than the batch size, out of the
-- cache, whether or not their flush goes through, and does with the back end what a flush of
-- exactly these does.
pub sync_round-take :
    (s : StorageCache)
    → let buffer = take (suc s.flush_batch_size) s.entries in
      ((sync_round s).1.entries ≡ drop (suc s.flush_batch_size) s.entries)
      × ((sync_round s).0 ≡ (flush_buffer buffer s.backend).0)
      × ((sync_round s).1.backend ≡ (flush_buffer buffer s.backend).1)
unfolding sync_round
sync_round-take s =
    let split =
      fill_buffer-split s.flush_batch_size (suc s.flush_batch_size) [] s.entries (omega arith) in
    elim (Result-cases (flush_buffer (take (suc s.flush_batch_size) s.entries) s.backend).0) [
      | inl (a, e) ↦ ground (arith, split)
      | inr (x, e) ↦ ground (arith, split)
    ]
