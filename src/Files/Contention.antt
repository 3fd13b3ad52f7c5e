-- ===== src/Files/Contention.antt =====
-- Who gets the lock on a file.
use custom_file_operation_pr.Prelude.{
  ℕ, zero, suc, min, ltb, if◌then◌else◌, ◌≡◌, ◌≢◌, refl, ◌∙◌, ap, Bool, true, false, none, some,
  Text, Bytes, ◌<◌, lt→ltb, text_eq, text_eq_iff, text_eq_refl, Option-cases, Bool-cases, inl, inr,
  arith,
}
use custom_file_operation_pr.Prelude.Dict.{
  Dict, lookup, setdefault-free, setdefault-held, lookup-insert_self,
}
use custom_file_operation_pr.Prelude.Int.{ℤ}
use custom_file_operation_pr.Prelude.Action.{ok, err, bind-err}
use custom_file_operation_pr.Errors.{file_contested}
use custom_file_operation_pr.Models.Request.{
  BaseHeaderComponent, BaseAuthComponent, BaseFileComponent,
}
use custom_file_operation_pr.Models.Responses.{ServerConfig}
use custom_file_operation_pr.Files.Buffers.{FileState}
use custom_file_operation_pr.Files.State.{FileServer, on_files}
use custom_file_operation_pr.Files.Handlers.{path_of}
use custom_file_operation_pr.Files.Amendment.{contend, max_attempts, amend_locked, amend_file}
use custom_file_operation_pr.Files.Locks.{acquire_file_lock}

-- Nobody else holds the lock.
abbrev pub is_free : (filename requestor : Text) → Dict Text → Bool
is_free filename requestor locks = elim (lookup filename locks) [
  | none ↦ true
  | some holder ↦ text_eq holder requestor
]

-- The lock is free for the requestor at the start of one of the rounds, if nobody but the other
-- tasks touches the locks.
unfoldable pub comes_free :
    (attempts : ℕ)
    → (filename requestor : Text) → (others : ℕ → Dict Text → Dict Text) → Dict Text
    → Bool
comes_free zero filename requestor others locks = false
comes_free (suc attempts) filename requestor others locks =
    let later = comes_free attempts filename requestor (λ i. others (suc i)) (others 0 locks) in
    if is_free filename requestor locks then true else later

-- A request for the lock gets it just if the lock comes free for the requestor within the attempts,
-- and only the requestor holds the lock after it; otherwise the request ends without an answer.
pub acquire_file_lock_iff :
    (attempts : ℕ) (filename requestor : Text) (others : ℕ → Dict Text → Dict Text)
    (locks : Dict Text)
    → let (answer, locks') = acquire_file_lock attempts filename requestor others locks in
      (answer ≡ (if comes_free attempts filename requestor others locks then some true else none))
      × (answer ≡ some true → lookup filename locks' ≡ some requestor)
unfolding acquire_file_lock comes_free
acquire_file_lock_iff zero filename requestor others locks = (refl, λ h. cc)
acquire_file_lock_iff (suc attempts) filename requestor others locks =
    elim (Option-cases (lookup filename locks)) [
      | inl free ↦
          rw
            (
              setdefault-free filename requestor locks free,
              comes_free,
              is_free,
              free,
              text_eq_refl requestor,
            )
            (refl, λ _. lookup-insert_self filename requestor locks)
      | inr (holder, held) ↦ elim (Bool-cases (text_eq holder requestor)) [
        | inl own ↦
            rw (setdefault-held filename requestor locks held, comes_free, is_free, held, own)
              (refl, λ _. held ∙ ap some ((text_eq_iff holder requestor).0 own))
        | inr other ↦
            rw (setdefault-held filename requestor locks held, comes_free, is_free, held, other)
              (acquire_file_lock_iff attempts filename requestor (λ i. others (suc i))
                (others 0 locks))
      ]
    ]

-- The value that the wait ends with is not looked at: a wait that runs out of attempts before the
-- timeout goes on as if it had the lock.
contend-raises :
    (fpath identity : Text) (patience : ℕ) (others : ℕ → Dict Text → Dict Text) (s : FileState)
    → comes_free (min patience max_attempts) fpath identity others s.file_locks ≡ false
    → (contend fpath identity patience others s).0
      ≡ (if ltb patience max_attempts then err file_contested else ok tt)
unfolding contend
contend-raises fpath identity patience others s never =
    let (answer, _) =
      acquire_file_lock_iff (min patience max_attempts) fpath identity others s.file_locks in
    rw (answer, never) refl

contend-disk :
    (fpath identity : Text) (patience : ℕ) (others : ℕ → Dict Text → Dict Text) (s : FileState)
    → ((contend fpath identity patience others s).1.disk ≡ s.disk)
      × ((contend fpath identity patience others s).1.amendment_cache ≡ s.amendment_cache)
unfolding contend
contend-disk fpath identity patience others s = (refl, refl)

-- Where the lock on a file does not come free for a user who is not its owner, in as many rounds as
-- there are before the timeout, and these are fewer than the attempts of `acquire_file_lock`, the
-- amendment raises FileContested, and the disk and the open writers are as they were.
pub amend_file-contested :
    (header : BaseHeaderComponent) (auth : BaseAuthComponent) (file : BaseFileComponent)
    (config : ServerConfig) (patience : ℕ) (others : ℕ → Dict Text → Dict Text) (new : Bytes)
    (file_size : ℤ) (s : FileServer)
    → file.subject_file_owner ≢ auth.identity
    → patience < max_attempts
    → comes_free patience (path_of header auth file config) auth.identity others s.files.file_locks
      ≡ false
    → let (r, s') = amend_file header auth file config patience others new file_size s in
      (r ≡ err file_contested)
      × (s'.files.disk ≡ s.files.disk)
      × (s'.files.amendment_cache ≡ s.files.amendment_cache)
      × (s'.storage ≡ s.storage)
unfolding amend_file
amend_file-contested header auth file config patience others new file_size s apart soon never =
    let fpath = path_of header auth file config in
    let other : text_eq file.subject_file_owner auth.identity ≡ false =
      ground (arith, text_eq_iff file.subject_file_owner auth.identity) in
    let wait = contend fpath auth.identity patience others in
    let all_rounds : min patience max_attempts ≡ patience = omega arith in
    let raised : (wait s.files).0 ≡ err file_contested =
      contend-raises fpath auth.identity patience others s.files
        (ap (λ n. comes_free n fpath auth.identity others s.files.file_locks) all_rounds ∙ never)
      ∙ rw (lt→ltb patience max_attempts soon) refl in
    let s1 = record s { files = (wait s.files).1 } in
    let run =
      bind-err (on_files wait) (λ _. amend_locked header auth file config new file_size)
        (ap (λ r. (r, s1)) raised) in
    let (disk, writers) = contend-disk fpath auth.identity patience others s.files in
    rw (other, run) (refl, disk, writers, refl)
