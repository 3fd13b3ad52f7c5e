-- ===== src/Files/Locks.antt =====
-- `acquire_file_lock` of server/file_ops/base_operations.py. No lock expires within a call.
use custom_file_operation_pr.Prelude.{
  ℕ, zero, suc, if◌then◌else◌, Bool, true, Option, none, some, Text, text_eq,
}
use custom_file_operation_pr.Prelude.Dict.{Dict, setdefault}

-- One round of the loop of `acquire_file_lock` for each attempt that is left; `others` is what the
-- other tasks do to the locks while this one sleeps. `none` is a loop that ran out of attempts.
unfoldable pub acquire_file_lock :
    (attempts : ℕ)
    → (filename requestor : Text) → (others : ℕ → Dict Text → Dict Text) → Dict Text
    → Option Bool × Dict Text
unfolding setdefault
acquire_file_lock zero filename requestor others locks = (none, locks)
acquire_file_lock (suc attempts) filename requestor others locks =
    let (locks', holder) = setdefault filename requestor locks in
    let again =
      acquire_file_lock attempts filename requestor (λ i. others (suc i)) (others 0 locks') in
    if text_eq holder requestor then (some true, locks') else again
