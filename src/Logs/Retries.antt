-- ===== src/Logs/Retries.antt =====
-- What the retries of a flush come to.
use custom_file_operation_pr.Prelude.{
  ℕ, zero, suc, ◌-◌, ◌≤◌, ◌≡◌, refl, true, Option, none, some, List, [], ◌∷◌, ◌++◌, take, drop,
  arith, take-append-drop,
}
use mathlib.Core.List.{append_assoc, append-nil}
use mathlib.Core.Path.{sym}
use custom_file_operation_pr.Prelude.Action.{ok}
use custom_file_operation_pr.Errors.{Exception, PgError, pg}
use custom_file_operation_pr.Database.Tables.{ActivityLog}
use custom_file_operation_pr.Database.Backend.{ConnectionPriority, low, requested, later_faults}
use custom_file_operation_pr.Logs.Flush.{
  Logger, flush_with_retries, flush_entries, is_recoverable, flush_round,
}

-- The call after the next one goes through as well.
abbrev pub GoesOn : List (Option Exception) → Type 0
GoesOn [] = Unit
GoesOn (none ∷ faults) = Unit
GoesOn (some e ∷ faults) = ⊥

-- Fewer recoverable errors stand ahead than there are attempts, and then two calls that go through.
abbrev pub Recovers : ℕ → List (Option Exception) → Type 0
Recovers zero faults = ⊥
Recovers (suc n) [] = Unit
Recovers (suc n) (none ∷ faults) = GoesOn faults
Recovers (suc n) (some (pg e) ∷ faults) = (is_recoverable e ≡ true) × Recovers n faults
Recovers (suc n) (some _ ∷ faults) = ⊥

-- The state that a failed attempt leaves.
abbrev attempted : ConnectionPriority → (left : ℕ) → Logger → List (Option Exception) → Logger
attempted priority left s rest = record s {
  answered = left;
  backend = record (s.backend) { faults = rest; pool = requested priority ∷ s.backend.pool };
}

-- The flush returns, has written the batch and nothing else, and leaves the queue.
abbrev Flushed : ℕ → List ActivityLog → ConnectionPriority → Logger → Type 0
Flushed retries batch priority s =
    (s' : Logger) × (flush_with_retries retries batch priority s ≡ some (ok tt, s'))
    × (s'.activity_logs ≡ s.activity_logs ++ batch)
    × (s'.log_queue ≡ s.log_queue)

-- The state that a successful attempt leaves.
abbrev flushed :
    ConnectionPriority → (left : ℕ) → List ActivityLog → Logger → List (Option Exception) → Logger
flushed priority left batch s rest = record (attempted priority left s rest) {
  activity_logs = s.activity_logs ++ batch;
}

-- An attempt whose calls go through.
attempt-Flushed :
    (n : ℕ) (batch : List ActivityLog) (priority : ConnectionPriority) (s : Logger) (left : ℕ)
    (faults : List (Option Exception))
    → s.answered ≡ suc left
    → s.backend.faults ≡ faults
    → GoesOn faults
    → GoesOn (later_faults faults)
    → Flushed (suc n) batch priority s
unfolding flush_with_retries
attempt-Flushed n [] priority s left [] answered e h h' =
    (attempted priority left s [], ground arith, sym (append-nil s.activity_logs), refl)
attempt-Flushed n [] priority s left (none ∷ faults) answered e h h' =
    (attempted priority left s faults, ground arith, sym (append-nil s.activity_logs), refl)
attempt-Flushed n (l ∷ batch) priority s left [] answered e h h' =
    (flushed priority left (l ∷ batch) s [], ground arith, refl, refl)
attempt-Flushed n (l ∷ batch) priority s left (none ∷ []) answered e h h' =
    (flushed priority left (l ∷ batch) s [], ground arith, refl, refl)
attempt-Flushed n (l ∷ batch) priority s left (none ∷ none ∷ faults) answered e h h' =
    (flushed priority left (l ∷ batch) s faults, ground arith, refl, refl)
attempt-Flushed n (l ∷ batch) priority s left (none ∷ some x ∷ faults) answered e h h' = absurd h'
attempt-Flushed n batch priority s left (some x ∷ faults) answered e h h' = absurd h

-- An attempt that fails for a recoverable error leaves the rest to the next one.
flush_with_retries-again :
    (n : ℕ) (batch : List ActivityLog) (priority : ConnectionPriority) (s : Logger) (left : ℕ)
    (e : PgError) (rest : List (Option Exception))
    → s.answered ≡ suc left
    → s.backend.faults ≡ some (pg e) ∷ rest
    → is_recoverable e ≡ true
    → flush_with_retries (suc n) batch priority s
      ≡ flush_with_retries n batch priority (attempted priority left s rest)
unfolding flush_with_retries
flush_with_retries-again n [] priority s left e rest answered faults again = ground arith
flush_with_retries-again n (l ∷ batch) priority s left e rest answered faults again = ground arith

-- Where the database's next errors are recoverable, fewer than `retries`, and then an `INSERT` and
-- its `commit` go through, and where at least `retries` requests of the logger for a connection are
-- answered, since each attempt keeps its own for good, `flush_with_retries` returns, and has written
-- the whole batch, in order, and nothing else; the queue is as it was.
pub flush_with_retries-Recovers :
    (retries : ℕ) (batch : List ActivityLog) (priority : ConnectionPriority) (s : Logger)
    → Recovers retries s.backend.faults
    → retries ≤ s.answered
    → (s' : Logger) × (flush_with_retries retries batch priority s ≡ some (ok tt, s'))
      × (s'.activity_logs ≡ s.activity_logs ++ batch)
      × (s'.log_queue ≡ s.log_queue)
flush_with_retries-Recovers retries batch priority s h enough =
    go retries batch priority s s.backend.faults refl h enough
  where
    go :
        (retries : ℕ) (batch : List ActivityLog) (priority : ConnectionPriority) (s : Logger)
        (faults : List (Option Exception))
        → s.backend.faults ≡ faults
        → Recovers retries faults
        → retries ≤ s.answered
        → Flushed retries batch priority s
    go zero batch priority s faults e h enough = absurd h
    go (suc n) batch priority s [] e h enough =
        attempt-Flushed n batch priority s (s.answered - 1) [] (omega arith) e tt tt
    go (suc n) batch priority s (none ∷ faults) e h enough =
        attempt-Flushed n batch priority s (s.answered - 1) (none ∷ faults) (omega arith) e tt h
    go (suc n) batch priority s (some (pg x) ∷ faults) e (again, h) enough =
        let rest = s.answered - 1 in
        let next =
          go n batch priority (attempted priority rest s faults) faults refl h (omega arith) in
        rw (flush_with_retries-again n batch priority s rest x faults (omega arith) e again) next
    go (suc n) batch priority s (some _ ∷ faults) e h enough = absurd (ground arith)

flush_entries-Recovers :
    (retries : ℕ) (entries : List ActivityLog) (s : Logger)
    → Recovers retries s.backend.faults
    → retries ≤ s.answered
    → (s' : Logger) × (flush_entries retries entries s ≡ some (ok tt, s'))
      × (s'.activity_logs ≡ s.activity_logs ++ entries)
      × (s'.log_queue ≡ s.log_queue)
flush_entries-Recovers retries [] s h enough = (s, refl, sym (append-nil s.activity_logs), refl)
flush_entries-Recovers retries (l ∷ entries) s h enough =
    flush_with_retries-Recovers retries (l ∷ entries) low s h enough

-- Where the database's next errors are recoverable, fewer than the logger's retries, and then an
-- `INSERT` and its `commit` go through, and where as many requests of the logger for a connection as
-- it has retries are answered, a round of `flush_logs` returns and loses no entry: the table followed
-- by the queue holds the same entries in the same order as before, the table `batch_size` more of
-- them as far as the queue had so many.
pub flush_round-append :
    (s : Logger)
    → Recovers s.max_retries s.backend.faults
    → s.max_retries ≤ s.answered
    → (s' : Logger) × (flush_round s ≡ some (ok tt, s'))
      × (s'.activity_logs ≡ s.activity_logs ++ take s.batch_size s.log_queue)
      × (s'.activity_logs ++ s'.log_queue ≡ s.activity_logs ++ s.log_queue)
unfolding flush_round
flush_round-append s h enough =
    let batch = take s.batch_size s.log_queue in
    let rest = drop s.batch_size s.log_queue in
    let s1 = record s { log_queue = rest } in
    let (s', returns, written, queue) = flush_entries-Recovers s.max_retries batch s1 h enough in
    let split : batch ++ rest ≡ s.log_queue = take-append-drop s.batch_size s.log_queue in
    (
      s',
      returns,
      written,
      ground (arith, written, queue, append_assoc s.activity_logs batch rest, split),
    )

-- No flush goes without a connection: once none of the logger's requests is answered any more, it
-- waits forever.
flush_with_retries-waits :
    (n : ℕ) (batch : List ActivityLog) (priority : ConnectionPriority) (s : Logger)
    → s.answered ≡ 0
    → flush_with_retries (suc n) batch priority s ≡ none
unfolding flush_with_retries
flush_with_retries-waits n batch priority s over = ground arith
