-- ===== src/Process/Events.antt =====
-- Events that one object may set (server/process/events.py), and the end of the server
-- (server/process/control.py).
use custom_file_operation_pr.Prelude.{
  ℕ, ◌==◌, ◌≡◌, if◌then◌else◌, Bool, true, not, List, all, select, map, Text, arith,
}
use custom_file_operation_pr.Prelude.Action.{Action, ok, err}
use custom_file_operation_pr.Errors.{Exception, value_error}

-- An `asyncio.Event` behind its proxy; `holder` is the id of the object that may set it.
pub record ExclusiveEventProxy : Type 0 where
  pub event : Bool
  pub holder : ℕ

unfoldable pub is_set : ExclusiveEventProxy → Bool
is_set p = p.event

-- `caller` is the id of the caller.
unfoldable pub set : (caller : ℕ) → Action Exception ExclusiveEventProxy (Unit {0})
set caller p =
    if not (caller == p.holder) then (err value_error, p) else (ok tt, record p { event = true })

-- The id of the caller, a number, is compared with a weak reference, to which no number is equal.
unfoldable pub clear : (caller : ℕ) → Action Exception ExclusiveEventProxy (Unit {0})
clear caller p = (err value_error, p)

pub data ExitReport : Type 0 where
  all_completed : ExitReport
  timed_out : List Text → ExitReport

-- The report of `system_exit`: the checkpoint events by name, with whether each was set within
-- `CLEANUP_WAITING_PERIOD`.
unfoldable pub system_exit : List (Text × Bool) → ExitReport
system_exit events =
    if all (λ e. e.1) events
    then all_completed
    else timed_out (map (λ e. e.0) (select (λ e. e.1) events))

-- An event that was set stays set: no call of the proxy takes it back.
pub set-clear :
    (caller other : ℕ) (p : ExclusiveEventProxy)
    → (set caller p).0 ≡ ok tt
    → is_set (clear other (set caller p).1).1 ≡ true
unfolding set clear is_set
set-clear caller other p h = ground arith
