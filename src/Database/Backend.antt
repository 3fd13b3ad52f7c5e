-- ===== src/Database/Backend.antt =====
-- What a handler works on beside its own state: the tables, the pool of connections, and the
-- logger's queue. Connections are opened with `autocommit=True`, so each statement takes effect at
-- once and a `commit` changes no table.
use custom_file_operation_pr.Prelude.{Option, none, some, List, [], ◌∷◌}
use custom_file_operation_pr.Prelude.Action.{Action, Result, ok, err, modify}
use custom_file_operation_pr.Errors.{Exception, PgError, pg}
use custom_file_operation_pr.Database.Tables.{Tables, ActivityLog}

pub data ConnectionPriority : Type 0 where
  low moderate high : ConnectionPriority

pub data PoolEvent : Type 0 where
  requested reclaimed : ConnectionPriority → PoolEvent

pub record Backend : Type 0 where
  pub tables : Tables
  -- how the statements to come fare: `none` goes through, and so does each after the last entry. Any
  -- exception may come: one of psycopg, or one of the proxy whose lease is over.
  pub faults : List (Option Exception)
  -- the requests and returns of connections, latest first
  pub pool : List PoolEvent
  -- the entries that `enqueue_log` tasks were started for, latest first
  pub activity : List ActivityLog

abbrev pub next_fault : List (Option Exception) → Option Exception
next_fault [] = none
next_fault (f ∷ fs) = f

abbrev pub later_faults : List (Option Exception) → List (Option Exception)
later_faults [] = []
later_faults (f ∷ fs) = fs

abbrev pub Db : Type 0 → Type 0
Db = Action Exception Backend

abbrev pub statement_result :
    {A : Type 0} → Backend → Result PgError (Tables × A) → Result Exception A × Backend
statement_result b (ok (t, a)) = (ok a, record b { tables = t })
statement_result b (err e) = (err (pg e), b)

-- `await cursor.execute(...)`: PostgreSQL may refuse any statement, and so may the proxy, whose lease
-- may be over (`PermissionError`, `TimeoutError`, `TypeError`); the statement then changes nothing.
unfoldable pub execute : {A : Type 0} → (Tables → Result PgError (Tables × A)) → Db A
execute run b =
    let b' = record b { faults = later_faults b.faults } in
    elim (next_fault b.faults) [ some e ↦ (err e, b') | none ↦ statement_result b' (run b.tables) ]

-- `await proxy.commit()`: the statements have taken effect already, but the call may be refused.
abbrev pub commit : Db (Unit {0})
commit = execute (λ t. ok (t, tt))

-- `async with await connection_master.request_connection(level=level) as proxy:` returns the
-- connection however its body ends.
unfoldable pub with_connection : {A : Type 0} → ConnectionPriority → Db A → Db A
with_connection level body b =
    let (r, b') = body (record b { pool = requested level ∷ b.pool }) in
    (r, record b' { pool = reclaimed level ∷ b'.pool })

-- `asyncio.create_task(logger.enqueue_log(log))`
abbrev pub enqueue_log : ActivityLog → Db (Unit {0})
enqueue_log l = modify (λ b. record b { activity = l ∷ b.activity })
