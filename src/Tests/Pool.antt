-- ===== src/Tests/Pool.antt =====
-- A pool with two connections of high priority.
use custom_file_operation_pr.Prelude.{
  if◌then◌else◌, ◌==◌, ◌≡◌, refl, true, false, some, none, [], ◌∷◌, codes, arith,
}
use mathlib.Core.Logic.{◌≢◌}
use custom_file_operation_pr.Prelude.Action.{ok, err}
use custom_file_operation_pr.Errors.{type_error}
use custom_file_operation_pr.Database.Backend.{high}
use custom_file_operation_pr.Pool.Leases.{
  LeasedConnection, ConnectionProxy, ConnectionPoolManager, request_connection, end_lease_timer,
}
use custom_file_operation_pr.Pool.Sound.{
  Step, Run, start, next, IsSound, Run-IsSound, request_connection-ne-err,
}

abbrev conn : LeasedConnection
conn = record {
  lease_duration = 9;
  lease_expired = false;
  in_use = false;
  priority = high;
  usage_token = none;
}

abbrev pool : ConnectionPoolManager
pool = record {
  lease_duration = 9;
  store = λ i. conn;
  hp_connection_pool = 0 ∷ 1 ∷ [];
  mp_connection_pool = [];
  lp_connection_pool = [];
  hp_maxsize = 2;
  mp_maxsize = 1;
  lp_maxsize = 1;
}

abbrev proxy : ConnectionProxy
proxy = record { conn = 0; token = codes "u" }

-- The pool once the first connection is leased.
abbrev leased : ConnectionPoolManager
leased = record pool {
  store =
      λ j. if j == 0 then record conn { usage_token = some (codes "u"); in_use = true } else conn;
  hp_connection_pool = 1 ∷ [];
}

request_runs : request_connection high none (codes "u") pool ≡ some (ok proxy, leased)
unfolding request_connection
request_runs = refl

pool-IsSound : IsSound pool []
pool-IsSound = record { apart = λ i. ground arith; idle = λ i h. refl }

first-Step : Step pool [] leased (0 ∷ [])
first-Step = Step.request high none (codes "u") proxy request_runs

first-Run : Run pool [] leased (0 ∷ [])
first-Run = next start first-Step

Run-IsSound_example : IsSound leased (0 ∷ [])
Run-IsSound_example = Run-IsSound pool-IsSound first-Run

request_connection-ne-err_example :
    request_connection high none (codes "v") leased ≢ some (err type_error, leased)
request_connection-ne-err_example =
    request_connection-ne-err high none (codes "v") pool-IsSound first-Run

-- The pool once the lease timer of the first connection has run out in its queue, and the request
-- that comes after it.
abbrev hit : ConnectionPoolManager
hit = record pool {
  store = λ j.
      if j == 0
      then (record conn { lease_expired = true; usage_token = some (codes "u"); in_use = true })
      else if j == 0
      then record conn { lease_expired = true }
      else conn;
  hp_connection_pool = 1 ∷ [];
}

request_after_timer :
    request_connection high none (codes "u") (end_lease_timer 0 pool) ≡ some (ok proxy, hit)
unfolding request_connection end_lease_timer
request_after_timer = refl
