-- ===== src/Pool/Leases.antt =====
-- `LeasedConnection`, `ConnectionProxy` and `ConnectionPoolManager`. A connection is known by a
-- number, and its object by the store; a queue holds the numbers of the connections in it. Waiting
-- on a queue, a pending lease timer and the closing of a connection at the server belong to the
-- event loop: a step of it is one call below.
use custom_file_operation_pr.Prelude.{
  ℕ, ◌==◌, leb, if◌then◌else◌, Bool, true, false, Option, none, some, List, [], ◌∷◌, ◌++◌, length,
  Text, text_eq, min,
}
use custom_file_operation_pr.Prelude.Action.{Result, ok, err}
use custom_file_operation_pr.Errors.{Exception, type_error, timeout_error, permission_error}
use custom_file_operation_pr.Database.Backend.{ConnectionPriority, low, moderate, high}

pub record LeasedConnection : Type 0 where
  pub lease_duration : ℕ
  pub lease_expired : Bool
  pub in_use : Bool
  pub priority : ConnectionPriority
  pub usage_token : Option Text

pub record ConnectionProxy : Type 0 where
  pub conn : ℕ
  pub token : Text

pub record ConnectionPoolManager : Type 0 where
  pub lease_duration : ℕ
  pub store : ℕ → LeasedConnection
  pub hp_connection_pool : List ℕ
  pub mp_connection_pool : List ℕ
  pub lp_connection_pool : List ℕ
  pub hp_maxsize : ℕ
  pub mp_maxsize : ℕ
  pub lp_maxsize : ℕ

-- A write to the object of one connection.
abbrev pub put_conn : ℕ → LeasedConnection → ConnectionPoolManager → ConnectionPoolManager
put_conn i c m = record m { store = λ j. if j == i then c else m.store j }

-- `_set_usage`, past its check
abbrev pub set_usage : Text → LeasedConnection → LeasedConnection
set_usage token c = record c { usage_token = some token; in_use = true }

abbrev pub reset_usage : LeasedConnection → LeasedConnection
reset_usage c = record c { usage_token = none; in_use = false; lease_expired = false }

-- `begin_lease_timer`, once its sleep is over; `return_to_pool` only resets the usage.
abbrev pub lease_timer : LeasedConnection → LeasedConnection
lease_timer c = elim c.usage_token [
  | none ↦ record c { lease_expired = true }
  | some _ ↦ reset_usage (record c { lease_expired = true })
]

unfoldable pub end_lease_timer : ℕ → ConnectionPoolManager → ConnectionPoolManager
end_lease_timer i m = put_conn i (lease_timer (m.store i)) m

abbrev pub pool_of : ConnectionPriority → ConnectionPoolManager → List ℕ
pool_of high m = m.hp_connection_pool
pool_of moderate m = m.mp_connection_pool
pool_of low m = m.lp_connection_pool

abbrev pub maxsize_of : ConnectionPriority → ConnectionPoolManager → ℕ
maxsize_of high m = m.hp_maxsize
maxsize_of moderate m = m.mp_maxsize
maxsize_of low m = m.lp_maxsize

abbrev pub set_pool : ConnectionPriority → List ℕ → ConnectionPoolManager → ConnectionPoolManager
set_pool high q m = record m { hp_connection_pool = q }
set_pool moderate q m = record m { mp_connection_pool = q }
set_pool low q m = record m { lp_connection_pool = q }

-- `min(self.lease_duration, (max_lease_duration or self.lease_duration))`
abbrev pub lease_for : ℕ → Option ℕ → ℕ
lease_for duration none = duration
lease_for duration (some d) = if d == 0 then duration else min duration d

-- The rest of `request_connection` for the connection that the queue gave.
abbrev pub lease :
    ℕ
    → Option ℕ
    → Text
    → ConnectionPoolManager
    → Result Exception ConnectionProxy × ConnectionPoolManager
lease i max_lease token m = elim (m.store i).usage_token [
  | some _ ↦ (err type_error, m)
  | none ↦ (
    ok (record { conn = i; token = token }),
    put_conn i
        (record (set_usage token (m.store i)) {
          lease_duration = lease_for m.lease_duration max_lease;
        })
        m,
  )
]

-- `none` is a call that waits, on an empty queue. `token` is what `uuid4` gives.
unfoldable pub request_connection :
    ConnectionPriority
    → Option ℕ
    → Text
    → ConnectionPoolManager
    → Option (Result Exception ConnectionProxy × ConnectionPoolManager)
request_connection level max_lease token m = elim (pool_of level m) [
  | [] ↦ none
  | i ∷ rest ↦ some (lease i max_lease token (set_pool level rest m))
]

-- Whether `put` has to wait; a `maxsize` of 0 is no bound.
abbrev pub is_full : ℕ → List ℕ → Bool
is_full maxsize q = if maxsize == 0 then false else leb maxsize (length q)

-- The usage is reset first; `false` says that the `put` then waits. The proxy is one of this
-- manager's, so its check of the manager passes.
unfoldable pub reclaim_connection :
    ConnectionProxy → ConnectionPoolManager → ConnectionPoolManager × Bool
reclaim_connection proxy m =
    let c = m.store proxy.conn in
    let m' = put_conn proxy.conn (reset_usage c) m in
    if is_full (maxsize_of c.priority m) (pool_of c.priority m)
    then (m', false)
    else (set_pool c.priority (pool_of c.priority m ++ proxy.conn ∷ []) m', true)

abbrev pub token_is : Text → Option Text → Bool
token_is t none = false
token_is t (some u) = text_eq t u

-- A method of psycopg's connection, called through the proxy: the connection's `__getattr__` first,
-- then the proxy's.
unfoldable pub call : ConnectionProxy → ConnectionPoolManager → Result Exception (Unit {0})
call proxy m =
    let c = m.store proxy.conn in
    if c.lease_expired
    then err timeout_error
    else if c.in_use
    then (if token_is proxy.token c.usage_token then ok tt else err permission_error)
    else err type_error

-- `__aenter__`
unfoldable pub enter : ConnectionProxy → ConnectionPoolManager → Result Exception (Unit {0})
enter proxy m =
    if token_is proxy.token (m.store proxy.conn).usage_token then ok tt else err permission_error
