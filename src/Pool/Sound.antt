-- ===== src/Pool/Sound.antt =====
-- Whom the connections of server/database/connections.py are with, through interleavings of
-- requests, returns and lease timers.
use custom_file_operation_pr.Prelude.{
  ℕ, ◌+◌, ◌≤◌, ◌==◌, if◌then◌else◌, ◌≡◌, ◌≢◌, ◌⊎◌, refl, true, Option, none, some, List, [], ◌∷◌,
  Text, text_eq_refl, count, count-append, arith, List-cases, inl, inr,
}
use custom_file_operation_pr.Prelude.Action.{ok, err}
use custom_file_operation_pr.Errors.{Exception, type_error, timeout_error, permission_error}
use custom_file_operation_pr.Database.Backend.{ConnectionPriority, low, moderate, high}
use custom_file_operation_pr.Pool.Leases.{
  ConnectionProxy, ConnectionPoolManager, pool_of, request_connection, reclaim_connection,
  end_lease_timer, call, enter,
}

-- How often a connection stands in the queues.
abbrev pub queued : ℕ → ConnectionPoolManager → ℕ
queued i m =
    count i m.hp_connection_pool + count i m.mp_connection_pool + count i m.lp_connection_pool

-- One user less.
abbrev pub remove_one : ℕ → List ℕ → List ℕ
remove_one i [] = []
remove_one i (j ∷ js) = if i == j then js else j ∷ remove_one i js

pub count-remove_one :
    (i j : ℕ) (js : List ℕ)
    → 1 ≤ count j js
    → count i (remove_one j js) + (if i == j then 1 else 0) ≡ count i js
count-remove_one i j [] h = absurd (omega arith)
count-remove_one i j (k ∷ ks) h = ground (arith, count-remove_one i j ks)

-- The connections that were handed out and not yet given back stand in `out`.
pub data Step : ConnectionPoolManager → List ℕ → ConnectionPoolManager → List ℕ → Type 0 where
  request :
      {m m' : ConnectionPoolManager} {out : List ℕ} (level : ConnectionPriority)
      (max_lease : Option ℕ) (token : Text) (p : ConnectionProxy)
      → request_connection level max_lease token m ≡ some (ok p, m')
      → Step m out m' (p.conn ∷ out)
  -- a user gives a connection back once, at a time when the queue has room
  give_back :
      {m m' : ConnectionPoolManager} {out : List ℕ} (p : ConnectionProxy)
      → 1 ≤ count p.conn out
      → reclaim_connection p m ≡ (m', true)
      → Step m out m' (remove_one p.conn out)
  timer : {m : ConnectionPoolManager} {out : List ℕ} (i : ℕ) → Step m out (end_lease_timer i m) out

pub record IsSound (m : ConnectionPoolManager) (out : List ℕ) : Type 0 where
  -- no connection is in two queues, or in a queue and in use, or with two users
  pub apart : (i : ℕ) → queued i m + count i out ≤ 1
  -- what is in a queue is leased to nobody
  pub idle : (i : ℕ) → 1 ≤ queued i m → (m.store i).usage_token ≡ none

module _ (m m' : ConnectionPoolManager) where
  request-apart :
      (level : ConnectionPriority) (max_lease : Option ℕ) (token : Text) (p : ConnectionProxy)
      (i : ℕ)
      → request_connection level max_lease token m ≡ some (ok p, m')
      → queued i m' + (if i == p.conn then 1 else 0) ≡ queued i m
  unfolding request_connection
  request-apart high max_lease token p i e = ground arith
  request-apart moderate max_lease token p i e = ground arith
  request-apart low max_lease token p i e = ground arith

  request-idle :
      (level : ConnectionPriority) (max_lease : Option ℕ) (token : Text) (p : ConnectionProxy)
      (i : ℕ)
      → request_connection level max_lease token m ≡ some (ok p, m')
      → i ≢ p.conn
      → m'.store i ≡ m.store i
  unfolding request_connection
  request-idle high max_lease token p i e h = ground arith
  request-idle moderate max_lease token p i e h = ground arith
  request-idle low max_lease token p i e h = ground arith

  reclaim-apart :
      (p : ConnectionProxy) (i : ℕ) (level : ConnectionPriority)
      → (m.store p.conn).priority ≡ level
      → reclaim_connection p m ≡ (m', true)
      → queued i m' ≡ queued i m + (if i == p.conn then 1 else 0)
  unfolding reclaim_connection
  reclaim-apart p i high l e = ground (arith, count-append i m.hp_connection_pool (p.conn ∷ []))
  reclaim-apart p i moderate l e = ground (arith, count-append i m.mp_connection_pool (p.conn ∷ []))
  reclaim-apart p i low l e = ground (arith, count-append i m.lp_connection_pool (p.conn ∷ []))

  reclaim-idle :
      (p : ConnectionProxy) (i : ℕ) (level : ConnectionPriority)
      → (m.store p.conn).priority ≡ level
      → reclaim_connection p m ≡ (m', true)
      → (i ≡ p.conn → (m'.store i).usage_token ≡ none) × (i ≢ p.conn → m'.store i ≡ m.store i)
  unfolding reclaim_connection
  reclaim-idle p i high l e = ground arith
  reclaim-idle p i moderate l e = ground arith
  reclaim-idle p i low l e = ground arith

  request-IsSound :
      (out : List ℕ) (level : ConnectionPriority) (max_lease : Option ℕ) (token : Text)
      (p : ConnectionProxy)
      → request_connection level max_lease token m ≡ some (ok p, m')
      → IsSound m out
      → IsSound m' (p.conn ∷ out)
  request-IsSound out level max_lease token p e s = record {
    apart = λ i. ground (arith, s.apart i, request-apart level max_lease token p i e);
    idle = λ i h. ground (
      arith,
      s.apart i,
      s.idle i,
      request-apart level max_lease token p i e,
      request-idle level max_lease token p i e,
    );
  }

  reclaim-IsSound :
      (out : List ℕ) (p : ConnectionProxy)
      → 1 ≤ count p.conn out
      → reclaim_connection p m ≡ (m', true)
      → IsSound m out
      → IsSound m' (remove_one p.conn out)
  reclaim-IsSound out p held e s =
      let level = (m.store p.conn).priority in
      record {
        apart = λ i.
            omega (
              arith,
              s.apart i,
              reclaim-apart p i level refl e,
              count-remove_one i p.conn out held,
            );
        idle = λ i h. ground (
          arith,
          s.idle i,
          reclaim-apart p i level refl e,
          (reclaim-idle p i level refl e).0,
          (reclaim-idle p i level refl e).1,
        );
      }

timer-IsSound :
    (m : ConnectionPoolManager) (out : List ℕ) (i : ℕ)
    → IsSound m out
    → IsSound (end_lease_timer i m) out
unfolding end_lease_timer
timer-IsSound m out i s = record {
  apart = λ j. s.apart j;
  idle = λ j h. ground (arith, s.idle j h);
}

-- Each step keeps the pool sound.
pub Step-IsSound :
    {m m' : ConnectionPoolManager} {out out' : List ℕ}
    → Step m out m' out'
    → IsSound m out
    → IsSound m' out'
Step-IsSound (request {m} {m'} {out} level max_lease token p e) s =
    request-IsSound m m' out level max_lease token p e s
Step-IsSound (give_back {m} {m'} {out} p held e) s = reclaim-IsSound m m' out p held e s
Step-IsSound (timer {m} {out} i) s = timer-IsSound m out i s

-- A run of the event loop.
pub data Run (m : ConnectionPoolManager) (out : List ℕ)
    : ConnectionPoolManager → List ℕ → Type 0 where
  start : Run m out m out
  next :
      {m' m'' : ConnectionPoolManager} {out' out'' : List ℕ}
      → Run m out m' out'
      → Step m' out' m'' out''
      → Run m out m'' out''

-- From a sound pool, whatever requests, returns and lease timers come in whatever order, no
-- connection is ever queued twice, queued while in use, or in use by two, and what is queued is
-- leased to nobody, as long as whoever gives a connection back had it and gives it back once, at a
-- time when its queue has room.
pub Run-IsSound :
    {m : ConnectionPoolManager} {out : List ℕ} {m' : ConnectionPoolManager} {out' : List ℕ}
    → IsSound m out
    → Run m out m' out'
    → IsSound m' out'
Run-IsSound s start = s
Run-IsSound s (next r st) = Step-IsSound st (Run-IsSound s r)

queued-head :
    (m : ConnectionPoolManager) (level : ConnectionPriority) (i : ℕ) (rest : List ℕ)
    → pool_of level m ≡ i ∷ rest
    → 1 ≤ queued i m
queued-head m high i rest e = ground arith
queued-head m moderate i rest e = ground arith
queued-head m low i rest e = ground arith

request-idle_head :
    (m : ConnectionPoolManager) (level : ConnectionPriority) (max_lease : Option ℕ) (token : Text)
    {e : Exception} {m' : ConnectionPoolManager}
    → ((i : ℕ) (rest : List ℕ) → pool_of level m ≡ i ∷ rest → (m.store i).usage_token ≡ none)
    → request_connection level max_lease token m ≢ some (err e, m')
unfolding request_connection
request-idle_head m level max_lease token idle = elim (List-cases (pool_of level m)) [
  | inl empty ↦ ground arith
  | inr (i, rest, e) ↦ ground (arith, idle i rest e)
]

-- In every state that a sound one leads to, a request gets a connection or waits: it never finds a
-- queued connection leased, and so never raises.
pub request_connection-ne-err :
    {m : ConnectionPoolManager} {out : List ℕ} {m' m'' : ConnectionPoolManager} {out' : List ℕ}
    (level : ConnectionPriority) (max_lease : Option ℕ) (token : Text) {e : Exception}
    → IsSound m out
    → Run m out m' out'
    → request_connection level max_lease token m' ≢ some (err e, m'')
request_connection-ne-err {m' = m'} level max_lease token s r =
    request-idle_head m' level max_lease token
      (λ i rest e. (Run-IsSound s r).idle i (queued-head m' level i rest e))

-- A connection that was used, given back, and whose lease timer then ran out in the queue fails its
-- next user: the request marks it leased, and the first call through the new proxy still raises
-- `TimeoutError`. (`reclaim_connection` leaves the timer running, and `_set_usage` does not clear
-- the mark that it sets.)
pub call-end_lease_timer :
    (m m' : ConnectionPoolManager) (level : ConnectionPriority) (max_lease : Option ℕ)
    (token : Text) (i : ℕ) (rest : List ℕ) (p : ConnectionProxy)
    → pool_of level m ≡ i ∷ rest
    → (m.store i).usage_token ≡ none
    → request_connection level max_lease token (end_lease_timer i m) ≡ some (ok p, m')
    → (p.conn ≡ i) × (enter p m' ≡ ok tt) × (call p m' ≡ err timeout_error)
unfolding request_connection end_lease_timer call enter
call-end_lease_timer m m' high max_lease token i rest p e idle h =
    ground (arith, text_eq_refl token)
call-end_lease_timer m m' moderate max_lease token i rest p e idle h =
    ground (arith, text_eq_refl token)
call-end_lease_timer m m' low max_lease token i rest p e idle h = ground (arith, text_eq_refl token)

priority-cases : (l : ConnectionPriority) → (l ≡ high) ⊎ ((l ≡ moderate) ⊎ (l ≡ low))
priority-cases high = inl refl
priority-cases moderate = inr (inl refl)
priority-cases low = inr (inr refl)

-- Once a proxy has given its connection back, no call through it or through any older proxy of the
-- connection goes through, and none can enter, until the connection is leased again.
call-reclaim_connection :
    (m : ConnectionPoolManager) (p q : ConnectionProxy)
    → q.conn ≡ p.conn
    → (call q (reclaim_connection p m).0 ≡ err type_error)
      × (enter q (reclaim_connection p m).0 ≡ err permission_error)
unfolding reclaim_connection call enter
call-reclaim_connection m p q e = elim (priority-cases (m.store p.conn).priority) [
  | inl h ↦ ground arith
  | inr (inl h) ↦ ground arith
  | inr (inr h) ↦ ground arith
]
