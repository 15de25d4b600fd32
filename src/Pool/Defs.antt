-- ===== src/Pool/Defs.antt =====
-- `ConnectionPool` of include/server/connection_pool.h and server/connection_pool.cpp. A socket is
-- a number; time is `steady_clock::now()` in nanoseconds, an argument of each call.
use epoll_gateway.Base.{
  ℕ, ◌+◌, ◌*◌, Bool, List, [], ◌∷◌, ◌++◌, Option, none, some, length, ltb, leb, is_empty,
  if◌then◌else◌,
}
use epoll_gateway.Base.Bytes.{Bytes}
use epoll_gateway.Base.Int.{ℤ, to_string}
use epoll_gateway.Base.Table.{Table, lookup, insert, erase, get_or}

pub record PooledConnection : Type 0 where
  pub socket : ℕ
  pub leftover : Bytes
  pub last_used : ℕ

pub record ConnectionPool : Type 0 where
  pub idle : Table (List PooledConnection)
  pub test_idle_timeout : Option ℕ

abbrev pub max_idle_per_upstream : ℕ
max_idle_per_upstream = 16

-- In seconds.
abbrev pub idle_timeout : ℕ
idle_timeout = 60

unfoldable pub effective_idle_timeout : ConnectionPool → ℕ
effective_idle_timeout pool = get_or idle_timeout pool.test_idle_timeout

unfoldable pub pool_key : Bytes → ℤ → Bytes → Bytes
pool_key host port scheme = scheme ++ (host ++ (b':' ∷ to_string port))

-- `conn.last_used < now - timeout`, with no subtraction.
abbrev pub is_expired : ℕ → ℕ → PooledConnection → Bool
is_expired timeout now conn = ltb (conn.last_used + timeout * 1000000000) now

-- The loop of `checkout`: the first connection that has not expired, and the rest of the queue.
unfoldable pub take_fresh :
    ℕ → ℕ → List PooledConnection → Option (PooledConnection × List PooledConnection)
take_fresh timeout now [] = none
take_fresh timeout now (conn ∷ rest) =
    if is_expired timeout now conn then take_fresh timeout now rest else some (conn, rest)

-- What the loop leaves of the queue goes back, and an empty queue goes away.
unfoldable pub keep_rest :
    ConnectionPool
    → Bytes
    → Option (PooledConnection × List PooledConnection)
    → ConnectionPool × Option PooledConnection
keep_rest pool key none = (record pool { idle = erase key pool.idle }, none)
keep_rest pool key (some (conn, rest)) = (
  record pool { idle = if is_empty rest then erase key pool.idle else insert key rest pool.idle },
  some conn,
)

unfoldable pub checkout :
    ConnectionPool → Bytes → ℤ → Bytes → ℕ → ConnectionPool × Option PooledConnection
checkout pool host port scheme now =
    let key = pool_key host port scheme in
    elim (lookup key pool.idle) [
      | none ↦ (pool, none)
      | some queue ↦ keep_rest pool key (take_fresh (effective_idle_timeout pool) now queue)
    ]

unfoldable pub checkin : ConnectionPool → Bytes → ℤ → Bytes → PooledConnection → ℕ → ConnectionPool
checkin pool host port scheme conn now =
    let key = pool_key host port scheme in
    let queue = get_or [] (lookup key pool.idle) in
    if leb max_idle_per_upstream (length queue)
    then record pool { idle = insert key queue pool.idle }
    else record pool { idle = insert key (queue ++ record conn { last_used = now } ∷ []) pool.idle }

unfoldable pub invalidate : ConnectionPool → Bytes → ℤ → Bytes → ConnectionPool
invalidate pool host port scheme = record pool {
  idle = erase (pool_key host port scheme) pool.idle;
}
