-- ===== src/Tests/Pool.antt =====
-- The connection pool (server/connection_pool.cpp) on concrete queues.
use epoll_gateway.Base.{
  ◌≤◌, true, false, ◌&&◌, [], ◌∷◌, ◌++◌, none, ◌≡◌, refl, arith, length, ltb, if◌then◌else◌,
}
use epoll_gateway.Base.Bytes.{Bytes, ascii, eq_bytes}
use epoll_gateway.Base.Int.{pos, to_string, show_ℕ}
use epoll_gateway.Base.Table.{lookup}
use epoll_gateway.Pool.Defs.{
  PooledConnection, ConnectionPool, max_idle_per_upstream, effective_idle_timeout, pool_key,
  checkout, checkin,
}
use epoll_gateway.Pool.Laws.{idle_of, Checkout, checkout-Checkout, checkin_lem}
use epoll_gateway.Pool.Identity.{UpstreamTlsOptions, policy, IsPlain, pool_key-injective}

abbrev old_socket : PooledConnection
old_socket = record { socket = 4; leftover = []; last_used = 0 }

abbrev new_socket : PooledConnection
new_socket = record { socket = 5; leftover = []; last_used = 90000000000 }

abbrev host : Bytes
host = ascii "10.0.0.1"

abbrev key : Bytes
key = pool_key host (pos 80) []

abbrev pool : ConnectionPool
pool = record { idle = (key, old_socket ∷ new_socket ∷ []) ∷ []; test_idle_timeout = none }

-- After 100 seconds the old connection has expired and the new one has not.
checkout-Checkout_example :
    let (pool', result) = checkout pool host (pos 80) [] 100000000000 in
    Checkout
      (effective_idle_timeout pool)
      100000000000
      (idle_of pool key)
      (idle_of pool' key)
      result
    × (idle_of pool' key ≡ (if eq_bytes key key then idle_of pool' key else idle_of pool key))
checkout-Checkout_example = checkout-Checkout pool host (pos 80) [] 100000000000 key

checkin_lem_example :
    let pool' = checkin pool host (pos 80) [] old_socket 7 in
    let before = idle_of pool key in
    (length (idle_of pool' key) ≤ max_idle_per_upstream)
    × (idle_of pool' key ≡ (
        if eq_bytes key key && ltb (length before) max_idle_per_upstream
        then before ++ record old_socket { last_used = 7 } ∷ []
        else before))
unfolding idle_of lookup eq_bytes pool_key to_string show_ℕ
checkin_lem_example = checkin_lem pool host (pos 80) [] key old_socket 7 (omega arith)

abbrev secured : UpstreamTlsOptions
secured = record {
  enable = true;
  ca_file = ascii "ca.pem";
  server_name = ascii "users.internal";
  skip_verify = false;
}

pool_key-injective_example : (policy secured ≡ policy secured) × (host ≡ host) × (pos 443 ≡ pos 443)
pool_key-injective_example =
    pool_key-injective secured secured host host (pos 443) (pos 443) plain plain refl
  where
    plain : IsPlain secured host
    plain = record { ca_file = refl; server_name = refl; host_bar = refl; host_colon = refl }
