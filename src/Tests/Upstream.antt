-- ===== src/Tests/Upstream.antt =====
-- The upstream manager (server/upstream_manager.cpp) on concrete configurations.
use epoll_gateway.Base.{◌≤◌, Bool, true, false, [], ◌∷◌, map, some, ◌≡◌, ◌≢◌, refl, arith}
use epoll_gateway.Base.Bytes.{Bytes, ascii, eq_bytes}
use epoll_gateway.Base.Int.{ℤ, pos, to_string, show_ℕ}
use epoll_gateway.Base.Table.{lookup, insert}
use epoll_gateway.Config.Types.{UpstreamServer, default_server, Upstream}
use epoll_gateway.Upstream.Circuit.{closed, allow, succeed, fail}
use epoll_gateway.Upstream.Manager.{
  UpstreamManager, create, circuit_key, circuit_of, allow_request, record_success, record_failure,
  pick_server,
}
use epoll_gateway.Upstream.Breaker.{
  IsValid, phase, counting, spec_allow, spec_fail, admitted, circuit_refines, admitted-le-one,
  circuits_independent, circuit_key-injective,
}
use epoll_gateway.Upstream.Picking.{Picks, pick_server-Picks, pick_server-healthy}
use epoll_gateway.Upstream.Health.{check_health}
use epoll_gateway.Upstream.Probing.{settled, check_health-settled}

abbrev users : Bytes
users = ascii "users"

abbrev orders : Bytes
orders = ascii "orders"

abbrev up_server : UpstreamServer
up_server = record default_server { host = ascii "10.0.0.1" }

abbrev down_server : UpstreamServer
down_server = record default_server { host = ascii "10.0.0.2"; healthy = false }

abbrev user_servers : Upstream
user_servers = record { servers = down_server ∷ up_server ∷ []; algorithm = ascii "round_robin" }

abbrev order_servers : Upstream
order_servers = record { servers = up_server ∷ []; algorithm = ascii "round_robin" }

abbrev manager : UpstreamManager
manager = create (record {
  upstreams = (users, user_servers) ∷ (orders, order_servers) ∷ [];
  routes = [];
  health_check_timeout_ms = pos 500;
})

-- One failure trips a circuit with the threshold 1.
abbrev tripped : UpstreamManager
tripped = record_failure manager users up_server 0 (pos 1)

circuit_refines_example :
    let s = fail closed 7 (pos 2) in
    let (asked, allowed) = allow s 9 (pos 10) in
    (IsValid (pos 2) asked × ((phase asked, allowed) ≡ spec_allow (phase s) 9 (pos 10)))
    × (IsValid (pos 2) (succeed s) × (phase (succeed s) ≡ counting 0))
    × (IsValid (pos 2) (fail s 9 (pos 2))
        × (phase (fail s 9 (pos 2)) ≡ spec_fail (phase s) 9 (pos 2)))
    × (IsValid (pos 2) closed × (phase closed ≡ counting 0))
unfolding fail
circuit_refines_example = circuit_refines (pos 2) (pos 10) 9 (fail closed 7 (pos 2)) valid
  where
    valid : IsValid (pos 2) (fail closed 7 (pos 2))
    valid = record { tripped = λ h. cc (h); quiet = λ _. refl; below = λ _. omega arith }

admitted-le-one_example : admitted tripped users up_server (pos 0) (5 ∷ 6 ∷ 7 ∷ []) ≤ 1
unfolding record_failure circuit_of circuit_key to_string show_ℕ fail lookup insert eq_bytes create
admitted-le-one_example = admitted-le-one tripped users up_server (pos 0) (5 ∷ 6 ∷ 7 ∷ []) refl

circuits_independent_example :
    (circuit_of (allow_request manager users up_server 3 (pos 1)).0 orders
      ≡ circuit_of manager orders)
    × (circuit_of (record_success manager users up_server) orders ≡ circuit_of manager orders)
    × (circuit_of (record_failure manager users up_server 3 (pos 1)) orders
        ≡ circuit_of manager orders)
unfolding circuit_key
circuits_independent_example = circuits_independent manager users orders up_server 3 (pos 1) other
  where
    other : orders ≢ circuit_key users up_server
    other e = cc (e)

circuit_key-injective_example :
    (users ≡ users) × (ascii "10.0.0.1" ≡ ascii "10.0.0.1") × (pos 80 ≡ pos 80)
circuit_key-injective_example =
    circuit_key-injective users users up_server up_server refl refl refl refl refl

pick_server-Picks_example : Picks manager users (down_server ∷ up_server ∷ [])
unfolding create lookup eq_bytes
pick_server-Picks_example = pick_server-Picks manager users user_servers refl (omega arith)

pick_server-healthy_example :
    (s : UpstreamServer) × ((pick_server manager users).1 ≡ some s) × (s.healthy ≡ true)
unfolding create lookup eq_bytes
pick_server-healthy_example =
    pick_server-healthy manager users user_servers 1 up_server refl refl refl (omega arith)

-- Every probe fails.
abbrev unreachable : Bytes → ℤ → Bool
unreachable host port = false

check_health-settled_example :
    lookup orders (check_health unreachable manager).config.upstreams
    ≡ some (record order_servers { servers = map (settled unreachable) (up_server ∷ []) })
unfolding create lookup eq_bytes
check_health-settled_example =
    check_health-settled unreachable manager orders order_servers refl refl
