-- ===== src/Upstream/Manager.antt =====
-- `UpstreamManager`: the state behind its mutex, and each method as one step on that state.
use epoll_gateway.Base.{
  ℕ, zero, suc, ◌+◌, ◌%◌, Bool, List, [], ◌∷◌, ◌++◌, Option, none, some, length, get_elem?,
  if◌then◌else◌,
}
use epoll_gateway.Base.Bytes.{Bytes}
use epoll_gateway.Base.Int.{ℤ, to_string}
use epoll_gateway.Base.Table.{Table, lookup, insert, get_or}
use epoll_gateway.Config.Types.{UpstreamServer, UpstreamConfig}
use epoll_gateway.Upstream.Circuit.{CircuitState, closed, allow, succeed, fail}

pub record UpstreamManager : Type 0 where
  pub config : UpstreamConfig
  pub round_robin_indices : Table ℕ
  pub health_check_timeout_ms : ℤ
  pub circuit_states : Table CircuitState

-- The constructor.
unfoldable pub create : UpstreamConfig → UpstreamManager
create config = record {
  config = config;
  round_robin_indices = [];
  health_check_timeout_ms = config.health_check_timeout_ms;
  circuit_states = [];
}

unfoldable pub reload : UpstreamManager → UpstreamConfig → UpstreamManager
reload m config = record m {
  config = config;
  health_check_timeout_ms = config.health_check_timeout_ms;
  round_robin_indices = [];
  circuit_states = [];
}

unfoldable pub circuit_key : Bytes → UpstreamServer → Bytes
circuit_key upstream_name server =
    upstream_name ++ (b'|' ∷ (server.host ++ (b':' ∷ to_string server.port)))

-- `circuit_states_[key]`.
unfoldable pub circuit_of : UpstreamManager → Bytes → CircuitState
circuit_of m key = get_or closed (lookup key m.circuit_states)

abbrev set_circuit : UpstreamManager → Bytes → CircuitState → UpstreamManager
set_circuit m key s = record m { circuit_states = insert key s m.circuit_states }

unfoldable pub allow_request :
    UpstreamManager → Bytes → UpstreamServer → ℕ → ℤ → UpstreamManager × Bool
allow_request m name server now recovery_timeout_ms =
    let key = circuit_key name server in
    let (s, allowed) = allow (circuit_of m key) now recovery_timeout_ms in
    (set_circuit m key s, allowed)

unfoldable pub record_success : UpstreamManager → Bytes → UpstreamServer → UpstreamManager
record_success m name server =
    let key = circuit_key name server in set_circuit m key (succeed (circuit_of m key))

unfoldable pub record_failure : UpstreamManager → Bytes → UpstreamServer → ℕ → ℤ → UpstreamManager
record_failure m name server now failure_threshold =
    let key = circuit_key name server in
    set_circuit m key (fail (circuit_of m key) now failure_threshold)

-- The loop over `i`, with `n` rounds left.
unfoldable pub first_healthy : ℕ → ℕ → ℕ → List UpstreamServer → Option UpstreamServer
first_healthy zero i idx servers = none
first_healthy (suc n) i idx servers =
    let rest = first_healthy n (i + 1) idx servers in
    elim (get_elem? servers ((idx + i) % length servers)) [
      | none ↦ none
      | some s ↦ if s.healthy then some s else rest
    ]

abbrev pub index_mod : ℕ
index_mod = 18446744073709551616

-- The index that the next call starts from.
unfoldable pub start_index : UpstreamManager → Bytes → ℕ
start_index m name = get_or 0 (lookup name m.round_robin_indices)

unfoldable pub pick_from : ℕ → List UpstreamServer → Option UpstreamServer
pick_from idx servers = elim (first_healthy (length servers) 0 idx servers) [
  | some s ↦ some s
  | none ↦ get_elem? servers idx
]

-- The call on the servers of a configured upstream; `none` is the exception.
unfoldable pub pick_among :
    UpstreamManager → Bytes → List UpstreamServer → UpstreamManager × Option UpstreamServer
pick_among m name [] = (m, none)
pick_among m name (s ∷ rest) =
    let idx = start_index m name in
    (
      record m { round_robin_indices = insert name ((idx + 1) % index_mod) m.round_robin_indices },
      pick_from (idx % length (s ∷ rest)) (s ∷ rest),
    )

unfoldable pub pick_server : UpstreamManager → Bytes → UpstreamManager × Option UpstreamServer
pick_server m name = elim (lookup name m.config.upstreams) [
  | none ↦ (m, none)
  | some up ↦ pick_among m name up.servers
]
