-- ===== src/Upstream/Health.antt =====
-- `check_health` and the snapshots. `health_probe`, a TCP connection test, is a parameter: the
-- answers of the probes of one round. No `reload` comes between the two critical sections.
use epoll_gateway.Base.{
  ℕ, suc, ◌+◌, Bool, true, false, not, ◌&&◌, List, [], ◌∷◌, ◌++◌, map, none, some, length, modify,
  leb, if◌then◌else◌,
}
use epoll_gateway.Base.Bytes.{Bytes}
use epoll_gateway.Base.Int.{ℤ}
use epoll_gateway.Base.Table.{Table, lookup, insert}
use epoll_gateway.Config.Types.{UpstreamServer, Upstream}
use epoll_gateway.Upstream.Manager.{UpstreamManager, circuit_key}

-- The four branches on a probe's answer.
unfoldable pub update_server : Bool → UpstreamServer → UpstreamServer
update_server ok server =
    if not ok && server.healthy
    then record server { healthy = false; consecutive_failures = server.consecutive_failures + 1 }
    else if ok && not server.healthy
    then record server { healthy = true; consecutive_failures = 0 }
    else if not ok
    then record server { consecutive_failures = server.consecutive_failures + 1 }
    else record server { consecutive_failures = 0 }

pub record ProbeResult : Type 0 where
  pub upstream_name : Bytes
  pub server_index : ℕ
  pub ok : Bool

-- One round of the last loop.
unfoldable pub apply_result : Table Upstream → ProbeResult → Table Upstream
apply_result upstreams r = elim (lookup r.upstream_name upstreams) [
  | none ↦ upstreams
  | some up ↦
      if leb (length up.servers) r.server_index
      then upstreams
      else insert r.upstream_name
          (record up { servers = modify up.servers r.server_index (update_server r.ok) }) upstreams
]

unfoldable pub apply_results : Table Upstream → List ProbeResult → Table Upstream
apply_results upstreams [] = upstreams
apply_results upstreams (r ∷ rest) = apply_results (apply_result upstreams r) rest

module _ (probe : Bytes → ℤ → Bool) where
  -- The targets of one upstream from an index on, probed.
  unfoldable pub probe_servers : Bytes → ℕ → List UpstreamServer → List ProbeResult
  probe_servers name index [] = []
  probe_servers name index (s ∷ rest) =
      record { upstream_name = name; server_index = index; ok = probe s.host s.port }
      ∷ probe_servers name (suc index) rest

  unfoldable pub probe_all : Table Upstream → List ProbeResult
  probe_all [] = []
  probe_all ((name, up) ∷ rest) = probe_servers name 0 up.servers ++ probe_all rest

  unfoldable pub check_health : UpstreamManager → UpstreamManager
  check_health m = record m {
    config = record m.config {
      upstreams = apply_results m.config.upstreams (probe_all m.config.upstreams);
    };
  }

-- `health_snapshot`: the healthy and all servers of each upstream.
unfoldable pub count_healthy : List UpstreamServer → ℕ
count_healthy [] = 0
count_healthy (s ∷ rest) = (if s.healthy then 1 else 0) + count_healthy rest

unfoldable pub health_snapshot : UpstreamManager → Table (ℕ × ℕ)
unfolding count_healthy
health_snapshot m =
    map
      (λ (entry : Bytes × Upstream).
        (entry.0, (count_healthy entry.1.servers, length entry.1.servers)))
      m.config.upstreams

pub record BackendStatus : Type 0 where
  pub host : Bytes
  pub port : ℤ
  pub healthy : Bool
  pub consecutive_failures : ℕ
  pub circuit_open : Bool

-- `status_snapshot`.
unfoldable pub circuit_open : UpstreamManager → Bytes → UpstreamServer → Bool
circuit_open m name server = elim (lookup (circuit_key name server) m.circuit_states) [
  | none ↦ false
  | some s ↦ s.is_open
]

unfoldable pub status_snapshot : UpstreamManager → Table (List BackendStatus)
unfolding circuit_open
status_snapshot m =
    map
      (λ (entry : Bytes × Upstream). (
        entry.0,
        map
            (λ (s : UpstreamServer). record {
              host = s.host;
              port = s.port;
              healthy = s.healthy;
              consecutive_failures = s.consecutive_failures;
              circuit_open = circuit_open m entry.0 s;
            })
            entry.1.servers,
      ))
      m.config.upstreams
