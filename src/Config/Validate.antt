-- ===== src/Config/Validate.antt =====
-- `Config::validate` of include/server/config.h: the problems of a configuration, in order. An empty
-- list means that it is safe to apply. `inet_pton`, a system call, is a parameter.
use epoll_gateway.Base.{
  ℕ, suc, Bool, true, not, ◌&&◌, ◌||◌, List, [], ◌∷◌, ◌++◌, ◌==◌, ltb, is_empty, if◌then◌else◌,
}
use epoll_gateway.Base.Bytes.{Bytes, ascii, eq_bytes, contains}
use epoll_gateway.Base.Int.{pos, is_nonpos, is_neg, ltb_ℤ, show_ℕ}
use epoll_gateway.Base.Table.{Table, lookup, is_some}
use epoll_gateway.Config.Types.{
  Config, AdminConfig, Upstream, UpstreamServer, GatewayRoute, CompositeDependency, ApiKeyConfig,
}

-- `if (bad) errors.push_back(message);`.
abbrev pub check : Bool → Bytes → List Bytes
check bad message = if bad then message ∷ [] else []

-- The errors of several checks, in order.
unfoldable pub join_errors : List (List Bytes) → List Bytes
join_errors [] = []
join_errors (errors ∷ rest) = errors ++ join_errors rest

-- `empty() || [0] != '/'`.
abbrev pub no_slash : Bytes → Bool
no_slash [] = true
no_slash (c ∷ s) = not (c == b'/')

abbrev pub indexed : Bytes → ℕ → Bytes
indexed name i = name ++ (b'[' ∷ (show_ℕ i ++ b']' ∷ []))

unfoldable pub check_scalars : Config → List Bytes
check_scalars config =
    check (config.port == 0) (ascii "port: must be in [1, 65535]")
    ++ check (is_nonpos config.backlog) (ascii "backlog: must be > 0")
    ++ check (config.max_connections == 0) (ascii "max_connections: must be > 0")
    ++ check (config.max_response_bytes == 0) (ascii "max_response_bytes: must be > 0")
    ++ check (is_nonpos config.keepalive_timeout) (ascii "keepalive_timeout: must be > 0")
    ++ check (is_nonpos config.shutdown_drain_timeout) (ascii "shutdown_drain_timeout: must be > 0")
    ++ check (is_empty config.logging.sensitive_headers)
        (ascii "logging.sensitive_headers: must not be empty")
    ++ check (is_empty config.logging.sensitive_query_params)
        (ascii "logging.sensitive_query_params: must not be empty")
    ++ check (config.cache_max_entries == 0) (ascii "cache_max_entries: must be > 0")
    ++ check (config.cache_max_file_size_mb == 0) (ascii "cache_max_file_size_mb: must be > 0")
    ++ check (config.thread_pool.min_threads == 0) (ascii "thread_pool.min: must be > 0")
    ++ check (ltb config.thread_pool.max_threads config.thread_pool.min_threads)
        (ascii "thread_pool.max: must be >= thread_pool.min")
    ++ check (config.thread_pool.scale_up_threshold == 0)
        (ascii "thread_pool.scale_up: must be > 0")
    ++ check (config.thread_pool.scale_down_threshold == 0)
        (ascii "thread_pool.scale_down: must be > 0")
    ++ check (config.rate_limit_config.capacity == 0) (ascii "rate_limit.capacity: must be > 0")
    ++ check (config.rate_limit_config.refill_per_second == 0)
        (ascii "rate_limit.refill_per_second: must be > 0")
    ++ check (is_empty config.tls.cert_path) (ascii "tls.cert_path: must not be empty")
    ++ check (is_empty config.tls.key_path) (ascii "tls.key_path: must not be empty")

unfoldable pub check_admin_keys : ℕ → List Bytes → List Bytes
check_admin_keys i [] = []
check_admin_keys i (key ∷ rest) =
    check (is_empty key) (indexed (ascii "admin.api_keys") i ++ ascii ": must not be empty")
    ++ check_admin_keys (suc i) rest

unfoldable pub check_admin : (Bytes → Bool) → AdminConfig → List Bytes
check_admin inet_pton admin =
    if not admin.enabled
    then []
    else check (not (inet_pton admin.bind))
        (ascii "admin.bind: '" ++ admin.bind ++ ascii "' is not a valid IPv4 address")
      ++ check (is_empty admin.api_keys)
          (ascii "admin.api_keys: at least one key is required when admin is enabled")
      ++ check_admin_keys 0 admin.api_keys

unfoldable pub check_servers : Bytes → ℕ → List UpstreamServer → List Bytes
check_servers name i [] = []
check_servers name i (s ∷ rest) =
    let at = indexed (ascii "upstreams." ++ name ++ ascii ".servers") i in
    check (is_empty s.host) (at ++ ascii ".host: must not be empty")
    ++ check (is_nonpos s.port || ltb_ℤ (pos 65535) s.port)
        (at ++ ascii ".port: must be in [1, 65535]")
    ++ check
        (not s.tls
          && (not (is_empty s.tls_ca_file)
              || not (is_empty s.tls_server_name)
              || s.tls_skip_verify))
        (at
          ++ ascii
              ": tls_ca_file/tls_server_name/tls_skip_verify require tls (or an https:// host)")
    ++ check_servers name (suc i) rest

unfoldable pub check_upstreams : Table Upstream → List Bytes
check_upstreams [] = []
check_upstreams ((name, up) ∷ rest) = join_errors (
    check (is_empty up.servers)
      (ascii "upstreams." ++ name ++ ascii ": at least one server is required")
    ∷ check (is_empty up.algorithm)
        (ascii "upstreams." ++ name ++ ascii ".algorithm: must not be empty")
    ∷ check_servers name 0 up.servers
    ∷ check_upstreams rest
    ∷ [])

unfoldable pub check_dependencies :
    Table Upstream → Bytes → ℕ → List CompositeDependency → List Bytes
check_dependencies upstreams at i [] = []
check_dependencies upstreams at i (dep ∷ rest) =
    let dep_at = indexed (at ++ ascii ".composite_target.dependencies") i in
    check (is_empty dep.name) (dep_at ++ ascii ".name: must not be empty")
    ++ check (is_empty dep.upstream_name) (dep_at ++ ascii ".upstream_name: must not be empty")
    ++ check (no_slash dep.path) (dep_at ++ ascii ".path: must start with '/'")
    ++ check (is_nonpos dep.timeout_ms) (dep_at ++ ascii ".timeout_ms: must be > 0")
    ++ check (not (is_some (lookup dep.upstream_name upstreams))) (
        dep_at
        ++ ascii ".upstream_name: references unknown upstream '"
        ++ dep.upstream_name
        ++ ascii "'")
    ++ check_dependencies upstreams at (suc i) rest

unfoldable pub check_composite : Table Upstream → Bytes → GatewayRoute → List Bytes
check_composite upstreams at r =
    let target = r.composite_target in
    if not (eq_bytes r.target_type (ascii "composite"))
    then []
    else check (is_empty target.name)
        (at ++ ascii ".composite_target.name: required for target_type=composite")
      ++ check (is_empty target.dependencies)
          (at ++ ascii ".composite_target.dependencies: at least one dependency is required")
      ++ check (is_neg target.total_timeout_ms) (
          at
          ++ ascii
              ".composite_target.total_timeout_ms: must be >= 0 (0 disables the overall deadline)")
      ++ check_dependencies upstreams at 0 target.dependencies

-- What the target type asks for.
unfoldable pub check_target : Table Upstream → Bytes → GatewayRoute → List Bytes
check_target upstreams at r =
    let name = r.upstream_target.name in
    if eq_bytes r.target_type (ascii "upstream")
    then (if is_empty name
        then (at ++ ascii ".upstream_target.name: required for target_type=upstream") ∷ []
        else check (not (is_some (lookup name upstreams))) (
            at
            ++ ascii ".upstream_target.name: references unknown upstream '"
            ++ name
            ++ ascii "'"))
    else check (eq_bytes r.target_type (ascii "static") && is_empty r.static_root)
        (at ++ ascii ".static_root: required for target_type=static")

abbrev pub match_key : GatewayRoute → Bytes
match_key r = r.method ++ (b'|' ∷ (r.host ++ (b'|' ∷ (r.tenant ++ (b'|' ∷ r.path)))))

abbrev pub route_at : ℕ → GatewayRoute → Bytes
route_at i r =
    indexed (ascii "routes") i
    ++ (if is_empty r.name then [] else ascii " (" ++ r.name ++ ascii ")")

-- One route, with the names and the match keys of those before it.
unfoldable pub check_route :
    Table Upstream → List Bytes → List Bytes → ℕ → GatewayRoute → List Bytes
check_route upstreams route_names match_keys i r =
    let at = route_at i r in
    let target = r.upstream_target in
    join_errors (
      (if is_empty r.name
        then (at ++ ascii ".name: must not be empty") ∷ []
        else check (contains route_names r.name)
            (at ++ ascii ".name: duplicate route name '" ++ r.name ++ ascii "'"))
      ∷ check (is_empty r.method) (at ++ ascii ".method: must not be empty")
      ∷ check (no_slash r.path) (at ++ ascii ".path: must start with '/'")
      ∷ check
          (not (
            contains (ascii "local" ∷ ascii "upstream" ∷ ascii "composite" ∷ ascii "static" ∷ [])
              r.target_type))
          (at
            ++ ascii ".target_type: unknown value '"
            ++ r.target_type
            ++ ascii "' (expected local|upstream|composite|static)")
      ∷ check_composite upstreams at r
      ∷ check
          (not (contains (ascii "api_key" ∷ ascii "ip" ∷ ascii "route" ∷ []) r.rate_limit_policy))
          (at
            ++ ascii ".rate_limit_policy: unknown value '"
            ++ r.rate_limit_policy
            ++ ascii "' (expected api_key|ip|route)")
      ∷ check_target upstreams at r
      ∷ check (is_nonpos target.timeout_ms) (at ++ ascii ".upstream_target.timeout_ms: must be > 0")
      ∷ check (is_neg target.max_retries) (at ++ ascii ".upstream_target.max_retries: must be >= 0")
      ∷ check (is_nonpos target.circuit_failure_threshold)
          (at ++ ascii ".upstream_target.circuit_failure_threshold: must be > 0")
      ∷ check (is_nonpos target.circuit_recovery_timeout_ms)
          (at ++ ascii ".upstream_target.circuit_recovery_timeout_ms: must be > 0")
      ∷ check (contains match_keys (match_key r))
          (at ++ ascii ": duplicate route match (method/host/tenant/path): " ++ match_key r)
      ∷ [])

unfoldable pub check_routes :
    Table Upstream → List Bytes → List Bytes → ℕ → List GatewayRoute → List Bytes
check_routes upstreams route_names match_keys i [] = []
check_routes upstreams route_names match_keys i (r ∷ rest) =
    check_route upstreams route_names match_keys i r
    ++ check_routes upstreams (if is_empty r.name then route_names else r.name ∷ route_names)
        (match_key r ∷ match_keys) (suc i) rest

unfoldable pub check_api_keys : List Bytes → ℕ → List ApiKeyConfig → List Bytes
check_api_keys seen_keys i [] = []
check_api_keys seen_keys i (ak ∷ rest) =
    let at = indexed (ascii "api_keys") i in
    (if is_empty ak.key
      then (at ++ ascii ".key: must not be empty") ∷ []
      else check (contains seen_keys ak.key) (at ++ ascii ".key: duplicate api key"))
    ++ check (ak.rate_limit.capacity == 0) (at ++ ascii ".rate_limit.capacity: must be > 0")
    ++ check (ak.rate_limit.refill_per_second == 0)
        (at ++ ascii ".rate_limit.refill_per_second: must be > 0")
    ++ check_api_keys (if is_empty ak.key then seen_keys else ak.key ∷ seen_keys) (suc i) rest

unfoldable pub validate : (Bytes → Bool) → Config → List Bytes
validate inet_pton config = join_errors (
    check_scalars config
    ∷ check_admin inet_pton config.admin
    ∷ check_upstreams config.upstream_config.upstreams
    ∷ check_routes config.upstream_config.upstreams [] [] 0 config.upstream_config.routes
    ∷ check_api_keys [] 0 config.api_keys
    ∷ [])
