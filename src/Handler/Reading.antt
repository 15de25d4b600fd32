-- ===== src/Handler/Reading.antt =====
-- `handle_read`: the requests of a connection, and the gates in front of their routes.
use epoll_gateway.Base.{
  ℕ, Bool, true, false, not, ◌&&◌, List, [], ◌∷◌, ◌++◌, map, Option, none, some, is_empty, drop,
  if◌then◌else◌,
}
use epoll_gateway.Base.Bytes.{Bytes, ascii, eq_bytes, contains, strip_prefix, to_lower_bytes}
use epoll_gateway.Base.Table.{Table, lookup, insert, get_or}
use epoll_gateway.Config.Types.{ApiKeyConfig, GatewayRoute, RateLimitConfig}
use epoll_gateway.Http.Message.{HttpRequest, empty_request}
use epoll_gateway.Http.Parser.State.{HttpParser, ParseError, reset}
use epoll_gateway.Http.Parser.Loop.{parse}
use epoll_gateway.Auth.Manager.{ApiKeyManager, find_constant_time, authorize}
use epoll_gateway.Limits.Clients.{RateLimiterManager, try_acquire_locked}
use epoll_gateway.Routing.Resolve.{resolve_route, header_or_empty}
use epoll_gateway.Handler.Trace.{annotate}

-- What a worker's handler consults.
pub record Gateway : Type 0 where
  pub routes : List GatewayRoute
  pub api_key_manager : ApiKeyManager
  pub rate_limiter_manager : RateLimiterManager
  pub rate_limit_config : RateLimitConfig

-- The entries of the handler's maps for one socket, as far as `handle_read` uses them.
pub record Connection : Type 0 where
  pub parser : HttpParser
  pub request : HttpRequest
  pub read_buf : Bytes
  pub keep_alive : Bool
  pub client_ip : Bytes

unfoldable pub bearer_key : Table Bytes → Bytes
bearer_key headers = elim (lookup (ascii "authorization") headers) [
  | none ↦ []
  | some value ↦ get_or [] (strip_prefix (ascii "Bearer ") value)
]

unfoldable pub extract_api_key : HttpRequest → Bytes
extract_api_key req = elim (lookup (ascii "x-api-key") req.headers) [
  | some key ↦ key
  | none ↦ bearer_key req.headers
]

abbrev pub exempt_paths : List Bytes
exempt_paths = map ascii ("/healthz" ∷ "/readyz" ∷ "/version" ∷ "/metrics" ∷ [])

-- The limiter's key and its limit.
unfoldable pub limit_key :
    Gateway → HttpRequest → GatewayRoute → Bytes → Option ApiKeyConfig → Bytes × RateLimitConfig
limit_key gateway req route client_ip api_key_cfg =
    let by_ip : Bytes × RateLimitConfig = (ascii "ip:" ++ client_ip, gateway.rate_limit_config) in
    if eq_bytes route.rate_limit_policy (ascii "route")
    then (ascii "route:" ++ route.path ++ ascii ":" ++ req.method, gateway.rate_limit_config)
    else if eq_bytes route.rate_limit_policy (ascii "api_key")
    then elim api_key_cfg [
      | none ↦ by_ip
      | some config ↦ (ascii "api_key:" ++ config.key, config.rate_limit)
    ]
    else by_ip

-- Whether the request is over its limit, with the limiters as they are then.
unfoldable pub should_rate_limit :
    Gateway
    → HttpRequest
    → GatewayRoute
    → Bytes
    → Option ApiKeyConfig
    → ℕ
    → RateLimiterManager × Bool
should_rate_limit gateway req route client_ip api_key_cfg now =
    if contains exempt_paths req.path
    then (gateway.rate_limiter_manager, false)
    else let (key, limit) = limit_key gateway req route client_ip api_key_cfg in
      let (manager, acquired) = try_acquire_locked gateway.rate_limiter_manager key limit now in
      (manager, not acquired)

-- What is done with a complete request: an error with its status, the static files where no route
-- matches, or the route's own handling.
pub data Verdict : Type 0 where
  answer : ℕ → Verdict
  serve_static : Verdict
  serve_route : GatewayRoute → Verdict

abbrev pub needs_key : GatewayRoute → Bool
needs_key route = route.auth_required && not route.allow_anonymous

-- The key is there, and it is good for the route.
unfoldable pub has_access : Gateway → GatewayRoute → HttpRequest → Bool
has_access gateway route req =
    let key = extract_api_key req in
    not (is_empty key)
    && authorize gateway.api_key_manager key route (header_or_empty (ascii "host") req)
        (header_or_empty (ascii "x-tenant-id") req)

abbrev pub served_methods : List Bytes
served_methods = map ascii ("GET" ∷ "HEAD" ∷ "POST" ∷ "PUT" ∷ "DELETE" ∷ [])

unfoldable pub route_name_of : GatewayRoute → Bytes
route_name_of route = if is_empty route.name then route.path else route.name

abbrev pub named : GatewayRoute → HttpRequest → HttpRequest
named route req = record req {
  headers = insert (ascii "x-route-name") (route_name_of route) req.headers;
}

-- The rate limit and the method, behind the check of the key.
unfoldable pub limit_and_method :
    Gateway → HttpRequest → GatewayRoute → Bytes → ℕ → RateLimiterManager × Verdict
limit_and_method gateway req route client_ip now =
    let config =
      if needs_key route
      then find_constant_time gateway.api_key_manager (extract_api_key req)
      else none in
    let (manager, limited) = should_rate_limit gateway req route client_ip config now in
    if limited
    then (manager, Verdict.answer 429)
    else if not (contains served_methods req.method)
    then (manager, Verdict.answer 405)
    else (manager, Verdict.serve_route route)

-- The gates of a matched route, in their order.
unfoldable pub pass_gates :
    Gateway → HttpRequest → GatewayRoute → Bytes → ℕ → RateLimiterManager × Verdict
unfolding limit_and_method
pass_gates gateway req route client_ip now =
    if needs_key route && not (has_access gateway route req)
    then (gateway.rate_limiter_manager, Verdict.answer 401)
    else limit_and_method gateway req route client_ip now

-- A complete and annotated request: the request with its route's name, the limiters, and the verdict.
unfoldable pub judge :
    Gateway → HttpRequest → Bytes → ℕ → HttpRequest × RateLimiterManager × Verdict
judge gateway req client_ip now =
    let resolved = resolve_route gateway.routes req in
    elim resolved.route [
      | none ↦
          if resolved.path_matched
          then (req, gateway.rate_limiter_manager, Verdict.answer 405)
          else (req, gateway.rate_limiter_manager, Verdict.serve_static)
      | some route ↦
          let (manager, verdict) = pass_gates gateway (named route req) route client_ip now in
          (named route req, manager, verdict)
    ]

-- Whether the connection stays open after a request that passes the gates.
unfoldable pub stays_open : Table Bytes → Bool
stays_open headers = elim (lookup (ascii "connection") headers) [
  | none ↦ true
  | some value ↦ not (eq_bytes (to_lower_bytes value) (ascii "close"))
]

-- What a pass of the inner loop does with the bytes that are there: it waits for more, refuses a
-- malformed request, or has a verdict on a complete one.
pub data Pass : Type 0 where
  waits : Pass
  refused : ℕ → Pass
  judged : Verdict → Pass

-- `keep_alive` after the verdict: an error answer sets it, the other verdicts leave it.
unfoldable pub keeps_open : Verdict → Table Bytes → Bool → Bool
unfolding stays_open
keeps_open (Verdict.answer code) headers before = false
keeps_open Verdict.serve_static headers before = before
keeps_open (Verdict.serve_route route) headers before = stays_open headers

abbrev pub refusal : ParseError → Pass
refusal ParseError.no_error = Pass.waits
refusal ParseError.body_too_large = Pass.refused 413
refusal _ = Pass.refused 400

-- `parse` has not completed a request.
unfoldable pub refuse : Connection → Pass → Connection × Pass
refuse conn Pass.waits = (conn, Pass.waits)
refuse conn pass =
    (record conn { parser = reset conn.parser; request = empty_request; keep_alive = false }, pass)

unfoldable pub read_pass :
    Gateway → Connection → Bytes → Bytes → ℕ → Connection × RateLimiterManager × Pass
unfolding keeps_open refuse judge
read_pass gateway conn fresh parent now =
    let a = parse conn.parser conn.request conn.read_buf in
    let read = record conn {
      parser = a.parser;
      request = a.request;
      read_buf = drop a.consumed conn.read_buf;
    } in
    let (req, manager, verdict) =
      judge gateway (annotate fresh parent a.request) conn.client_ip now in
    let kept = record read {
      parser = reset a.parser;
      request = req;
      keep_alive = keeps_open verdict req.headers conn.keep_alive;
    } in
    let (conn', pass) = refuse read (refusal a.parser.parse_error) in
    if a.complete
    then (kept, manager, Pass.judged verdict)
    else (conn', gateway.rate_limiter_manager, pass)
