-- ===== src/Tests/Handler.antt =====
-- The HTTP handler (server/http_handler.cpp) on concrete requests and responses.
use epoll_gateway.Base.{
  ◌⊎◌, ℕ, zero, suc, ◌+◌, ◌<◌, ◌≤◌, Bool, true, false, not, ◌&&◌, ◌||◌, List, [], ◌∷◌, ◌++◌, map,
  none, some, ◌≡◌, refl, arith, length, min, any, if◌then◌else◌,
}
use epoll_gateway.Base.Bytes.{Bytes, ascii, contains}
use epoll_gateway.Base.Int.{pos}
use epoll_gateway.Base.Table.{Table, lookup}
use epoll_gateway.Config.Types.{ApiKeyConfig, GatewayRoute, default_route, CompositeDependency}
use epoll_gateway.Http.Message.{HttpRequest, empty_request}
use epoll_gateway.Http.Parser.State.{initial}
use epoll_gateway.Http.Parser.Carried.{has}
use epoll_gateway.Routing.Resolve.{resolve_route}
use epoll_gateway.Client.Headers.{
  BackendError, connection_tokens, is_idempotent, is_transient_backend_error,
}
use epoll_gateway.Client.Request.{forwarded}
use epoll_gateway.Client.Chunks.{ChunkScan, scan_chunked_body}
use epoll_gateway.Client.State.{BackendResponse}
use epoll_gateway.Handler.Headers.{inject_forwarded_headers}
use epoll_gateway.Handler.Identity.{forwarded-inject}
use epoll_gateway.Handler.Reading.{
  Gateway, Connection, Verdict, judge, served_methods, exempt_paths, limit_key, read_pass,
}
use epoll_gateway.Auth.Manager.{create}
use epoll_gateway.Handler.Gates.{HasKey, Spends, key_config, judge-served}
use epoll_gateway.Handler.Carried.{read_pass-carries}
use epoll_gateway.Handler.Responses.{chunked_body}
use epoll_gateway.Handler.Chunking.{scan-chunked_body}
use epoll_gateway.Handler.Writing.{WritevAnswer, Left, concat, send_plain, send_plain_lem}
use epoll_gateway.Handler.Draining.{send_plain-drained}
use epoll_gateway.Handler.Finishing.{tries, tries-bound}
use epoll_gateway.Handler.Composite.{
  Target, Child, Aggregate, Composite, CompositeEvent, all_finished, start_composite,
  start_children, composite_run, finalize_composite,
}
use epoll_gateway.Handler.Outcomes.{outcomes, last_item}
use epoll_gateway.Handler.Children.{needs, asks}
use epoll_gateway.Handler.Joining.{lets_down, composite-answered}

abbrev spoofed : Table Bytes
spoofed = (ascii "x-real-ip", ascii "6.6.6.6") ∷ (ascii "x-forwarded-for", ascii "6.6.6.6") ∷ []

forwarded-inject_example :
    let sent = inject_forwarded_headers spoofed (ascii "1.2.3.4") in
    let tokens = connection_tokens sent in
    (lookup (ascii "x-real-ip") (forwarded tokens sent)
      ≡ (if contains tokens (ascii "x-real-ip") then none else some (ascii "1.2.3.4")))
    × (lookup (ascii "x-forwarded-proto") (forwarded tokens sent)
        ≡ (if contains tokens (ascii "x-forwarded-proto") then none else some (ascii "https")))
forwarded-inject_example = forwarded-inject spoofed (ascii "1.2.3.4") refl

abbrev public_route : GatewayRoute
public_route = record default_route {
  path = ascii "/a";
  auth_required = false;
  rate_limit_policy = ascii "ip";
}

abbrev gateway : Gateway
gateway = record {
  routes = public_route ∷ [];
  api_key_manager = record { keys = [] };
  rate_limiter_manager = record {
    limiters = [];
    last_used = [];
    default_config = record { capacity = 1; refill_per_second = 1 };
  };
  rate_limit_config = record { capacity = 1; refill_per_second = 1 };
}

abbrev request : HttpRequest
request = record empty_request { method = ascii "GET"; path = ascii "/a" }

abbrev user_key : ApiKeyConfig
user_key = record {
  key = ascii "k";
  name = ascii "user";
  rate_limit = record { capacity = 1; refill_per_second = 1 };
  allowed_hosts = [];
  allowed_tenants = [];
}

abbrev guarded_route : GatewayRoute
guarded_route = record public_route { auth_required = true }

abbrev guarded : Gateway
guarded = record gateway { routes = guarded_route ∷ []; api_key_manager = create (user_key ∷ []) }

abbrev keyed_request : HttpRequest
keyed_request = record request { headers = (ascii "x-api-key", ascii "k") ∷ [] }

judge-served_example :
    let (req', manager, verdict) = judge guarded keyed_request (ascii "1.2.3.4") 0 in
    let limit =
      limit_key guarded req' guarded_route
        (ascii "1.2.3.4")
        (key_config (user_key ∷ []) guarded_route req') in
    ((resolve_route guarded.routes keyed_request).route ≡ some guarded_route)
    × (true ≡ true
        → guarded_route.allow_anonymous ≡ false
        → HasKey (user_key ∷ []) guarded_route req')
    × ((contains exempt_paths req'.path ≡ true)
        ⊎ Spends guarded.rate_limiter_manager manager limit.0 limit.1 0)
    × (contains served_methods req'.method ≡ true)
unfolding judge resolve_route epoll_gateway.Routing.Resolve.resolve_from
    epoll_gateway.Routing.Match.route_matches_path epoll_gateway.Routing.Match.host_matches
    epoll_gateway.Base.Bytes.eq_bytes epoll_gateway.Routing.Match.match_route
    epoll_gateway.Base.Bytes.strip_last epoll_gateway.Routing.Match.match_from
    epoll_gateway.Routing.Match.next_path_segment epoll_gateway.Routing.Match.bind_segment
    epoll_gateway.Routing.Match.param_name epoll_gateway.Routing.Match.take_segment
    epoll_gateway.Handler.Reading.pass_gates epoll_gateway.Handler.Reading.should_rate_limit
    contains epoll_gateway.Limits.Clients.try_acquire_locked lookup epoll_gateway.Base.Table.insert
    epoll_gateway.Handler.Reading.limit_and_method epoll_gateway.Handler.Reading.limit_key
    epoll_gateway.Handler.Reading.route_name_of epoll_gateway.Limits.Bucket.create
    epoll_gateway.Limits.Bucket.refill epoll_gateway.Limits.Bucket.try_acquire
    epoll_gateway.Handler.Reading.has_access epoll_gateway.Handler.Reading.extract_api_key
    epoll_gateway.Auth.Manager.authorize epoll_gateway.Auth.Manager.find_constant_time
    epoll_gateway.Auth.Manager.find_from epoll_gateway.Auth.Manager.matches_scope
    epoll_gateway.Auth.Compare.constant_time_equals create epoll_gateway.Auth.Manager.add_keys
    epoll_gateway.Auth.Compare.diff_from epoll_gateway.Auth.Compare.or_byte
    epoll_gateway.Auth.Compare.xor_byte
judge-served_example =
    judge-served guarded (user_key ∷ []) keyed_request (ascii "1.2.3.4") 0 guarded_route refl refl
      refl refl

-- A second request on the connection of a client that sent its key with the first.
abbrev connection : Connection
connection = record {
  parser = initial;
  request = record empty_request { headers = (ascii "x-api-key", ascii "k") ∷ [] };
  read_buf = ascii "GET / HTTP/1.1\r\n\r\n";
  keep_alive = true;
  client_ip = ascii "1.2.3.4";
}

read_pass-carries_example :
    has (ascii "x-api-key") (read_pass gateway connection (ascii "t") (ascii "p") 0).0.request
    ≡ true
unfolding lookup epoll_gateway.Base.Bytes.eq_bytes read_pass epoll_gateway.Http.Parser.Loop.parse
    epoll_gateway.Http.Chars.is_valid_request_line_char
read_pass-carries_example =
    read_pass-carries gateway connection (ascii "t") (ascii "p") (ascii "x-api-key") 0 refl refl

scan-chunked_body_example :
    scan_chunked_body 2 (ascii "HEAD" ++ (chunked_body (ascii "hello") ++ ascii "NEXT")) 4
    ≡ ChunkScan.complete (length (ascii "HEAD" ++ chunked_body (ascii "hello"))) (ascii "hello")
unfolding chunked_body epoll_gateway.Handler.Responses.to_hex
scan-chunked_body_example =
    scan-chunked_body (ascii "HEAD") (ascii "hello") (ascii "NEXT") (omega arith)

abbrev queue : List Bytes
queue = ascii "abc" ∷ ascii "defg" ∷ []

send_plain_lem_example :
    let (written, queue', left) =
      send_plain (WritevAnswer.wrote 3 ∷ WritevAnswer.eagain ∷ []) queue in
    written ++ concat queue' ≡ concat queue
send_plain_lem_example = send_plain_lem (WritevAnswer.wrote 3 ∷ WritevAnswer.eagain ∷ []) queue

abbrev counts : List ℕ
counts = 0 ∷ 1 ∷ 0 ∷ 0 ∷ 0 ∷ 5 ∷ 0 ∷ []

send_plain-drained_example :
    let (written, queue', left) = send_plain (map WritevAnswer.wrote counts) queue in
    (written ≡ ascii "abcdefg") × (queue' ≡ []) × (left ≡ Left.drained)
send_plain-drained_example = send_plain-drained counts queue refl (omega arith)

tries-bound_example :
    let method = ascii "GET" in
    let transient =
      is_transient_backend_error BackendError.read_failed
      && is_transient_backend_error BackendError.connect_failed in
    (tries method (pos 5) [] 0 ≤ (if is_idempotent method then min 6 3 else 1))
    × (tries method (pos 7) (BackendError.read_failed ∷ BackendError.connect_failed ∷ []) 0 ≡ (
        if is_idempotent method && transient
        then 3
        else if is_idempotent method && is_transient_backend_error BackendError.read_failed
        then 2
        else 1))
tries-bound_example =
    tries-bound (ascii "GET") 5 [] BackendError.read_failed BackendError.connect_failed

abbrev users : CompositeDependency
users = record {
  name = ascii "users";
  upstream_name = ascii "u";
  path = ascii "/";
  method = ascii "GET";
  required = true;
  timeout_ms = pos 5;
}

abbrev dependencies : List (CompositeDependency × Target)
dependencies = (users, Target.live) ∷ (record users { required = false }, Target.missing) ∷ []

abbrev good : BackendResponse
good = record { status_code = pos 200; headers = []; body = []; error = BackendError.no_error }

abbrev events : List CompositeEvent
events = CompositeEvent.child_done 0 true good ∷ []

abbrev final_children : Composite → List Child
final_children (Composite.running children) = children
final_children (Composite.answered children joined) = children
final_children Composite.dropped = []

composite-answered_example :
    let children = final_children (composite_run events (start_composite dependencies)) in
    (all_finished children ≡ true)
    × (needs children ≡ asks dependencies)
    × (children ≡ outcomes events (start_children dependencies))
    × ((name : Bytes)
        → lookup name (finalize_composite children).dependencies ≡ last_item name children none)
    × ((finalize_composite children).status_code ≡ (if any lets_down children then 503 else 200))
unfolding composite_run epoll_gateway.Handler.Composite.composite_step start_composite
composite-answered_example =
    composite-answered dependencies events
      (final_children (composite_run events (start_composite dependencies)))
      (finalize_composite (final_children (composite_run events (start_composite dependencies))))
      refl
