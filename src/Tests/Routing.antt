-- ===== src/Tests/Routing.antt =====
-- Routes (include/server/route_utils.h, server/http_handler.cpp) on concrete requests.
use epoll_gateway.Base.{true, false, [], ◌∷◌, ◌++◌, ◌≡◌, ◌↔◌, refl, any}
use epoll_gateway.Base.Bytes.{Bytes, ascii, eq_bytes, strip_last, to_lower_bytes, to_lower}
use epoll_gateway.Base.Table.{insert}
use epoll_gateway.Config.Types.{GatewayRoute, default_route}
use epoll_gateway.Http.Message.{HttpRequest, empty_request}
use epoll_gateway.Routing.Match.{
  match_route, match_from, next_path_segment, take_segment, param_name, bind_segment,
  route_matches_request,
}
use epoll_gateway.Routing.Segments.{segments, match_segments, match_route-segments}
use epoll_gateway.Routing.Hosts.{match_route-wildcard, route_matches-host}
use epoll_gateway.Routing.Resolve.{
  header_or_empty, resolve_route, chosen, first_match, match_request, match_path,
  resolve_route_refines,
}

abbrev user_pattern : Bytes
user_pattern = ascii "/users/{id}"

abbrev user_path : Bytes
user_path = ascii "//users/42/"

user_bound : match_route user_pattern user_path [] ≡ ((ascii "id", ascii "42") ∷ [], true)
unfolding match_route match_from next_path_segment take_segment param_name bind_segment strip_last
    eq_bytes insert
user_bound = refl

match_route-segments_example :
    match_route user_pattern user_path []
    ≡ match_segments (segments user_pattern) (segments user_path) []
unfolding strip_last
match_route-segments_example = match_route-segments user_pattern user_path [] refl

match_route-wildcard_example :
    ((match_route (ascii "/api/" ++ b'*' ∷ []) (ascii "/api/users") []).1 ≡ true)
    ↔ ((rest : Bytes) × (ascii "/api/users" ≡ ascii "/api/" ++ rest))
match_route-wildcard_example = match_route-wildcard (ascii "/api/") (ascii "/api/users") []

abbrev route : GatewayRoute
route = record default_route { host = ascii "Shop.example"; path = user_pattern }

route_matches-host_example :
    route_matches_request route
      (ascii "GET")
      (ascii "SHOP.example" ++ (b':' ∷ ascii "8080"))
      []
      user_path
      []
    ≡ route_matches_request route (ascii "GET") (ascii "shop.example") [] user_path []
unfolding to_lower_bytes to_lower
route_matches-host_example =
    route_matches-host route (ascii "GET") (ascii "shop.example") (ascii "SHOP.example")
      (ascii "8080") [] user_path [] refl refl refl

abbrev request : HttpRequest
request = record empty_request {
  method = ascii "GET";
  path = user_path;
  headers = (ascii "host", ascii "shop.example:443") ∷ [];
}

resolve_route_refines_example :
    let routes = record route { enabled = false } ∷ route ∷ [] in
    let host = header_or_empty (ascii "host") request in
    let tenant = header_or_empty (ascii "x-tenant-id") request in
    (chosen (resolve_route routes request) ≡ first_match (match_request host tenant request) routes)
    × ((resolve_route routes request).path_matched
        ≡ any (λ r. (match_path host tenant request r).1) routes)
resolve_route_refines_example =
    resolve_route_refines (record route { enabled = false } ∷ route ∷ []) request
