-- ===== src/Routing/Resolve.antt =====
-- `HttpHandler::resolve_route` of server/http_handler.cpp: the first registered route that takes a
-- request, and the methods that the `Allow` header of a 405 answer lists.
use epoll_gateway.Base.{
  Bool, true, false, not, ◌||◌, List, [], ◌∷◌, ◌++◌, Option, none, some, ◌≡◌, refl, arith, is_empty,
  any, if◌then◌else◌,
}
use epoll_gateway.Base.Bytes.{Bytes, ascii, eq_bytes}
use epoll_gateway.Base.Table.{Table, lookup, get_or}
use epoll_gateway.Config.Types.{GatewayRoute}
use epoll_gateway.Http.Message.{HttpRequest}
use epoll_gateway.Routing.Match.{route_matches_path, route_matches_request}

pub record ResolvedRoute : Type 0 where
  pub route : Option GatewayRoute
  pub params : Table Bytes
  pub path_matched : Bool
  pub allow_methods : Bytes

-- `ResolvedRoute matched;`.
abbrev pub unresolved : ResolvedRoute
unresolved = record { route = none; params = []; path_matched = false; allow_methods = [] }

abbrev pub takes_method : GatewayRoute → Bytes → Bool
takes_method route method =
    is_empty route.method || eq_bytes route.method (ascii "*") || eq_bytes route.method method

-- `allow_methods`, with one more method behind a comma.
unfoldable pub add_method : Bytes → Bytes → Bytes
add_method allowed method =
    (if is_empty allowed then [] else allowed ++ ascii ", ")
    ++ (if is_empty method then ascii "*" else method)

-- The loop over the routes, for a host, a tenant and a request.
module _ (host tenant : Bytes) (req : HttpRequest) where
  abbrev pub match_path : GatewayRoute → Table Bytes × Bool
  match_path route = route_matches_path route host tenant req.path []

  unfoldable pub resolve_from : List GatewayRoute → ResolvedRoute → ResolvedRoute
  resolve_from [] matched = matched
  resolve_from (route ∷ rest) matched =
      let (params, matches) = match_path route in
      let noted : ResolvedRoute = record matched {
        path_matched = true;
        allow_methods = add_method matched.allow_methods route.method;
      } in
      let later = resolve_from rest noted in
      let skipped = resolve_from rest matched in
      if not matches
      then skipped
      else if takes_method route req.method
      then record noted { route = some route; params = params }
      else later

abbrev pub header_or_empty : Bytes → HttpRequest → Bytes
header_or_empty name req = get_or [] (lookup name req.headers)

unfoldable pub resolve_route : List GatewayRoute → HttpRequest → ResolvedRoute
resolve_route routes req =
    resolve_from (header_or_empty (ascii "host") req) (header_or_empty (ascii "x-tenant-id") req)
      req routes unresolved

-- The first route that takes the request, with the parameters of its path.
unfoldable pub first_match :
    (GatewayRoute → Table Bytes × Bool) → List GatewayRoute → Option (GatewayRoute × Table Bytes)
first_match matches [] = none
first_match matches (route ∷ rest) =
    let (params, taken) = matches route in
    let later = first_match matches rest in if taken then some (route, params) else later

abbrev pub chosen : ResolvedRoute → Option (GatewayRoute × Table Bytes)
chosen m = elim m.route [ none ↦ none | some route ↦ some (route, m.params) ]

module _ (host tenant : Bytes) (req : HttpRequest) where
  abbrev pub match_request : GatewayRoute → Table Bytes × Bool
  match_request route = route_matches_request route req.method host tenant req.path []

  resolve_from_refines :
      (routes : List GatewayRoute) (matched : ResolvedRoute)
      → matched.route ≡ none
      → (chosen (resolve_from host tenant req routes matched) ≡ first_match match_request routes)
        × ((resolve_from host tenant req routes matched).path_matched
            ≡ (matched.path_matched || any (λ r. (match_path host tenant req r).1) routes))
  unfolding resolve_from first_match route_matches_request
  resolve_from_refines [] matched e = ground arith
  resolve_from_refines (route ∷ rest) matched e =
      let noted : ResolvedRoute = record matched {
        path_matched = true;
        allow_methods = add_method matched.allow_methods route.method;
      } in
      ground (arith, resolve_from_refines rest matched, resolve_from_refines rest noted)

-- `resolve_route` chooses the first registered route that `routeMatchesRequest` accepts, with the
-- parameters of that match, and none if there is none; it reports a matched path exactly if some
-- route takes the path, whatever the method: a 405 is told from a 404.
pub resolve_route_refines :
    (routes : List GatewayRoute) (req : HttpRequest)
    → let host = header_or_empty (ascii "host") req in
      let tenant = header_or_empty (ascii "x-tenant-id") req in
      (chosen (resolve_route routes req) ≡ first_match (match_request host tenant req) routes)
      × ((resolve_route routes req).path_matched
          ≡ any (λ r. (match_path host tenant req r).1) routes)
unfolding resolve_route
resolve_route_refines routes req =
    resolve_from_refines (header_or_empty (ascii "host") req)
      (header_or_empty (ascii "x-tenant-id") req) req routes unresolved refl
