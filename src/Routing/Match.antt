-- ===== src/Routing/Match.antt =====
-- The matching of a request against a route. A position in a string is what is left of it from
-- there on; `params`, which the callers pass by reference, goes in and comes out.
use epoll_gateway.Base.{
  ℕ, zero, suc, Bool, false, not, ◌&&◌, ◌||◌, [], ◌∷◌, Option, none, some, is_empty, ◌==◌,
  if◌then◌else◌, length,
}
use epoll_gateway.Base.Bytes.{
  Bytes, ascii, eq_bytes, to_lower_bytes, split_at, strip_prefix, strip_last,
}
use epoll_gateway.Base.Table.{Table, insert, is_some}
use epoll_gateway.Config.Types.{GatewayRoute}

unfoldable pub normalize_header_value : Bytes → Bytes
normalize_header_value value =
    let normalized = to_lower_bytes value in
    elim (split_at b':' normalized) [ none ↦ normalized | some (host, port) ↦ host ]

-- From a position that is not a slash to the next slash or the end.
unfoldable pub take_segment : Bytes → Bytes × Bytes
take_segment [] = ([], [])
take_segment (c ∷ s) =
    let (segment, rest) = take_segment s in if c == b'/' then ([], c ∷ s) else (c ∷ segment, rest)

-- The next segment that is not empty, and the position behind it.
unfoldable pub next_path_segment : Bytes → Option (Bytes × Bytes)
next_path_segment [] = none
next_path_segment (c ∷ s) =
    let later = next_path_segment s in if c == b'/' then later else some (take_segment (c ∷ s))

-- The name in a segment `{name}`.
unfoldable pub param_name : Bytes → Option Bytes
param_name [] = none
param_name (c ∷ rest) = if c == b'{' then strip_last b'}' rest else none

-- The parameters with a pattern's segment bound to a path's; `none` is a mismatch.
unfoldable pub bind_segment : Bytes → Bytes → Table Bytes → Option (Table Bytes)
bind_segment pseg sseg params = elim (param_name pseg) [
  | some name ↦ some (insert name sseg params)
  | none ↦ if eq_bytes pseg sseg then some params else none
]

-- The loop of `matchRoute`; each round moves on in the pattern.
unfoldable pub match_from : ℕ → Bytes → Bytes → Table Bytes → Table Bytes × Bool
match_from zero pattern path params = (params, false)
match_from (suc fuel) pattern path params = elim (next_path_segment pattern) [
  | none ↦ (params, not (is_some (next_path_segment path)))
  | some (pseg, pattern') ↦ elim (next_path_segment path) [
    | none ↦ (params, false)
    | some (sseg, path') ↦ elim (bind_segment pseg sseg params) [
      | none ↦ (params, false)
      | some params' ↦ match_from fuel pattern' path' params'
    ]
  ]
]

-- `matchRoute`.
unfoldable pub match_route : Bytes → Bytes → Table Bytes → Table Bytes × Bool
match_route pattern path params = elim (strip_last b'*' pattern) [
  | some prefix ↦ (params, is_some (strip_prefix prefix path))
  | none ↦ match_from (suc (length pattern)) pattern path params
]

-- The test of the host in `routeMatchesPath`.
unfoldable pub host_matches : GatewayRoute → Bytes → Bool
host_matches route host =
    eq_bytes route.host (ascii "*")
    || eq_bytes (normalize_header_value route.host) (ascii "*")
    || eq_bytes (normalize_header_value host) (normalize_header_value route.host)

-- `routeMatchesPath`.
unfoldable pub route_matches_path :
    GatewayRoute → Bytes → Bytes → Bytes → Table Bytes → Table Bytes × Bool
route_matches_path route host tenant path params =
    if not route.enabled
    then (params, false)
    else if not (host_matches route host)
    then (params, false)
    else if not (eq_bytes route.tenant (ascii "*")) && not (eq_bytes route.tenant tenant)
    then (params, false)
    else match_route route.path path params

-- `routeMatchesRequest`.
unfoldable pub route_matches_request :
    GatewayRoute → Bytes → Bytes → Bytes → Bytes → Table Bytes → Table Bytes × Bool
route_matches_request route method host tenant path params =
    let (params', matches) = route_matches_path route host tenant path params in
    if not matches then (params', false) else (
      params',
      is_empty route.method || eq_bytes route.method (ascii "*") || eq_bytes route.method method,
    )
