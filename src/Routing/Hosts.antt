-- ===== src/Routing/Hosts.antt =====
-- Star patterns, and hosts: neither a port nor the case of letters decides a match.
use epoll_gateway.Base.{ℕ, true, [], ◌∷◌, ◌++◌, none, some, ◌≡◌, ◌↔◌, refl, ap, ◌∙◌, arith, ◌==◌}
use epoll_gateway.Base.Bytes.{Bytes, to_lower, to_lower_bytes, split_at, strip_prefix, strip_last}
use epoll_gateway.Base.Decimal.{free_of}
use epoll_gateway.Base.Table.{Table, is_some}
use epoll_gateway.Config.Types.{GatewayRoute}
use epoll_gateway.Routing.Match.{
  normalize_header_value, host_matches, route_matches_path, route_matches_request, match_route,
}

strip_last-append : (c : ℕ) (s : Bytes) → strip_last c (s ++ c ∷ []) ≡ some s
unfolding strip_last
strip_last-append c [] = ground arith
strip_last-append c (x ∷ []) = ground arith
strip_last-append c (x ∷ y ∷ s) = rw (strip_last-append c (y ∷ s)) refl

strip_prefix-some :
    (p s : Bytes) → is_some (strip_prefix p s) ≡ true → (rest : Bytes) × (s ≡ p ++ rest)
unfolding strip_prefix
strip_prefix-some [] s h = (s, refl)
strip_prefix-some (x ∷ p) [] h = cc (h)
strip_prefix-some (x ∷ p) (y ∷ s) h =
    let same : y ≡ x = ground arith in
    let (rest, e) = strip_prefix-some p s (ground arith) in (rest, cc (same, e))

strip_prefix-append : (p rest : Bytes) → is_some (strip_prefix p (p ++ rest)) ≡ true
unfolding strip_prefix
strip_prefix-append [] rest = refl
strip_prefix-append (x ∷ p) rest = ground (arith, strip_prefix-append p rest)

strip_prefix_iff :
    (prefix s : Bytes)
    → (is_some (strip_prefix prefix s) ≡ true) ↔ ((rest : Bytes) × (s ≡ prefix ++ rest))
strip_prefix_iff prefix s =
    (strip_prefix-some prefix s, λ (rest, e). rw e (strip_prefix-append prefix rest))

-- A pattern that ends in a star matches exactly the paths that start with what stands before it.
pub match_route-wildcard :
    (prefix path : Bytes) (params : Table Bytes)
    → ((match_route (prefix ++ b'*' ∷ []) path params).1 ≡ true)
      ↔ ((rest : Bytes) × (path ≡ prefix ++ rest))
unfolding match_route
match_route-wildcard prefix path params =
    rw (strip_last-append b'*' prefix, match_route) (strip_prefix_iff prefix path)

to_lower-colon : (c : ℕ) → (to_lower c == b':') ≡ (c == b':')
unfolding to_lower
to_lower-colon c = ground arith

split_at-host :
    (host port : Bytes)
    → free_of b':' host ≡ true
    → split_at b':' (to_lower_bytes host ++ (b':' ∷ port)) ≡ some (to_lower_bytes host, port)
unfolding split_at to_lower_bytes
split_at-host [] port h = refl
split_at-host (c ∷ host) port h = rw (to_lower-colon c) (ground (arith, split_at-host host port))

split_at-bare :
    (host : Bytes) → free_of b':' host ≡ true → split_at b':' (to_lower_bytes host) ≡ none
unfolding split_at to_lower_bytes
split_at-bare [] h = refl
split_at-bare (c ∷ host) h = rw (to_lower-colon c) (ground (arith, split_at-bare host))

to_lower_bytes-append :
    (a b : Bytes) → to_lower_bytes (a ++ b) ≡ to_lower_bytes a ++ to_lower_bytes b
unfolding to_lower_bytes
to_lower_bytes-append [] b = refl
to_lower_bytes-append (c ∷ a) b = ap (◌∷◌ (to_lower c)) (to_lower_bytes-append a b)

normalize-bare :
    (host : Bytes) → free_of b':' host ≡ true → normalize_header_value host ≡ to_lower_bytes host
unfolding normalize_header_value
normalize-bare host h = rw (split_at-bare host h, normalize_header_value) refl

normalize-port :
    (host port : Bytes)
    → free_of b':' host ≡ true
    → normalize_header_value (host ++ (b':' ∷ port)) ≡ to_lower_bytes host
unfolding normalize_header_value
normalize-port host port h =
    let lowered : to_lower_bytes (host ++ (b':' ∷ port))
        ≡ to_lower_bytes host ++ (b':' ∷ to_lower_bytes port) =
      to_lower_bytes-append host (b':' ∷ port) ∙ unfold to_lower_bytes to_lower in refl in
    rw (normalize_header_value, lowered, split_at-host host (to_lower_bytes port) h) refl

-- The port behind a host decides nothing: a route takes a request that names host and port as it
-- takes one that names the host alone, and as one whose host differs in the case of its letters.
-- The host holds no colon.
pub route_matches-host :
    (route : GatewayRoute) (method host other port tenant path : Bytes) (params : Table Bytes)
    → free_of b':' host ≡ true
    → free_of b':' other ≡ true
    → to_lower_bytes other ≡ to_lower_bytes host
    → route_matches_request route method (other ++ (b':' ∷ port)) tenant path params
      ≡ route_matches_request route method host tenant path params
unfolding route_matches_request route_matches_path host_matches
route_matches-host route method host other port tenant path params h g e =
    rw (normalize-port other port g, normalize-bare host h, e) refl
