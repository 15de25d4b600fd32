-- ===== src/Upstream/Accepted.antt =====
-- What an accepted configuration means for the upstream manager.
use epoll_gateway.Base.{
  ℕ, zero, suc, ◌<◌, Bool, true, false, List, [], ◌∷◌, ◌++◌, some, ◌≡◌, refl, arith, is_empty,
  length, get_elem?, inl, inr, Option-cases, Bool-cases,
}
use epoll_gateway.Base.Bytes.{Bytes, ascii, eq_bytes}
use epoll_gateway.Base.Table.{Table, lookup, is_some}
use epoll_gateway.Config.Types.{Config, Upstream, UpstreamServer, GatewayRoute}
use epoll_gateway.Config.Validate.{
  check_upstreams, check_target, check_route, check_routes, join_errors, validate, route_at,
}
use epoll_gateway.Upstream.Manager.{create}
use epoll_gateway.Upstream.Picking.{Picks, pick_server-Picks}

append_empty : {A : Type 0} (xs ys : List A) → xs ++ ys ≡ [] → (xs ≡ []) × (ys ≡ [])
append_empty [] ys e = (refl, e)
append_empty (x ∷ xs) ys e = cc (e)

abbrev AllEmpty : List (List Bytes) → Type 0
AllEmpty [] = Unit {0}
AllEmpty (xs ∷ rest) = (xs ≡ []) × AllEmpty rest

join_errors-AllEmpty : (xss : List (List Bytes)) → join_errors xss ≡ [] → AllEmpty xss
unfolding join_errors
join_errors-AllEmpty [] e = tt
join_errors-AllEmpty (xs ∷ rest) e =
    let (first, later) = append_empty xs (join_errors rest) e in
    (first, join_errors-AllEmpty rest later)

check_upstreams-servers :
    (t : Table Upstream) (name : Bytes) (up : Upstream)
    → check_upstreams t ≡ []
    → lookup name t ≡ some up
    → 0 < length up.servers
unfolding check_upstreams lookup
check_upstreams-servers [] name up e h = cc (h)
check_upstreams-servers ((own, first) ∷ rest) name up e h =
    let empties = join_errors-AllEmpty _ e in
    let none_missing = empties.0 in
    let others : check_upstreams rest ≡ [] = empties.1.1.1.0 in
    elim (Bool-cases (eq_bytes own name)) [
      | inl same ↦
          let filled : is_empty first.servers ≡ false = ground arith in
          let is_first : first ≡ up = ground arith in
          rw (← is_first) (filled_length first.servers filled)
      | inr other ↦ check_upstreams-servers rest name up others (ground arith)
    ]
  where
    filled_length : (servers : List UpstreamServer) → is_empty servers ≡ false → 0 < length servers
    filled_length [] h = cc (h)
    filled_length (s ∷ rest) h = omega arith

check_target-known :
    (t : Table Upstream) (at : Bytes) (r : GatewayRoute)
    → check_target t at r ≡ []
    → eq_bytes r.target_type (ascii "upstream") ≡ true
    → (up : Upstream) × (lookup r.upstream_target.name t ≡ some up)
unfolding check_target
check_target-known t at r e h = elim (Option-cases (lookup r.upstream_target.name t)) [
  | inr (up, found) ↦ (up, found)
  | inl missing ↦
      let seen : is_some (lookup r.upstream_target.name t) ≡ false = rw missing refl in
      absurd (ground arith)
]

check_route-target :
    (t : Table Upstream) (names keys : List Bytes) (i : ℕ) (r : GatewayRoute)
    → check_route t names keys i r ≡ []
    → check_target t (route_at i r) r ≡ []
unfolding check_route
check_route-target t names keys i r e = (join_errors-AllEmpty _ e).1.1.1.1.1.1.0

check_routes-target :
    (t : Table Upstream) (rs : List GatewayRoute) (names keys : List Bytes) (i k : ℕ)
    (r : GatewayRoute)
    → check_routes t names keys i rs ≡ []
    → get_elem? rs k ≡ some r
    → (j : ℕ) × (check_target t (route_at j r) r ≡ [])
unfolding check_routes
check_routes-target t [] names keys i k r e h = cc (h)
check_routes-target t (q ∷ rs) names keys i zero r e h =
    let same : q ≡ r = cc (h) in
    let first = check_route-target t names keys i q (append_empty _ _ e).0 in (i, rw (← same) first)
check_routes-target t (q ∷ rs) names keys i (suc k) r e h =
    check_routes-target t rs _ _ (suc i) k r (append_empty _ _ e).1 h

-- In a configuration that `validate` accepts, every route to an upstream names one that is
-- configured and has servers, so the manager made from it picks a server for the route and does
-- not throw.
pub validate-pick_server :
    (inet_pton : Bytes → Bool) (config : Config) (k : ℕ) (r : GatewayRoute)
    → validate inet_pton config ≡ []
    → get_elem? config.upstream_config.routes k ≡ some r
    → eq_bytes r.target_type (ascii "upstream") ≡ true
    → (up : Upstream) × (lookup r.upstream_target.name config.upstream_config.upstreams ≡ some up)
      × Picks (create config.upstream_config) r.upstream_target.name up.servers
unfolding validate create
validate-pick_server inet_pton config k r e at h =
    let t = config.upstream_config.upstreams in
    let empties = join_errors-AllEmpty _ e in
    let upstreams_ok = empties.1.1.0 in
    let routes_ok = empties.1.1.1.0 in
    let (j, target) =
      check_routes-target t config.upstream_config.routes [] [] 0 k r routes_ok at in
    let (up, found) = check_target-known t (route_at j r) r target h in
    let filled = check_upstreams-servers t r.upstream_target.name up upstreams_ok found in
    (
      up,
      found,
      pick_server-Picks (create config.upstream_config) r.upstream_target.name up found filled,
    )
