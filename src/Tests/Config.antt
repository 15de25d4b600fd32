-- ===== src/Tests/Config.antt =====
-- `Config::validate` (include/server/config.h) on a concrete configuration.
use epoll_gateway.Base.{Bool, true, [], ◌∷◌, some, ◌≡◌, refl}
use epoll_gateway.Base.Bytes.{Bytes, ascii, eq_bytes, contains}
use epoll_gateway.Base.Int.{pos}
use epoll_gateway.Base.Table.{lookup}
use epoll_gateway.Config.Types.{
  Config, default_config, Upstream, default_server, GatewayRoute, default_route,
  default_upstream_target,
}
use epoll_gateway.Config.Validate.{
  validate, join_errors, check_scalars, check_admin, check_upstreams, check_servers, check_route,
  check_routes, check_composite, check_target, check_api_keys,
}
use epoll_gateway.Upstream.Manager.{create}
use epoll_gateway.Upstream.Picking.{Picks}
use epoll_gateway.Upstream.Accepted.{validate-pick_server}

abbrev shop : Upstream
shop = record {
  servers = record default_server { host = ascii "10.0.0.1" } ∷ [];
  algorithm = ascii "round_robin";
}

abbrev shop_route : GatewayRoute
shop_route = record default_route {
  name = ascii "shop";
  upstream_target = record default_upstream_target { name = ascii "shop" };
}

abbrev shop_config : Config
shop_config = record default_config {
  upstream_config = record {
    upstreams = (ascii "shop", shop) ∷ [];
    routes = shop_route ∷ [];
    health_check_timeout_ms = pos 500;
  };
}

-- Every address is taken for valid.
abbrev any_address : Bytes → Bool
any_address bind = true

validate-pick_server_example :
    (up : Upstream) × (lookup (ascii "shop") shop_config.upstream_config.upstreams ≡ some up)
    × Picks (create shop_config.upstream_config) (ascii "shop") up.servers
unfolding validate join_errors check_scalars check_admin check_upstreams check_servers check_route
    check_routes check_composite check_target check_api_keys eq_bytes contains lookup
validate-pick_server_example =
    validate-pick_server any_address shop_config 0 shop_route refl refl refl
