-- ===== src/Auth/Manager.antt =====
-- `ApiKeyManager`. The hash map of the keys is a table, and its entries come in the table's order.
use epoll_gateway.Base.{
  Bool, true, false, not, ◌&&◌, ◌||◌, List, [], ◌∷◌, Option, none, some, is_empty, any,
  if◌then◌else◌,
}
use epoll_gateway.Base.Bytes.{Bytes, ascii, eq_bytes, contains}
use epoll_gateway.Base.Table.{Table, insert, is_some}
use epoll_gateway.Config.Types.{ApiKeyConfig, GatewayRoute}
use epoll_gateway.Routing.Match.{normalize_header_value}
use epoll_gateway.Auth.Compare.{constant_time_equals}

pub record ApiKeyManager : Type 0 where
  pub keys : Table ApiKeyConfig

-- The loop of the constructor and of `reload`.
unfoldable pub add_keys : List ApiKeyConfig → Table ApiKeyConfig → Table ApiKeyConfig
add_keys [] t = t
add_keys (k ∷ ks) t = add_keys ks (insert k.key k t)

-- The constructor.
unfoldable pub create : List ApiKeyConfig → ApiKeyManager
create keys = record { keys = add_keys keys [] }

unfoldable pub reload : ApiKeyManager → List ApiKeyConfig → ApiKeyManager
reload m keys = record m { keys = add_keys keys [] }

-- The loop of `find_constant_time`; it goes on after a match.
unfoldable pub find_from : Bytes → Table ApiKeyConfig → Option ApiKeyConfig → Option ApiKeyConfig
find_from key [] found = found
find_from key ((name, config) ∷ rest) found =
    find_from key rest (if constant_time_equals name key then some config else found)

-- `find_constant_time`, which `get` calls.
unfoldable pub find_constant_time : ApiKeyManager → Bytes → Option ApiKeyConfig
find_constant_time m key = find_from key m.keys none

unfoldable pub validate : ApiKeyManager → Bytes → Bool
validate m key = is_some (find_constant_time m key)

abbrev pub scope_value : Bytes → Bool → Bytes
scope_value value host_scope = if host_scope then normalize_header_value value else value

unfoldable pub matches_scope : List Bytes → Bytes → Bool → Bool
matches_scope allowed actual host_scope =
    is_empty allowed
    || any
        (λ value.
          eq_bytes value (ascii "*")
          || eq_bytes (scope_value value host_scope) (scope_value actual host_scope))
        allowed

unfoldable pub authorize : ApiKeyManager → Bytes → GatewayRoute → Bytes → Bytes → Bool
authorize m key route host tenant = elim (find_constant_time m key) [
  | none ↦ false
  | some config ↦
      if contains route.denied_api_keys key
      then false
      else if not (is_empty route.allowed_api_keys) && not (contains route.allowed_api_keys key)
      then false
      else if not (matches_scope config.allowed_hosts host true)
          || not (matches_scope config.allowed_tenants tenant false)
      then false
      else true
]
