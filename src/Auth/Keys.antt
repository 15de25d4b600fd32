-- ===== src/Auth/Keys.antt =====
-- The scan over all keys against a lookup, and who is authorized.
use epoll_gateway.Base.{
  Bool, true, false, ◌&&◌, List, [], ◌∷◌, Option, none, some, ◌≡◌, ◌⊎◌, ◌↔◌, inl, inr, refl, ◌∙◌,
  ap, arith, is_empty, all, length, ltb, if◌then◌else◌, Option-cases,
}
use epoll_gateway.Base.Bytes.{Bytes, eq_bytes, eq_bytes_iff, contains}
use epoll_gateway.Base.Table.{Table, lookup, distinct, distinct-insert, insert, lookup-insert}
use epoll_gateway.Config.Types.{ApiKeyConfig, GatewayRoute}
use epoll_gateway.Auth.Compare.{constant_time_equals, constant_time_equals_iff, byte_mod}
use epoll_gateway.Auth.Manager.{
  ApiKeyManager, add_keys, create, reload, find_from, find_constant_time, matches_scope, authorize,
}

-- A key of bytes, of a length below 256.
abbrev pub is_key : Bytes → Bool
is_key s = all (λ c. ltb c byte_mod) s && ltb (length s) byte_mod

-- The last configuration for a key.
unfoldable pub last_for : Bytes → List ApiKeyConfig → Option ApiKeyConfig → Option ApiKeyConfig
last_for key [] found = found
last_for key (k ∷ ks) found = last_for key ks (if eq_bytes k.key key then some k else found)

compare_keys :
    (a b : Bytes) → is_key a ≡ true → is_key b ≡ true → constant_time_equals a b ≡ eq_bytes a b
compare_keys a b h k =
    let iff =
      constant_time_equals_iff a b (ground arith) (ground arith) (ground arith) (ground arith) in
    ground (arith, iff, eq_bytes_iff a b)

abbrev keys_ok : Table ApiKeyConfig → Bool
keys_ok [] = true
keys_ok ((key, config) ∷ rest) = is_key key && keys_ok rest

keys_ok-insert :
    (key : Bytes) (config : ApiKeyConfig) (t : Table ApiKeyConfig)
    → is_key key ≡ true
    → keys_ok t ≡ true
    → keys_ok (insert key config t) ≡ true
unfolding insert
keys_ok-insert key config [] h ok = ground arith
keys_ok-insert key config ((j, w) ∷ t) h ok =
    ground (arith, eq_bytes_iff j key, keys_ok-insert key config t)

abbrev or_else : Option ApiKeyConfig → Option ApiKeyConfig → Option ApiKeyConfig
or_else none found = found
or_else (some c) found = some c

find_from-lookup :
    (key : Bytes) (t : Table ApiKeyConfig) (found : Option ApiKeyConfig)
    → distinct t ≡ true
    → keys_ok t ≡ true
    → is_key key ≡ true
    → find_from key t found ≡ or_else (lookup key t) found
unfolding find_from lookup distinct
find_from-lookup key [] found d ok h = refl
find_from-lookup key ((j, w) ∷ t) found d ok h = ground (
  arith,
  eq_bytes_iff j key,
  compare_keys j key,
  find_from-lookup key t (some w),
  find_from-lookup key t found,
)

lookup-add_keys :
    (key : Bytes) (ks : List ApiKeyConfig) (t : Table ApiKeyConfig)
    → lookup key (add_keys ks t) ≡ last_for key ks (lookup key t)
unfolding add_keys last_for
lookup-add_keys key [] t = refl
lookup-add_keys key (k ∷ ks) t =
    lookup-add_keys key ks (insert k.key k t) ∙ ap (last_for key ks) (lookup-insert k.key key k t)

add_keys-ok :
    (ks : List ApiKeyConfig) (t : Table ApiKeyConfig)
    → all (λ k. is_key k.key) ks ≡ true
    → distinct t ≡ true
    → keys_ok t ≡ true
    → (distinct (add_keys ks t) ≡ true) × (keys_ok (add_keys ks t) ≡ true)
unfolding add_keys
add_keys-ok [] t h d ok = (d, ok)
add_keys-ok (k ∷ ks) t h d ok =
    add_keys-ok ks (insert k.key k t) (ground arith) (distinct-insert k.key k t d)
      (keys_ok-insert k.key k t (ground arith) ok)

or_else-none : (o : Option ApiKeyConfig) → or_else o none ≡ o
or_else-none none = refl
or_else-none (some c) = refl

-- A manager that was created from a list of keys, or reloaded with it, finds under a key the last
-- configuration of the list for exactly that key, and none if there is none. All keys are byte
-- strings of a length below 256.
pub find_constant_time-create :
    (m : ApiKeyManager) (ks : List ApiKeyConfig) (key : Bytes)
    → all (λ k. is_key k.key) ks ≡ true
    → is_key key ≡ true
    → (find_constant_time (create ks) key ≡ last_for key ks none)
      × (find_constant_time (reload m ks) key ≡ last_for key ks none)
unfolding find_constant_time create reload lookup distinct
find_constant_time-create m ks key h k =
    let (d, ok) = add_keys-ok ks [] h refl refl in
    let found =
      find_from-lookup key (add_keys ks []) none d ok k
      ∙ or_else-none (lookup key (add_keys ks []))
      ∙ lookup-add_keys key ks [] in
    (found, found)

-- A key's configuration and a route let a request through.
pub record Permitted (config : ApiKeyConfig) (key : Bytes) (route : GatewayRoute)
    (host tenant : Bytes) : Type 0 where
  pub not_denied : contains route.denied_api_keys key ≡ false
  pub allowed :
      (is_empty route.allowed_api_keys ≡ true) ⊎ (contains route.allowed_api_keys key ≡ true)
  pub host_in_scope : matches_scope config.allowed_hosts host true ≡ true
  pub tenant_in_scope : matches_scope config.allowed_tenants tenant false ≡ true

authorize-found :
    (m : ApiKeyManager) (key : Bytes) (route : GatewayRoute) (host tenant : Bytes)
    (config : ApiKeyConfig)
    → find_constant_time m key ≡ some config
    → (authorize m key route host tenant ≡ true) ↔ Permitted config key route host tenant
unfolding authorize
authorize-found m key route host tenant config e = (
  λ h. record {
    not_denied = ground arith;
    allowed = ground arith;
    host_in_scope = ground arith;
    tenant_in_scope = ground arith;
  },
  λ p. ground (arith, p.not_denied, p.allowed, p.host_in_scope, p.tenant_in_scope),
)

authorize-missing :
    (m : ApiKeyManager) (key : Bytes) (route : GatewayRoute) (host tenant : Bytes)
    → find_constant_time m key ≡ none
    → authorize m key route host tenant ≡ false
unfolding authorize
authorize-missing m key route host tenant e = rw (e, authorize) refl

-- A request is authorized exactly if its key has a configuration, the last one given for exactly
-- that key, the route does not deny the key, the route's list of allowed keys is empty or names
-- it, and host and tenant are within the key's scopes. All keys are byte strings of a length
-- below 256.
pub authorize_iff :
    (ks : List ApiKeyConfig) (key : Bytes) (route : GatewayRoute) (host tenant : Bytes)
    → all (λ k. is_key k.key) ks ≡ true
    → is_key key ≡ true
    → (authorize (create ks) key route host tenant ≡ true) ↔ (
        (config : ApiKeyConfig) × (last_for key ks none ≡ some config)
        × Permitted config key route host tenant)
authorize_iff ks key route host tenant h k =
    let found = (find_constant_time-create (create ks) ks key h k).0 in
    elim (Option-cases (last_for key ks none)) [
      | inl e ↦ (
        λ a. cc (a, authorize-missing (create ks) key route host tenant (found ∙ e)),
        λ (config, f, p). cc (e, f),
      )
      | inr (config, e) ↦
          let iff = authorize-found (create ks) key route host tenant config (found ∙ e) in
          (
            λ a. (config, e, iff.0 a),
            λ (other, f, p). let same : other ≡ config = cc (e, f) in iff.1 (rw (← same) p),
          )
    ]
