-- ===== src/Handler/Gates.antt =====
-- Which requests pass the gates in front of a route.
use epoll_gateway.Base.{
  ℕ, ◌-◌, ◌<◌, Bool, true, false, not, ◌||◌, ◌⊎◌, List, Option, none, some, ◌≡◌, refl, sym, ap, ◌∙◌,
  inl, inr, arith, is_empty, all, ltb, if◌then◌else◌, Option-cases, Bool-cases,
}
use epoll_gateway.Base.Bytes.{Bytes, ascii, contains}
use epoll_gateway.Base.Table.{lookup, get_or}
use epoll_gateway.Config.Types.{ApiKeyConfig, GatewayRoute, RateLimitConfig}
use epoll_gateway.Http.Message.{HttpRequest}
use epoll_gateway.Auth.Manager.{create, find_constant_time, authorize}
use epoll_gateway.Auth.Keys.{is_key, last_for, Permitted, authorize_iff, find_constant_time-create}
use epoll_gateway.Limits.Bucket
use epoll_gateway.Limits.Bucket.{RateLimiter, refill, try_acquire}
use epoll_gateway.Limits.Clients.{RateLimiterManager, try_acquire_locked, try_acquire_locked_lem}
use epoll_gateway.Routing.Resolve.{resolve_route, header_or_empty}
use epoll_gateway.Handler.Reading.{
  Gateway, Verdict, needs_key, has_access, served_methods, should_rate_limit, limit_and_method,
  pass_gates, judge, extract_api_key, exempt_paths, limit_key,
}

-- The request has a key that `ks` configures, and the key is good for the route.
abbrev pub HasKey : List ApiKeyConfig → GatewayRoute → HttpRequest → Type 0
HasKey ks route req =
    let key = extract_api_key req in
    (is_empty key ≡ false)
    × ((config : ApiKeyConfig) × (last_for key ks none ≡ some config)
        × Permitted config key route (header_or_empty (ascii "host") req)
            (header_or_empty (ascii "x-tenant-id") req))

-- The bucket of a key at some time, refilled.
abbrev pub bucket : RateLimiterManager → Bytes → RateLimitConfig → ℕ → RateLimiter
bucket m key limit now =
    refill
      (get_or (Bucket.create limit.capacity limit.refill_per_second now) (lookup key m.limiters))
      now

-- The bucket has a token, and one is taken from it.
pub record Spends (m m' : RateLimiterManager) (key : Bytes) (limit : RateLimitConfig) (now : ℕ)
    : Type 0 where
  pub filled : 0 < (bucket m key limit now).tokens
  pub spent :
      let filled_up = bucket m key limit now in
      lookup key m'.limiters ≡ some (record filled_up { tokens = filled_up.tokens - 1 })

spends :
    (m : RateLimiterManager) (key : Bytes) (limit : RateLimitConfig) (now : ℕ)
    → (try_acquire_locked m key limit now).1 ≡ true
    → Spends m (try_acquire_locked m key limit now).0 key limit now
spends m key limit now h =
    let own =
      get_or (Bucket.create limit.capacity limit.refill_per_second now) (lookup key m.limiters) in
    let facts = try_acquire_locked_lem m key key limit now in
    let taken = taken_lem own (sym facts.0 ∙ h) in
    record { filled = taken.0; spent = facts.1 ∙ ap some taken.1 }
  where
    taken_lem :
        (l : RateLimiter)
        → (try_acquire l now).1 ≡ true
        → (0 < (refill l now).tokens)
          × ((try_acquire l now).0 ≡ record (refill l now) { tokens = (refill l now).tokens - 1 })
    taken_lem l e =
        unfold try_acquire in
        elim (Bool-cases (ltb 0 (refill l now).tokens)) [
          | inl some_left ↦ (ground arith, rw some_left refl)
          | inr empty ↦ absurd (ground (arith, empty, e))
        ]

-- The limiters after a request that the limiter is asked about, and whether it is over the limit.
abbrev asked : Gateway → HttpRequest → GatewayRoute → Bytes → ℕ → RateLimiterManager × Bool
asked gateway req route client_ip now =
    should_rate_limit gateway req route client_ip
      (if needs_key route
        then find_constant_time gateway.api_key_manager (extract_api_key req)
        else none)
      now

judge-passed :
    (gateway : Gateway) (req : HttpRequest) (client_ip : Bytes) (now : ℕ) (route : GatewayRoute)
    → (judge gateway req client_ip now).2 ≡ Verdict.serve_route route
    → let (req', manager, verdict) = judge gateway req client_ip now in
      ((resolve_route gateway.routes req).route ≡ some route)
      × ((not (needs_key route) || has_access gateway route req') ≡ true)
      × ((asked gateway req' route client_ip now).1 ≡ false)
      × (contains served_methods req'.method ≡ true)
      × (manager ≡ (asked gateway req' route client_ip now).0)
unfolding judge pass_gates limit_and_method
judge-passed gateway req client_ip now route e =
    elim (Option-cases (resolve_route gateway.routes req).route) [
      | inl absent ↦ ground (arith, absent, e)
      | inr (found, h) ↦ ground (arith, h, e)
    ]

not_limited :
    (gateway : Gateway) (req : HttpRequest) (route : GatewayRoute) (client_ip : Bytes)
    (config : Option ApiKeyConfig) (now : ℕ)
    → (should_rate_limit gateway req route client_ip config now).1 ≡ false
    → let limit = limit_key gateway req route client_ip config in
      (contains exempt_paths req.path ≡ true)
      ⊎ Spends gateway.rate_limiter_manager
          (should_rate_limit gateway req route client_ip config now).0
          limit.0
          limit.1
          now
unfolding should_rate_limit
not_limited gateway req route client_ip config now h =
    let limit = limit_key gateway req route client_ip config in
    elim (Bool-cases (contains exempt_paths req.path)) [
      | inl exempt ↦ inl exempt
      | inr other ↦ inr (
          rw other
            (spends gateway.rate_limiter_manager limit.0 limit.1 now (ground (arith, other, h))))
    ]

-- The configuration of the request's key, where the route asks for one.
abbrev pub key_config : List ApiKeyConfig → GatewayRoute → HttpRequest → Option ApiKeyConfig
key_config ks route req = if needs_key route then last_for (extract_api_key req) ks none else none

-- A request that a route serves was resolved to that route. If the route asks for a key, the request
-- has one that is configured, neither denied by the route nor left out of its list of allowed keys,
-- and whose scopes hold the request's host and tenant. Unless its path is exempt from limits, its
-- bucket held a token, which was taken. And its method is one of those that are served. The keys are
-- byte strings of a length below 256.
pub judge-served :
    (gateway : Gateway) (ks : List ApiKeyConfig) (req : HttpRequest) (client_ip : Bytes) (now : ℕ)
    (route : GatewayRoute)
    → gateway.api_key_manager ≡ create ks
    → all (λ k. is_key k.key) ks ≡ true
    → is_key (extract_api_key (judge gateway req client_ip now).0) ≡ true
    → (judge gateway req client_ip now).2 ≡ Verdict.serve_route route
    → let (req', manager, verdict) = judge gateway req client_ip now in
      let limit = limit_key gateway req' route client_ip (key_config ks route req') in
      ((resolve_route gateway.routes req).route ≡ some route)
      × (route.auth_required ≡ true → route.allow_anonymous ≡ false → HasKey ks route req')
      × ((contains exempt_paths req'.path ≡ true)
          ⊎ Spends gateway.rate_limiter_manager manager limit.0 limit.1 now)
      × (contains served_methods req'.method ≡ true)
judge-served gateway ks req client_ip now route made keys key e =
    let (req', manager, verdict) = judge gateway req client_ip now in
    let passed = judge-passed gateway req client_ip now route e in
    let found : find_constant_time gateway.api_key_manager (extract_api_key req')
        ≡ last_for (extract_api_key req') ks none =
      ap (λ m. find_constant_time m (extract_api_key req')) made
      ∙ (find_constant_time-create (create ks) ks (extract_api_key req') keys key).0 in
    let config =
      if needs_key route
      then find_constant_time gateway.api_key_manager (extract_api_key req')
      else none in
    let same : config ≡ key_config ks route req' =
      ap (λ c. if needs_key route then c else none) found in
    (
      passed.0,
      λ asks anonymous. has_key req' key (ground (arith, passed.1, asks, anonymous)),
      rw (passed.4, ← same) (not_limited gateway req' route client_ip config now passed.2),
      passed.3,
    )
  where
    has_key :
        (req' : HttpRequest)
        → is_key (extract_api_key req') ≡ true
        → has_access gateway route req' ≡ true
        → HasKey ks route req'
    has_key req' k h =
        unfold has_access in
        let host = header_or_empty (ascii "host") req' in
        let tenant = header_or_empty (ascii "x-tenant-id") req' in
        let granted : authorize (create ks) (extract_api_key req') route host tenant ≡ true =
          rw (← made) (ground arith) in
        (ground arith, (authorize_iff ks (extract_api_key req') route host tenant keys k).0 granted)
