-- ===== src/Limits/Clients.antt =====
-- `RateLimiterManager`: a limiter for each key, under one mutex. Each method is one step.
use epoll_gateway.Base.{
  ℕ, ◌-◌, ◌*◌, Bool, true, false, [], ◌∷◌, none, some, ◌≡◌, refl, ◌∙◌, arith, ltb, if◌then◌else◌,
  inl, inr, Bool-cases,
}
use epoll_gateway.Base.Bytes.{Bytes, eq_bytes, eq_bytes_iff, eq_bytes_refl}
use epoll_gateway.Base.Table.{
  Table, lookup, insert, lookup-insert, lookup-insert_self, get_or, erase, lookup-erase,
}
use epoll_gateway.Config.Types.{RateLimitConfig}
use epoll_gateway.Limits.Bucket.{RateLimiter, create, try_acquire, billion}

pub record RateLimiterManager : Type 0 where
  pub limiters : Table RateLimiter
  pub last_used : Table ℕ
  pub default_config : RateLimitConfig

unfoldable pub update_default_config : RateLimiterManager → RateLimitConfig → RateLimiterManager
update_default_config m config = record m { default_config = config }

-- `try_acquire_locked`.
unfoldable pub try_acquire_locked :
    RateLimiterManager → Bytes → RateLimitConfig → ℕ → RateLimiterManager × Bool
try_acquire_locked m key config now =
    let fresh = create config.capacity config.refill_per_second now in
    let (limiter, allowed) = try_acquire (get_or fresh (lookup key m.limiters)) now in
    (
      record m { limiters = insert key limiter m.limiters; last_used = insert key now m.last_used },
      allowed,
    )

-- `try_acquire(key)`.
unfoldable pub try_acquire_default : RateLimiterManager → Bytes → ℕ → RateLimiterManager × Bool
unfolding try_acquire_locked
try_acquire_default m key now = try_acquire_locked m key m.default_config now

-- Whether `cleanup` erases the limiter of a key.
unfoldable pub is_idle : RateLimiterManager → ℕ → ℕ → Bytes → Bool
is_idle m idle now key = elim (lookup key m.last_used) [
  | none ↦ false
  | some last ↦ ltb (idle * billion) (now - last)
]

-- One round of the loop of `cleanup`, at an entry of the map.
unfoldable pub cleanup_entry : ℕ → ℕ → RateLimiterManager → Bytes → RateLimiterManager
cleanup_entry idle now m key =
    if is_idle m idle now key
    then record m { limiters = erase key m.limiters; last_used = erase key m.last_used }
    else m

unfoldable pub cleanup_entries : ℕ → ℕ → Table RateLimiter → RateLimiterManager → RateLimiterManager
cleanup_entries idle now [] m = m
cleanup_entries idle now ((key, l) ∷ rest) m =
    cleanup_entries idle now rest (cleanup_entry idle now m key)

-- `cleanup(idle)`, with `idle` in seconds.
unfoldable pub cleanup : RateLimiterManager → ℕ → ℕ → RateLimiterManager
cleanup m idle now = cleanup_entries idle now m.limiters m

-- A request under one key is decided by that key's own limiter, which is made full on first use
-- from the given configuration; its new state and the time of use are recorded, and the limiters
-- of all other keys stay as they are.
pub try_acquire_locked_lem :
    (m : RateLimiterManager) (key other : Bytes) (config : RateLimitConfig) (now : ℕ)
    → let (m', allowed) = try_acquire_locked m key config now in
      let own =
        get_or (create config.capacity config.refill_per_second now) (lookup key m.limiters) in
      (allowed ≡ (try_acquire own now).1)
      × (lookup key m'.limiters ≡ some (try_acquire own now).0)
      × (lookup key m'.last_used ≡ some now)
      × (lookup other m'.limiters
          ≡ (if eq_bytes key other then some (try_acquire own now).0 else lookup other m.limiters))
unfolding try_acquire_locked
try_acquire_locked_lem m key other config now =
    let own =
      get_or (create config.capacity config.refill_per_second now) (lookup key m.limiters) in
    (
      refl,
      lookup-insert_self key (try_acquire own now).0 m.limiters,
      lookup-insert_self key now m.last_used,
      lookup-insert key other (try_acquire own now).0 m.limiters,
    )

cleanup_entry-other :
    (idle now : ℕ) (m : RateLimiterManager) (key other : Bytes)
    → is_idle m idle now other ≡ false
    → (lookup other (cleanup_entry idle now m key).limiters ≡ lookup other m.limiters)
      × (is_idle (cleanup_entry idle now m key) idle now other ≡ false)
unfolding cleanup_entry is_idle
cleanup_entry-other idle now m key other h = ground (
  arith,
  eq_bytes_iff key other,
  lookup-erase key other m.limiters,
  lookup-erase key other m.last_used,
)

cleanup_entries-other :
    (entries : Table RateLimiter) (idle now : ℕ) (m : RateLimiterManager) (other : Bytes)
    → is_idle m idle now other ≡ false
    → lookup other (cleanup_entries idle now entries m).limiters ≡ lookup other m.limiters
unfolding cleanup_entries
cleanup_entries-other [] idle now m other h = refl
cleanup_entries-other ((key, l) ∷ rest) idle now m other h =
    let step = cleanup_entry-other idle now m key other h in
    cleanup_entries-other rest idle now (cleanup_entry idle now m key) other step.1 ∙ step.0

cleanup_entries-none :
    (entries : Table RateLimiter) (idle now : ℕ) (m : RateLimiterManager) (other : Bytes)
    → lookup other m.limiters ≡ none
    → lookup other (cleanup_entries idle now entries m).limiters ≡ none
unfolding cleanup_entries cleanup_entry
cleanup_entries-none [] idle now m other h = h
cleanup_entries-none ((key, l) ∷ rest) idle now m other h =
    cleanup_entries-none rest idle now (cleanup_entry idle now m key) other
      (ground (arith, lookup-erase key other m.limiters))

cleanup_entry-same :
    (idle now : ℕ) (m : RateLimiterManager) (key : Bytes)
    → is_idle m idle now key ≡ true
    → lookup key (cleanup_entry idle now m key).limiters ≡ none
unfolding cleanup_entry
cleanup_entry-same idle now m key h =
    ground (arith, eq_bytes_refl key, lookup-erase key key m.limiters)

cleanup_entry-keeps_idle :
    (idle now : ℕ) (m : RateLimiterManager) (key other : Bytes)
    → eq_bytes key other ≡ false
    → is_idle (cleanup_entry idle now m key) idle now other ≡ is_idle m idle now other
unfolding cleanup_entry is_idle
cleanup_entry-keeps_idle idle now m key other h = ground (arith, lookup-erase key other m.last_used)

cleanup_entries-idle :
    (entries : Table RateLimiter) (idle now : ℕ) (m : RateLimiterManager) (other : Bytes)
    → is_idle m idle now other ≡ true
    → (lookup other entries ≡ none → lookup other m.limiters ≡ none)
    → lookup other (cleanup_entries idle now entries m).limiters ≡ none
unfolding cleanup_entries
cleanup_entries-idle [] idle now m other h listed = listed (unfold lookup in refl)
cleanup_entries-idle ((key, l) ∷ rest) idle now m other h listed =
    elim (Bool-cases (eq_bytes key other)) [
      | inl same ↦
          let here : key ≡ other = (eq_bytes_iff key other).0 same in
          cleanup_entries-none rest idle now (cleanup_entry idle now m key) other
            (rw here (cleanup_entry-same idle now m other h))
      | inr differ ↦
          cleanup_entries-idle rest idle now (cleanup_entry idle now m key) other
            (cleanup_entry-keeps_idle idle now m key other differ ∙ h)
            (λ gone. removed key other differ (listed (lookup_later key other l rest differ gone)))
    ]
  where
    lookup_later :
        (k o : Bytes) (l : RateLimiter) (t : Table RateLimiter)
        → eq_bytes k o ≡ false
        → lookup o t ≡ none
        → lookup o ((k, l) ∷ t) ≡ none
    lookup_later k o l t d e = unfold lookup in ground arith

    removed :
        (k o : Bytes)
        → eq_bytes k o ≡ false
        → lookup o m.limiters ≡ none
        → lookup o (cleanup_entry idle now m k).limiters ≡ none
    removed k o d e = unfold cleanup_entry in ground (arith, lookup-erase k o m.limiters)

-- `cleanup` removes exactly the limiters whose last use lies further back than the idle time, and
-- leaves every other limiter as it is.
pub lookup-cleanup :
    (m : RateLimiterManager) (idle now : ℕ) (key : Bytes)
    → lookup key (cleanup m idle now).limiters
      ≡ (if is_idle m idle now key then none else lookup key m.limiters)
unfolding cleanup
lookup-cleanup m idle now key = elim (Bool-cases (is_idle m idle now key)) [
  | inl old ↦ rw old (cleanup_entries-idle m.limiters idle now m key old (λ e. e))
  | inr recent ↦ rw recent (cleanup_entries-other m.limiters idle now m key recent)
]
