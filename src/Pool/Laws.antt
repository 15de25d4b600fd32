-- ===== src/Pool/Laws.antt =====
-- What the pool hands out, and what it keeps.
use epoll_gateway.Base.{
  ℕ, ◌≤◌, true, false, ◌&&◌, List, [], ◌∷◌, ◌++◌, Option, none, some, ◌≡◌, ◌⊎◌, inl, inr, refl, ap,
  arith, length, length-append, ltb, all, if◌then◌else◌, Option-cases, Bool-cases,
}
use epoll_gateway.Base.Bytes.{Bytes, eq_bytes, eq_bytes_iff, eq_bytes_refl}
use epoll_gateway.Base.Int.{ℤ}
use epoll_gateway.Base.Table.{lookup, get_or, lookup-insert, lookup-insert_self, lookup-erase}
use epoll_gateway.Pool.Defs.{
  PooledConnection, ConnectionPool, max_idle_per_upstream, effective_idle_timeout, pool_key,
  is_expired, take_fresh, keep_rest, checkout, checkin,
}

-- The idle connections of one identity.
unfoldable pub idle_of : ConnectionPool → Bytes → List PooledConnection
idle_of pool key = get_or [] (lookup key pool.idle)

-- The queue splits into expired connections, the one that is handed out, and the rest.
pub record HandsOut (timeout now : ℕ) (queue rest : List PooledConnection) (conn : PooledConnection)
    : Type 0 where
  pub expired : List PooledConnection
  pub splits : queue ≡ expired ++ conn ∷ rest
  pub all_expired : all (is_expired timeout now) expired ≡ true
  pub fresh : is_expired timeout now conn ≡ false

take_fresh_cases :
    (timeout now : ℕ) (queue : List PooledConnection)
    → ((take_fresh timeout now queue ≡ none) × (all (is_expired timeout now) queue ≡ true))
      ⊎ ((conn : PooledConnection) × (rest : List PooledConnection) × (take_fresh timeout now queue
            ≡ some (conn, rest))
          × HandsOut timeout now queue rest conn)
unfolding take_fresh
take_fresh_cases timeout now [] = inl (refl, refl)
take_fresh_cases timeout now (c ∷ cs) = elim (Bool-cases (is_expired timeout now c)) [
  | inl old ↦ elim (take_fresh_cases timeout now cs) [
    | inl (e, h) ↦ inl (ground arith, ground arith)
    | inr (conn, rest, e, h) ↦ inr (
      conn,
      rest,
      ground arith,
      record {
        expired = c ∷ h.expired;
        splits = ap (◌∷◌ c) h.splits;
        all_expired = ground (arith, h.all_expired);
        fresh = h.fresh;
      },
    )
  ]
  | inr fresh ↦ inr (
    c,
    cs,
    ground arith,
    record { expired = []; splits = refl; all_expired = refl; fresh = fresh },
  )
]

-- The two outcomes of `checkout` for one identity, whose queue goes from `before` to `after`.
pub data Checkout (timeout now : ℕ) (before after : List PooledConnection)
    (result : Option PooledConnection) : Type 0 where
  nothing :
      result ≡ none
      → all (is_expired timeout now) before ≡ true
      → after ≡ []
      → Checkout timeout now before after result
  handed :
      (conn : PooledConnection)
      → result ≡ some conn
      → HandsOut timeout now before after conn
      → Checkout timeout now before after result

module _ (pool : ConnectionPool) (own : Bytes) where
  idle_of-keep_rest :
      (conn : PooledConnection) (rest : List PooledConnection)
      → idle_of (keep_rest pool own (some (conn, rest))).0 own ≡ rest
  unfolding keep_rest idle_of
  idle_of-keep_rest conn rest = ground (
    arith,
    lookup-erase own own pool.idle,
    lookup-insert_self own rest pool.idle,
    eq_bytes_refl own,
  )

  idle_of-keep_none : idle_of (keep_rest pool own none).0 own ≡ []
  unfolding keep_rest idle_of
  idle_of-keep_none = ground (arith, lookup-erase own own pool.idle, eq_bytes_refl own)

  idle_of-keep_other :
      (key : Bytes) (o : Option (PooledConnection × List PooledConnection))
      → eq_bytes own key ≡ false
      → idle_of (keep_rest pool own o).0 key ≡ idle_of pool key
  unfolding keep_rest idle_of
  idle_of-keep_other key none h = ground (arith, lookup-erase own key pool.idle)
  idle_of-keep_other key (some (conn, rest)) h =
      ground (arith, lookup-erase own key pool.idle, lookup-insert own key rest pool.idle)

  keep_rest-Checkout :
      (timeout now : ℕ) (queue : List PooledConnection)
      → let (pool', result) = keep_rest pool own (take_fresh timeout now queue) in
        Checkout timeout now queue (idle_of pool' own) result
  keep_rest-Checkout timeout now queue = elim (take_fresh_cases timeout now queue) [
    | inl (e, h) ↦ rw e (nothing (unfold keep_rest in refl) h idle_of-keep_none)
    | inr (conn, rest, e, h) ↦
        rw e (handed conn (unfold keep_rest in refl) (rw (idle_of-keep_rest conn rest) h))
  ]

-- `checkout` hands out the oldest idle connection of the identity that has not timed out, drops
-- the expired ones before it and keeps those behind it; it returns nothing only if all have
-- expired, and then keeps none. The connections of every other key stay as they are.
pub checkout-Checkout :
    (pool : ConnectionPool) (host : Bytes) (port : ℤ) (scheme : Bytes) (now : ℕ) (key : Bytes)
    → let own = pool_key host port scheme in
      let (pool', result) = checkout pool host port scheme now in
      Checkout (effective_idle_timeout pool) now (idle_of pool own) (idle_of pool' own) result
      × (idle_of pool' key ≡ (if eq_bytes own key then idle_of pool' own else idle_of pool key))
unfolding checkout
checkout-Checkout pool host port scheme now key =
    let own = pool_key host port scheme in
    elim (Option-cases (lookup own pool.idle)) [
      | inl e ↦
          let empty : idle_of pool own ≡ [] = unfold idle_of in rw e refl in
          rw (e, checkout) (rw empty (nothing refl refl refl), ground (arith, eq_bytes_iff own key))
      | inr (queue, e) ↦
          let same : idle_of pool own ≡ queue = unfold idle_of in rw e refl in
          let taken = take_fresh (effective_idle_timeout pool) now queue in
          rw (e, checkout)
            (
              rw same (keep_rest-Checkout pool own (effective_idle_timeout pool) now queue),
              ground (arith, eq_bytes_iff own key, idle_of-keep_other pool own key taken),
            )
    ]

-- `checkin` keeps every queue within the limit: it puts the connection at the end of its own
-- identity's queue, with the present time, if there is room, drops it if there is none, and leaves
-- the connections of every other key as they are.
pub checkin_lem :
    (pool : ConnectionPool) (host : Bytes) (port : ℤ) (scheme key : Bytes) (conn : PooledConnection)
    (now : ℕ)
    → length (idle_of pool key) ≤ max_idle_per_upstream
    → let own = pool_key host port scheme in
      let pool' = checkin pool host port scheme conn now in
      let before = idle_of pool key in
      (length (idle_of pool' key) ≤ max_idle_per_upstream)
      × (idle_of pool' key ≡ (
          if eq_bytes own key && ltb (length before) max_idle_per_upstream
          then before ++ record conn { last_used = now } ∷ []
          else before))
unfolding checkin idle_of
checkin_lem pool host port scheme key conn now h =
    let own = pool_key host port scheme in
    let queue = get_or [] (lookup own pool.idle) in
    let longer = queue ++ record conn { last_used = now } ∷ [] in
    ground (
      arith,
      eq_bytes_iff own key,
      lookup-insert own key queue pool.idle,
      lookup-insert own key longer pool.idle,
      length-append queue (record conn { last_used = now } ∷ []),
    )
