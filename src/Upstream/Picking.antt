-- ===== src/Upstream/Picking.antt =====
-- `pick_server`: round robin over the healthy servers.
use native.Mathlib.Decide.{dec_le}
use native.Mathlib.Nat.{mod-lt, mod-eq_of_lt}
use epoll_gateway.Base.{
  ℕ, zero, suc, ◌+◌, ◌-◌, ◌%◌, ◌≤◌, ◌<◌, true, false, List, [], ◌∷◌, none, some, ◌≡◌, ◌⊎◌, inl, inr,
  refl, ap, ◌∙◌, arith, length, get_elem?, get_elem?-lt, Bool-cases,
}
use epoll_gateway.Base.Bytes.{Bytes}
use epoll_gateway.Base.Table.{lookup, insert, lookup-insert_self}
use epoll_gateway.Config.Types.{UpstreamServer, Upstream}
use epoll_gateway.Upstream.Manager.{
  UpstreamManager, index_mod, first_healthy, pick_from, pick_among, pick_server, start_index,
}

-- `s` is the first healthy server from distance `i` on.
pub record IsFirst (i idx : ℕ) (servers : List UpstreamServer) (s : UpstreamServer) : Type 0 where
  pub distance : ℕ
  pub from : i ≤ distance
  pub stands : get_elem? servers ((idx + distance) % length servers) ≡ some s
  pub healthy : s.healthy ≡ true
  pub before :
      (d : ℕ) (t : UpstreamServer)
      → i ≤ d
      → d < distance
      → get_elem? servers ((idx + d) % length servers) ≡ some t
      → t.healthy ≡ false

-- The servers at the distances from `i` to `i + n` are down.
abbrev pub AllDown : ℕ → ℕ → ℕ → List UpstreamServer → Type 0
AllDown n i idx servers =
    (d : ℕ) (t : UpstreamServer)
    → i ≤ d
    → d < i + n
    → get_elem? servers ((idx + d) % length servers) ≡ some t
    → t.healthy ≡ false

module _ (idx : ℕ) (servers : List UpstreamServer) where
  IsFirst-later :
      (i : ℕ) (s t : UpstreamServer)
      → get_elem? servers ((idx + i) % length servers) ≡ some t
      → t.healthy ≡ false
      → IsFirst (i + 1) idx servers s
      → IsFirst i idx servers s
  IsFirst-later i s t at down f = record {
    distance = f.distance;
    from = omega (arith, f.from);
    stands = f.stands;
    healthy = f.healthy;
    before = λ d u h k e. elim (dec_le d i) [
      | yes le ↦
          let same : d ≡ i = omega arith in
          let here : get_elem? servers ((idx + i) % length servers) ≡ some u = rw same at e in
          ground (arith, here)
      | no gt ↦ f.before d u (omega arith) k e
    ];
  }

  first_healthy_cases :
      (n i : ℕ)
      → 0 < length servers
      → ((s : UpstreamServer) × (first_healthy n i idx servers ≡ some s) × IsFirst i idx servers s)
        ⊎ ((first_healthy n i idx servers ≡ none) × AllDown n i idx servers)
  unfolding first_healthy
  first_healthy_cases zero i p = inr (refl, λ d t h k e. absurd (omega arith))
  first_healthy_cases (suc n) i p =
      let (t, at) = get_elem?-lt servers ((idx + i) % length servers) (mod-lt _ p) in
      elim (Bool-cases t.healthy) [
        | inl up ↦ inl (
          t,
          ground arith,
          record {
            distance = i;
            from = omega arith;
            stands = at;
            healthy = up;
            before = λ d u h k e. absurd (omega arith);
          },
        )
        | inr down ↦ elim (first_healthy_cases n (i + 1) p) [
          | inl (s, e, f) ↦ inl (s, ground arith, IsFirst-later i s t at down f)
          | inr (e, all) ↦ inr (
            ground arith,
            λ d u h k g. elim (dec_le d i) [
              | yes le ↦
                  let same : d ≡ i = omega arith in
                  let here : get_elem? servers ((idx + i) % length servers) ≡ some u =
                    rw same at g in
                  ground (arith, here)
              | no gt ↦ all d u (omega arith) (omega arith) g
            ],
          )
        ]
      ]

-- Every index is at some distance from `idx`.
distance_of : (idx k len : ℕ) → idx < len → k < len → (d : ℕ) × (d < len) × ((idx + d) % len ≡ k)
distance_of idx k len h g = elim (dec_le idx k) [
  | yes le ↦
      (k - idx, omega arith, (let e : idx + (k - idx) ≡ k = omega arith in rw e (mod-eq_of_lt g)))
  | no gt ↦ (
    k + len - idx,
    omega arith,
    (let e : idx + (k + len - idx) ≡ k + len = omega arith in rw e (grind arith)),
  )
]

-- What one call of `pick_server` on a configured upstream with servers returns, and what it leaves.
pub record Picks (m : UpstreamManager) (name : Bytes) (servers : List UpstreamServer) : Type 0 where
  pub server : UpstreamServer
  pub returned : (pick_server m name).1 ≡ some server
  pub advanced : start_index (pick_server m name).0 name ≡ (start_index m name + 1) % index_mod
  pub choice :
      IsFirst 0 (start_index m name % length servers) servers server
      ⊎ (AllDown (length servers) 0 (start_index m name % length servers) servers
          × (get_elem? servers (start_index m name % length servers) ≡ some server))

-- The state that a successful call leaves.
abbrev advance : UpstreamManager → Bytes → UpstreamManager
advance m name = record m {
  round_robin_indices = insert name ((start_index m name + 1) % index_mod) m.round_robin_indices;
}

pick_among_lem :
    (m : UpstreamManager) (name : Bytes) (servers : List UpstreamServer)
    → 0 < length servers
    → pick_among m name servers
      ≡ (advance m name, pick_from (start_index m name % length servers) servers)
unfolding pick_among
pick_among_lem m name [] h = absurd (omega arith)
pick_among_lem m name (s ∷ rest) h = refl

pick_server_lem :
    (m : UpstreamManager) (name : Bytes) (up : Upstream)
    → lookup name m.config.upstreams ≡ some up
    → 0 < length up.servers
    → pick_server m name
      ≡ (advance m name, pick_from (start_index m name % length up.servers) up.servers)
unfolding pick_server
pick_server_lem m name up found h = rw (found, pick_server) (pick_among_lem m name up.servers h)

start_index-advance :
    (m : UpstreamManager) (name : Bytes)
    → start_index (advance m name) name ≡ (start_index m name + 1) % index_mod
unfolding start_index
start_index-advance m name = rw lookup-insert_self

-- For a configured upstream with servers `pick_server` returns a server and advances the
-- round-robin index by one: the first healthy server from the index on, going round, or the server
-- at the index if all are down.
pub pick_server-Picks :
    (m : UpstreamManager) (name : Bytes) (up : Upstream)
    → lookup name m.config.upstreams ≡ some up
    → 0 < length up.servers
    → Picks m name up.servers
pick_server-Picks m name up found h =
    let idx = start_index m name % length up.servers in
    let steps = pick_server_lem m name up found h in
    let advanced = ap (λ r. start_index r.0 name) steps ∙ start_index-advance m name in
    elim (first_healthy_cases idx up.servers (length up.servers) 0 h) [
      | inl (s, e, f) ↦ record {
        server = s;
        returned = ap (λ r. r.1) steps ∙ unfold pick_from in rw (e, pick_from);
        advanced = advanced;
        choice = inl f;
      }
      | inr (e, all) ↦
          let (s, at) = get_elem?-lt up.servers idx (mod-lt _ h) in
          record {
            server = s;
            returned = ap (λ r. r.1) steps ∙ unfold pick_from in rw (e, pick_from) at;
            advanced = advanced;
            choice = inr (all, at);
          }
    ]

-- If any server of the upstream is healthy, `pick_server` returns a healthy one.
pub pick_server-healthy :
    (m : UpstreamManager) (name : Bytes) (up : Upstream) (k : ℕ) (t : UpstreamServer)
    → lookup name m.config.upstreams ≡ some up
    → get_elem? up.servers k ≡ some t
    → t.healthy ≡ true
    → k < length up.servers
    → (s : UpstreamServer) × ((pick_server m name).1 ≡ some s) × (s.healthy ≡ true)
pick_server-healthy m name up k t found at h in_range =
    let p = pick_server-Picks m name up found (omega arith) in
    let len = length up.servers in
    let idx = start_index m name % len in
    elim p.choice [
      | inl f ↦ (p.server, p.returned, f.healthy)
      | inr (all, at_idx) ↦
          let (d, below, meets) = distance_of idx k len (mod-lt _ (omega arith)) in_range in
          let there : get_elem? up.servers ((idx + d) % len) ≡ some t = rw meets at in
          let down = all d t (omega arith) (omega arith) there in cc (down, h)
    ]
