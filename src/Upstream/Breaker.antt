-- ===== src/Upstream/Breaker.antt =====
-- The circuit breaker against its specification: three phases.
use epoll_gateway.Base.{
  ℕ, ◌+◌, ◌-◌, ◌/◌, ◌≤◌, ◌<◌, Bool, true, false, not, List, [], ◌∷◌, ◌≡◌, ◌≢◌, refl, arith, leb,
  if◌then◌else◌,
}
use epoll_gateway.Base.Bytes.{Bytes, eq_bytes_iff}
use epoll_gateway.Base.Decimal.{free_of, join-injective, to_string-injective}
use epoll_gateway.Base.Int.{ℤ, pos, ltb_ℤ, at_least_one}
use epoll_gateway.Base.Table.{lookup-insert, lookup-insert_self}
use epoll_gateway.Config.Types.{UpstreamServer}
use epoll_gateway.Upstream.Circuit.{CircuitState, closed, allow, succeed, fail}
use epoll_gateway.Upstream.Manager.{
  UpstreamManager, circuit_key, circuit_of, allow_request, record_success, record_failure,
}

-- Closed after some failures in a row; open since a time; open, with a probe under way.
pub data Phase : Type 0 where
  counting : ℕ → Phase
  cooling probing : ℕ → Phase

pub phase : CircuitState → Phase
phase s =
    if not s.is_open
    then counting s.consecutive_failures
    else if s.half_open_probe
    then probing s.opened_at
    else cooling s.opened_at

-- What a request may do: it passes a closed circuit, it is the probe of one that has cooled down,
-- and it is refused otherwise.
pub spec_allow : Phase → ℕ → ℤ → Phase × Bool
spec_allow (counting n) now recovery = (counting n, true)
spec_allow (cooling t) now recovery =
    if ltb_ℤ (pos ((now - t) / 1000000)) recovery then (cooling t, false) else (probing t, true)
spec_allow (probing t) now recovery = (probing t, false)

pub spec_fail : Phase → ℕ → ℤ → Phase
spec_fail (counting n) now threshold =
    if leb (at_least_one threshold) (n + 1) then cooling now else counting (n + 1)
spec_fail (cooling t) now threshold = cooling now
spec_fail (probing t) now threshold = cooling now

-- A circuit that has met one threshold throughout.
pub record IsValid (threshold : ℤ) (s : CircuitState) : Type 0 where
  pub tripped : s.is_open ≡ true → at_least_one threshold ≤ s.consecutive_failures
  pub quiet : s.is_open ≡ false → s.half_open_probe ≡ false
  pub below : s.is_open ≡ false → s.consecutive_failures < at_least_one threshold

-- A new circuit is valid and has counted no failures, and each operation keeps a valid circuit
-- valid and moves the phase as the specification says: a request in the way of `spec_allow`, a success back to a closed circuit
-- with no failures, and a failure in the way of `spec_fail`.
pub circuit_refines :
    (threshold recovery : ℤ) (now : ℕ) (s : CircuitState)
    → IsValid threshold s
    → let (asked, allowed) = allow s now recovery in
      (IsValid threshold asked × ((phase asked, allowed) ≡ spec_allow (phase s) now recovery))
      × (IsValid threshold (succeed s) × (phase (succeed s) ≡ counting 0))
      × (IsValid threshold (fail s now threshold)
          × (phase (fail s now threshold) ≡ spec_fail (phase s) now threshold))
      × (IsValid threshold closed × (phase closed ≡ counting 0))
unfolding allow succeed fail phase spec_allow spec_fail
circuit_refines threshold recovery now s v = ground arith

-- Requests at the given times, with no outcome recorded in between: how many get through.
pub admitted : UpstreamManager → Bytes → UpstreamServer → ℤ → List ℕ → ℕ
admitted m name server recovery [] = 0
admitted m name server recovery (now ∷ later) =
    let (m', allowed) = allow_request m name server now recovery in
    (if allowed then 1 else 0) + admitted m' name server recovery later

admitted_probing :
    (m : UpstreamManager) (name : Bytes) (server : UpstreamServer) (recovery : ℤ) (nows : List ℕ)
    → (circuit_of m (circuit_key name server)).is_open ≡ true
    → (circuit_of m (circuit_key name server)).half_open_probe ≡ true
    → admitted m name server recovery nows ≡ 0
unfolding admitted allow_request allow circuit_of
admitted_probing m name server recovery [] o h = refl
admitted_probing m name server recovery (now ∷ later) o h = ground (
  arith,
  lookup-insert_self (circuit_key name server) (circuit_of m (circuit_key name server))
      m.circuit_states,
  admitted_probing (allow_request m name server now recovery).0 name server recovery later,
)

-- While a circuit is open and no outcome is recorded, at most one request gets through, however
-- many ask and whenever they ask.
pub admitted-le-one :
    (m : UpstreamManager) (name : Bytes) (server : UpstreamServer) (recovery : ℤ) (nows : List ℕ)
    → (circuit_of m (circuit_key name server)).is_open ≡ true
    → admitted m name server recovery nows ≤ 1
unfolding admitted allow_request allow circuit_of
admitted-le-one m name server recovery [] o = omega arith
admitted-le-one m name server recovery (now ∷ later) o =
    let key = circuit_key name server in
    let asked = (allow (circuit_of m key) now recovery).0 in
    let m' = (allow_request m name server now recovery).0 in
    ground (
      arith,
      lookup-insert_self key asked m.circuit_states,
      admitted_probing m' name server recovery later,
      admitted-le-one m' name server recovery later,
    )

-- The operations on one server's circuit leave every circuit with another key as it was.
pub circuits_independent :
    (m : UpstreamManager) (name key : Bytes) (server : UpstreamServer) (now : ℕ) (n : ℤ)
    → key ≢ circuit_key name server
    → (circuit_of (allow_request m name server now n).0 key ≡ circuit_of m key)
      × (circuit_of (record_success m name server) key ≡ circuit_of m key)
      × (circuit_of (record_failure m name server now n) key ≡ circuit_of m key)
unfolding circuit_of allow_request record_success record_failure
circuits_independent m name key server now n h =
    let ck = circuit_key name server in
    let s = circuit_of m ck in
    ground (
      arith,
      eq_bytes_iff ck key,
      lookup-insert ck key (allow s now n).0 m.circuit_states,
      lookup-insert ck key (succeed s) m.circuit_states,
      lookup-insert ck key (fail s now n) m.circuit_states,
    )

-- Two servers share a circuit only if they are the same server of the same upstream: no upstream
-- name holds a bar and no host a colon.
pub circuit_key-injective :
    (name name' : Bytes) (server server' : UpstreamServer)
    → free_of b'|' name ≡ true
    → free_of b'|' name' ≡ true
    → free_of b':' server.host ≡ true
    → free_of b':' server'.host ≡ true
    → circuit_key name server ≡ circuit_key name' server'
    → (name ≡ name') × (server.host ≡ server'.host) × (server.port ≡ server'.port)
unfolding circuit_key
circuit_key-injective name name' server server' fn fn' fh fh' e =
    let (names, rest) = join-injective b'|' name name' _ _ fn fn' e in
    let (hosts, ports) = join-injective b':' server.host server'.host _ _ fh fh' rest in
    (names, hosts, to_string-injective server.port server'.port ports)
