-- ===== src/Client/State.antt =====
-- The state of an `UpstreamExchange`, and the functions that set up a connection or give one up.
use epoll_gateway.Base.{
  ℕ, ◌+◌, ◌*◌, Bool, true, false, not, ◌&&◌, ◌||◌, [], Option, none, some, if◌then◌else◌, leb,
  length, drop,
}
use epoll_gateway.Base.Bytes.{Bytes, ascii}
use epoll_gateway.Base.Table.{Table}
use epoll_gateway.Base.Int.{ℤ, pos, negsuc, is_nonpos}
use epoll_gateway.Pool.Defs.{ConnectionPool, PooledConnection, checkout, checkin, invalidate}
use epoll_gateway.Client.Headers.{BackendError}
use epoll_gateway.Client.Request.{Params}
use epoll_gateway.Pool.Identity.{pool_scheme}
use epoll_gateway.Client.Io.{
  WaitResult, SslHandshakeStatus, SslAnswer, Written, Received, Call, socket_recv,
}

pub record BackendResponse : Type 0 where
  pub status_code : ℤ
  pub headers : Table Bytes
  pub body : Bytes
  pub error : BackendError

unfoldable pub make_error_response : ℤ → BackendError → Bytes → BackendResponse
make_error_response status_code error body = record {
  status_code = status_code;
  headers = [];
  body = body;
  error = error;
}

pub data Phase : Type 0 where
  connect connecting tls_handshake send read done : Phase

-- `pool` is the process-wide `global_connection_pool()`. A socket is a number, as in the pool.
pub record Exchange : Type 0 where
  pub phase : Phase
  pub sock : Option ℕ
  pub used_pooled : Bool
  pub retried : Bool
  pub force_fresh : Bool
  pub request_bytes : Bytes
  pub send_off : ℕ
  pub response_bytes : Bytes
  pub body_end : Option ℕ
  pub response_keepalive : Bool
  pub response_is_chunked : Bool
  pub peer_closed : Bool
  pub decoded_body : Bytes
  pub succeeded : Bool
  pub result : BackendResponse
  pub deadline : ℕ
  pub pool : ConnectionPool

-- How opening a fresh socket goes: a throw of `Socket`, `setnonblocking` or `setnodelay`, an address
-- that `inet_pton` refuses, and a throw of `connect` or its two answers.
pub data Opening : Type 0 where
  no_socket bad_address connect_error : Opening
  in_progress connected : ℕ → Opening

-- What the calls of one turn of the loop in `run` answer. `now` is the time that `expired` reads and
-- `clock` the later one of `refresh_deadline`; `context` is whether there is an SSL_CTX and
-- `initSSLClient` succeeds; `is_ssl` is `get_is_ssl_()` of the turn's socket.
pub record Turn : Type 0 where
  pub now : ℕ
  pub clock : ℕ
  pub opening : Opening
  pub probe : WaitResult
  pub probe_is_ssl : Bool
  pub ssl_alive : Bool
  pub peek : Received
  pub socket_error : ℕ
  pub context : Bool
  pub handshake : SslHandshakeStatus
  pub is_ssl : Bool
  pub writing : Written
  pub reading : Received
  pub ssl_writing : SslAnswer ℕ
  pub ssl_reading : SslAnswer (ℕ × Bytes)

-- In nanoseconds. A timeout that is not positive leaves the exchange done, and no deadline is read.
abbrev pub timeout_ns : ℤ → ℕ
timeout_ns (pos ms) = ms * 1000000
timeout_ns (negsuc n) = 0

unfoldable pub refresh_deadline : Params → Turn → Exchange → Exchange
refresh_deadline params turn x = record x { deadline = turn.clock + timeout_ns params.timeout_ms }

unfoldable pub expired : Turn → Exchange → Bool
expired turn x = leb x.deadline turn.now

-- The constructor.
unfoldable pub new_exchange : Params → ConnectionPool → ℕ → Exchange
unfolding make_error_response
new_exchange params pool clock =
    let late = is_nonpos params.timeout_ms in
    record {
      phase = if late then Phase.done else Phase.connect;
      sock = none;
      used_pooled = false;
      retried = false;
      force_fresh = false;
      request_bytes = [];
      send_off = 0;
      response_bytes = [];
      body_end = none;
      response_keepalive = false;
      response_is_chunked = false;
      peer_closed = false;
      decoded_body = [];
      succeeded = false;
      result =
          if late
          then make_error_response (pos 504) BackendError.connect_timeout (ascii "Gateway Timeout")
          else make_error_response (pos 502) BackendError.connect_failed (ascii "Bad Gateway");
      deadline = clock + timeout_ns params.timeout_ms;
      pool = pool;
    }

unfoldable pub to_phase : Params → Turn → Phase → Exchange → Exchange
unfolding refresh_deadline
to_phase params turn phase x = refresh_deadline params turn (record x { phase = phase })

-- What `open_fresh` and `open_connection` return, or that they threw.
pub data Opened : Type 0 where
  opened not_opened threw : Exchange → Opened

unfoldable pub open_fresh : Params → Turn → Exchange → Opened
open_fresh params turn x = elim turn.opening [
  | Opening.no_socket ↦ Opened.not_opened (record x { sock = none })
  | Opening.bad_address ↦ Opened.not_opened (record x { sock = none })
  | Opening.connect_error ↦ Opened.not_opened (record x { sock = none })
  | Opening.in_progress socket ↦
      Opened.opened (to_phase params turn Phase.connecting (record x { sock = some socket }))
  | Opening.connected socket ↦
      if not params.tls.enable
      then Opened.opened (to_phase params turn Phase.send (record x { sock = some socket }))
      else if not turn.context
      then Opened.not_opened (record x { sock = none })
      else Opened.opened
          (to_phase params turn Phase.tls_handshake (record x { sock = some socket }))
]

-- The probe of a pooled socket: `alive`, or a throw of `recv`.
unfoldable pub probe_alive : Turn → Call Bool
unfolding socket_recv
probe_alive turn = elim turn.probe [
  | WaitResult.timeout ↦ Call.returned true
  | WaitResult.error ↦ Call.returned true
  | WaitResult.ready ↦
      if turn.probe_is_ssl then Call.returned turn.ssl_alive else elim (socket_recv turn.peek) [
        | Call.thrown ↦ Call.thrown
        | Call.returned (Received.bytes c cs) ↦ Call.returned true
        | Call.returned Received.closed ↦ Call.returned false
        | Call.returned (Received.failed e) ↦ Call.returned false
      ]
]

-- What `open_connection` does with a pooled connection, given the probe's answer.
unfoldable pub use_pooled : Params → Turn → Exchange → PooledConnection → Call Bool → Opened
use_pooled params turn x conn Call.thrown = Opened.threw x
use_pooled params turn x conn (Call.returned true) = Opened.opened (
    to_phase params turn Phase.send
      (record x { sock = some conn.socket; used_pooled = true; response_bytes = conn.leftover }))
use_pooled params turn x conn (Call.returned false) = open_fresh params turn x

unfoldable pub open_pooled :
    Params → Turn → Exchange → ConnectionPool × Option PooledConnection → Opened
open_pooled params turn x (pool, none) = open_fresh params turn (record x { pool = pool })
open_pooled params turn x (pool, some conn) =
    use_pooled params turn (record x { pool = pool }) conn (probe_alive turn)

unfoldable pub open_connection : Params → Turn → Exchange → Opened
open_connection params turn x =
    let start = record x { used_pooled = false } in
    if not x.force_fresh
    then open_pooled params turn start
        (checkout x.pool params.host params.port (pool_scheme params.tls) turn.clock)
    else open_fresh params turn start

-- `fail`, with whether a replay was started; `idempotent` is the exchange's constant.
unfoldable pub fail : Params → Bool → Turn → BackendError → ℤ → Bytes → Exchange → Exchange × Bool
unfolding make_error_response
fail params idempotent turn error http_status body x =
    let dropped = record x {
      pool =
          if x.used_pooled
          then invalidate x.pool params.host params.port (pool_scheme params.tls)
          else x.pool;
    } in
    if x.used_pooled && (idempotent && not x.retried)
    then (
      refresh_deadline params turn (record dropped {
        retried = true;
        force_fresh = true;
        used_pooled = false;
        sock = none;
        response_bytes = [];
        decoded_body = [];
        request_bytes = [];
        send_off = 0;
        body_end = none;
        response_keepalive = false;
        response_is_chunked = false;
        peer_closed = false;
        phase = Phase.connect;
      }),
      true,
    )
    else (
      record dropped {
        result = make_error_response http_status error body;
        succeeded = false;
        phase = Phase.done;
      },
      false,
    )

-- `reuse_to_pool`, which gives the socket back to the pool.
unfoldable pub reuse_to_pool : Params → ℕ → Exchange → Exchange
reuse_to_pool params clock x = elim x.sock [
  | none ↦ x
  | some socket ↦
      if not x.succeeded || (not x.response_keepalive || x.peer_closed)
      then x
      else let leftover : Bytes = elim x.body_end [
        | none ↦ []
        | some n ↦ if leb (length x.response_bytes) n then [] else drop n x.response_bytes
      ] in
        let conn : PooledConnection = record {
          socket = socket;
          leftover = leftover;
          last_used = clock;
        } in
        record x {
          pool = checkin x.pool params.host params.port (pool_scheme params.tls) conn clock;
          sock = none;
        }
]
