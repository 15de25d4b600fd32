-- ===== src/Client/SafeTurns.antt =====
-- Each turn of the loop of `run` keeps an exchange safe.
use epoll_gateway.Base.{
  ℕ, Bool, true, false, Option, none, some, ◌≡◌, inl, inr, refl, arith, ltb, is_empty, length,
  if◌then◌else◌, Bool-cases,
}
use epoll_gateway.Base.Bytes.{Bytes}
use epoll_gateway.Pool.Defs.{ConnectionPool, PooledConnection, checkout}
use epoll_gateway.Client.Headers.{BackendError}
use epoll_gateway.Client.Request.{Params, build_request}
use epoll_gateway.Pool.Identity.{pool_scheme}
use epoll_gateway.Client.Io.{Written, Received, Call}
use epoll_gateway.Client.State.{
  Exchange, Phase, Turn, Opened, to_phase, refresh_deadline, open_connection, open_fresh,
  open_pooled, use_pooled, fail, make_error_response,
}
use epoll_gateway.Client.Framing.{FrameResult, try_frame, finish_ok}
use epoll_gateway.Client.Kept.{Kept, try_frame-Kept}
use epoll_gateway.Client.Run.{
  after_fail, give_up, fails_with, time_out, after_opening, round_connect, round_connecting,
  round_handshake, sent, write_call, read_call, round_send, at_eof, peer_closes, received, framed,
  round_in, round,
}
use epoll_gateway.Client.Safe.{is_connect, is_done, is_safe, Later, Step, Giving, Near}

module _ (params : Params) (idempotent : Bool) (fuel : ℕ) (turn : Turn) where
  give_up-Step :
      (error : BackendError) (status : ℕ) (body : Bytes) (x x' : Exchange)
      → Giving idempotent x x'
      → Step idempotent x (give_up params idempotent fuel turn error status body x')
  unfolding give_up after_fail fail refresh_deadline
  give_up-Step error status body x x' h = ground arith

  fails_with-Step :
      (error : BackendError) (x x' : Exchange)
      → Near idempotent x x'
      → Step idempotent x (fails_with params idempotent fuel turn error x')
  unfolding fails_with
  fails_with-Step error x x' n = give_up-Step error 502 _ x x' (ground arith)

  -- `open_connection` leaves Connect, and keeps the mark of a replay.
  abbrev Opens : Exchange → Opened → Type 0
  Opens x (Opened.opened x') =
      (is_safe idempotent x' ≡ true) × (x'.retried ≡ x.retried) × (is_connect x'.phase ≡ false)
  Opens x (Opened.not_opened x') =
      (is_safe idempotent x' ≡ true)
      × (x'.retried ≡ x.retried)
      × (x'.used_pooled ≡ false)
      × (x'.succeeded ≡ false)
  Opens x (Opened.threw x') =
      (is_safe idempotent x' ≡ true) × (x'.retried ≡ x.retried) × (x'.succeeded ≡ false)

  open_fresh-Opens :
      (x : Exchange)
      → is_safe idempotent x ≡ true
      → x.used_pooled ≡ false
      → x.succeeded ≡ false
      → Opens x (open_fresh params turn x)
  unfolding open_fresh to_phase refresh_deadline
  open_fresh-Opens x h u s = ground arith

  use_pooled-Opens :
      (x : Exchange) (conn : PooledConnection) (alive : Call Bool)
      → is_safe idempotent x ≡ true
      → x.used_pooled ≡ false
      → x.succeeded ≡ false
      → x.retried ≡ false
      → Opens x (use_pooled params turn x conn alive)
  unfolding use_pooled to_phase refresh_deadline
  use_pooled-Opens x conn Call.thrown h u s r = ground arith
  use_pooled-Opens x conn (Call.returned true) h u s r = ground arith
  use_pooled-Opens x conn (Call.returned false) h u s r = open_fresh-Opens x h u s

  open_pooled-Opens :
      (x : Exchange) (found : ConnectionPool × Option PooledConnection)
      → is_safe idempotent x ≡ true
      → x.used_pooled ≡ false
      → x.succeeded ≡ false
      → x.retried ≡ false
      → Opens x (open_pooled params turn x found)
  unfolding open_pooled
  open_pooled-Opens x (pool, none) h u s r = open_fresh-Opens (record x { pool = pool }) h u s
  open_pooled-Opens x (pool, some conn) h u s r =
      use_pooled-Opens (record x { pool = pool }) conn _ h u s r

  open_connection-Opens :
      (x : Exchange)
      → is_safe idempotent x ≡ true
      → x.succeeded ≡ false
      → Opens x (open_connection params turn x)
  unfolding open_connection
  open_connection-Opens x h s =
      let start = record x { used_pooled = false } in
      let h' : is_safe idempotent start ≡ true = ground arith in
      ground (
        arith,
        open_fresh-Opens start h' refl s,
        open_pooled-Opens start
            (checkout x.pool params.host params.port (pool_scheme params.tls) turn.clock) h' refl s,
      )

  round_connect-Step :
      (x : Exchange)
      → is_safe idempotent x ≡ true
      → x.phase ≡ Phase.connect
      → Step idempotent x (round_connect params idempotent fuel turn x)
  unfolding round_connect
  round_connect-Step x h p =
      after (open_connection params turn x) (open_connection-Opens x h (ground arith))
    where
      after :
          (o : Opened) → Opens x o → Step idempotent x (after_opening params idempotent fuel turn o)
      after (Opened.opened x') o = unfold after_opening in ground arith
      after (Opened.threw x') o = unfold after_opening in ground arith
      after (Opened.not_opened x') o = unfold after_opening in (ground arith)

  round_connecting-Step :
      (ev : Bool) (x : Exchange)
      → is_safe idempotent x ≡ true
      → x.phase ≡ Phase.connecting
      → Step idempotent x (round_connecting params idempotent fuel turn ev x)
  unfolding round_connecting to_phase refresh_deadline
  round_connecting-Step ev x h p =
      ground (arith, fails_with-Step BackendError.connect_failed x x (ground arith))

  round_handshake-Step :
      (x : Exchange)
      → is_safe idempotent x ≡ true
      → x.phase ≡ Phase.tls_handshake
      → Step idempotent x (round_handshake params idempotent fuel turn x)
  unfolding round_handshake to_phase refresh_deadline
  round_handshake-Step x h p =
      ground (arith, fails_with-Step BackendError.connect_failed x x (ground arith))

  sent-Step :
      (x x' : Exchange) (call : Call Written)
      → Near idempotent x x'
      → Step idempotent x (sent params idempotent fuel turn x' call)
  unfolding sent refresh_deadline
  sent-Step x x' call h = ground (arith, fails_with-Step BackendError.write_failed x x' h)

  round_send-Step :
      (x : Exchange)
      → is_safe idempotent x ≡ true
      → x.phase ≡ Phase.send
      → Step idempotent x (round_send params idempotent fuel turn x)
  unfolding round_send to_phase refresh_deadline
  round_send-Step x h p =
      let text = if is_empty x.request_bytes then build_request params else x.request_bytes in
      let x' = record x { request_bytes = text } in
      let near : Near idempotent x x' = ground arith in
      ground (arith, near, sent-Step x x' (write_call params idempotent fuel turn) near)

  Near-Kept : (x x' x'' : Exchange) → Near idempotent x x' → Kept x' x'' → Near idempotent x x''
  Near-Kept x x' x'' n k = ground arith

  finish_ok-Later : (x x' : Exchange) → Near idempotent x x' → Later idempotent x (finish_ok x')
  unfolding finish_ok make_error_response
  finish_ok-Later x x' n = ground arith

  peer_closes-Step :
      (x x' : Exchange)
      → Near idempotent x x'
      → Step idempotent x (peer_closes params idempotent fuel turn x')
  unfolding peer_closes
  peer_closes-Step x x' n =
      let closed = record x' { peer_closed = true } in
      let near : Near idempotent x closed = ground arith in
      ground (
        arith,
        fails_with-Step BackendError.read_failed x closed near,
        ends (try_frame fuel params.max_response_bytes closed)
            (Near-Kept x closed _ near (try_frame-Kept fuel params.max_response_bytes closed)),
      )
    where
      ends :
          (a : Exchange × FrameResult)
          → Near idempotent x a.0
          → Step idempotent x (at_eof params idempotent fuel turn a)
      ends (x'', FrameResult.complete) k = unfold at_eof in finish_ok-Later x x'' k
      ends (x'', FrameResult.runs_on) k = unfold at_eof in (ground arith)
      ends (x'', FrameResult.throws) k = unfold at_eof in (ground arith)
      ends (x'', FrameResult.incomplete) k =
          unfold at_eof in fails_with-Step BackendError.read_failed x x'' k
      ends (x'', FrameResult.error) k =
          unfold at_eof in fails_with-Step BackendError.read_failed x x'' k

  received-Step :
      (x x' : Exchange) (call : Call Received)
      → Near idempotent x x'
      → Step idempotent x (received params idempotent fuel turn x' call)
  unfolding received refresh_deadline
  received-Step x x' Call.thrown n = ground arith
  received-Step x x' (Call.returned Received.closed) n = peer_closes-Step x x' n
  received-Step x x' (Call.returned (Received.bytes c cs)) n = ground arith
  received-Step x x' (Call.returned (Received.failed e)) n =
      ground (arith, fails_with-Step BackendError.read_failed x x' n)

  framed-Step :
      (x x' : Exchange) (frame : FrameResult)
      → Near idempotent x x'
      → Step idempotent x (framed params idempotent fuel turn (x', frame))
  unfolding framed
  framed-Step x x' FrameResult.complete n = finish_ok-Later x x' n
  framed-Step x x' FrameResult.error n = fails_with-Step BackendError.invalid_response x x' n
  framed-Step x x' FrameResult.runs_on n = ground arith
  framed-Step x x' FrameResult.throws n = ground arith
  framed-Step x x' FrameResult.incomplete n =
      elim (Bool-cases (ltb params.max_response_bytes (length x'.response_bytes))) [
        | inl long ↦ rw long (fails_with-Step BackendError.read_failed x x' n)
        | inr short ↦ rw short (received-Step x x' (read_call params idempotent fuel turn) n)
      ]

  time_out-Step :
      (x : Exchange) (phase : Phase)
      → is_safe idempotent x ≡ true
      → is_done x.phase ≡ false
      → Step idempotent x (time_out params idempotent fuel turn phase x)
  unfolding time_out
  time_out-Step x Phase.connect h d = give_up-Step _ _ _ x x (ground arith)
  time_out-Step x Phase.connecting h d = give_up-Step _ _ _ x x (ground arith)
  time_out-Step x Phase.tls_handshake h d = give_up-Step _ _ _ x x (ground arith)
  time_out-Step x Phase.send h d = give_up-Step _ _ _ x x (ground arith)
  time_out-Step x Phase.read h d = give_up-Step _ _ _ x x (ground arith)
  time_out-Step x Phase.done h d = ground arith

  round_in-Step :
      (phase : Phase) (ev : Bool) (x : Exchange)
      → x.phase ≡ phase
      → is_safe idempotent x ≡ true
      → Step idempotent x (round_in params idempotent fuel turn phase ev x)
  unfolding round_in
  round_in-Step Phase.done ev x p h = ground arith
  round_in-Step Phase.connect ev x p h = round_connect-Step x h p
  round_in-Step Phase.connecting ev x p h = round_connecting-Step ev x h p
  round_in-Step Phase.tls_handshake ev x p h = round_handshake-Step x h p
  round_in-Step Phase.send ev x p h = round_send-Step x h p
  round_in-Step Phase.read ev x p h =
      framed-Step x _ (try_frame fuel params.max_response_bytes x).1
        (Near-Kept x x _ (ground arith) (try_frame-Kept fuel params.max_response_bytes x))

  pub round-Step :
      (ev : Bool) (x : Exchange)
      → is_safe idempotent x ≡ true
      → Step idempotent x (round params idempotent fuel turn ev x)
  unfolding round
  round-Step ev x h =
      ground (arith, time_out-Step x x.phase h, round_in-Step x.phase ev x refl h, h)
