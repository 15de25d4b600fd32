-- ===== src/Client/Progress.antt =====
-- The loop of `run`: each turn that goes round again brings the exchange nearer to its end.
use epoll_gateway.Base.{
  ℕ, ◌+◌, ◌-◌, ◌≤◌, ◌<◌, Bool, true, false, [], ◌∷◌, Option, none, some, ◌≡◌, ◌≢◌, ◌⊎◌, inl, inr,
  refl, ap, ◌∙◌, arith, ltb, is_empty, length, length-append, if◌then◌else◌, Bool-cases, ltb→lt,
}
use epoll_gateway.Base.Bytes.{Bytes}
use epoll_gateway.Pool.Defs.{ConnectionPool, PooledConnection, checkout}
use epoll_gateway.Client.Headers.{BackendError}
use epoll_gateway.Client.Request.{Params, build_request}
use epoll_gateway.Pool.Identity.{pool_scheme}
use epoll_gateway.Client.Io.{
  Errno, Written, Received, Call, socket_send, socket_recv, ssl_write, ssl_read,
}
use epoll_gateway.Client.State.{
  Exchange, Phase, Turn, Opened, to_phase, refresh_deadline, open_connection, open_fresh,
  open_pooled, use_pooled, fail,
}
use epoll_gateway.Client.Framing.{FrameResult, try_frame, finish_ok}
use epoll_gateway.Client.Kept.{Kept, try_frame-Kept}
use epoll_gateway.Client.Run.{
  Round, after_fail, give_up, fails_with, time_out, after_opening, round_connect, round_connecting,
  round_handshake, sent, write_call, read_call, round_send, at_eof, peer_closes, received, framed,
  round_in, round,
}

abbrev pub request_length : Params → ℕ
request_length params = length (build_request params)

-- What is left to do in a phase.
abbrev left_in : Params → Phase → ℕ → ℕ → ℕ
left_in params Phase.connect off size = request_length params + params.max_response_bytes + 6
left_in params Phase.connecting off size = request_length params + params.max_response_bytes + 5
left_in params Phase.tls_handshake off size = request_length params + params.max_response_bytes + 4
left_in params Phase.send off size = request_length params - off + params.max_response_bytes + 3
left_in params Phase.read off size = params.max_response_bytes + 1 - size + 1
left_in params Phase.done off size = 0

-- The turns that the loop has left: a replay makes it start over once.
abbrev pub turns_left : Params → Exchange → ℕ
turns_left params x =
    (if x.retried then 0 else request_length params + params.max_response_bytes + 7)
    + left_in params x.phase x.send_off (length x.response_bytes)

-- The request is built once, and kept until a replay.
unfoldable pub IsBuilt : Params → Exchange → Type 0
IsBuilt params x = (x.request_bytes ≡ []) ⊎ (x.request_bytes ≡ build_request params)

abbrev pub Forward : Params → Exchange → Round → Type 0
Forward params x (Round.goes_on x') =
    (turns_left params x' < turns_left params x) × IsBuilt params x'
Forward params x (Round.wants want x') = IsBuilt params x'
Forward params x (Round.throws x') = IsBuilt params x' × (x'.retried ≡ x.retried)
Forward params x (Round.runs_on x') = IsBuilt params x'

module _ (params : Params) (idempotent : Bool) (fuel : ℕ) (turn : Turn) where
  give_up-Forward :
      (error : BackendError) (status : ℕ) (body : Bytes) (x x' : Exchange)
      → x'.retried ≡ x.retried
      → IsBuilt params x'
      → Forward params x (give_up params idempotent fuel turn error status body x')
  unfolding give_up after_fail fail IsBuilt refresh_deadline
  give_up-Forward error status body x x' s b = ground arith

  -- `open_connection` leaves Connect, and changes nothing else that counts.
  abbrev OpensFrom : Exchange → Opened → Type 0
  OpensFrom x (Opened.opened x') =
      (x'.retried ≡ x.retried)
      × (x'.request_bytes ≡ x.request_bytes)
      × (left_in params x'.phase x'.send_off (length x'.response_bytes)
          < request_length params + params.max_response_bytes + 6)
  OpensFrom x (Opened.not_opened x') =
      (x'.retried ≡ x.retried) × (x'.request_bytes ≡ x.request_bytes)
  OpensFrom x (Opened.threw x') = (x'.retried ≡ x.retried) × (x'.request_bytes ≡ x.request_bytes)

  open_fresh-OpensFrom : (x : Exchange) → OpensFrom x (open_fresh params turn x)
  unfolding open_fresh to_phase refresh_deadline
  open_fresh-OpensFrom x = ground arith

  use_pooled-OpensFrom :
      (x : Exchange) (conn : PooledConnection) (alive : Call Bool)
      → OpensFrom x (use_pooled params turn x conn alive)
  unfolding use_pooled to_phase refresh_deadline
  use_pooled-OpensFrom x conn Call.thrown = ground arith
  use_pooled-OpensFrom x conn (Call.returned true) = ground arith
  use_pooled-OpensFrom x conn (Call.returned false) = open_fresh-OpensFrom x

  open_pooled-OpensFrom :
      (x : Exchange) (found : ConnectionPool × Option PooledConnection)
      → OpensFrom x (open_pooled params turn x found)
  unfolding open_pooled
  open_pooled-OpensFrom x (pool, none) = open_fresh-OpensFrom (record x { pool = pool })
  open_pooled-OpensFrom x (pool, some conn) = use_pooled-OpensFrom (record x { pool = pool }) conn _

  open_connection-OpensFrom : (x : Exchange) → OpensFrom x (open_connection params turn x)
  unfolding open_connection
  open_connection-OpensFrom x =
      let start = record x { used_pooled = false } in
      ground (
        arith,
        open_fresh-OpensFrom start,
        open_pooled-OpensFrom start
            (checkout x.pool params.host params.port (pool_scheme params.tls) turn.clock),
      )

  fails_with-Forward :
      (error : BackendError) (x x' : Exchange)
      → x'.retried ≡ x.retried
      → IsBuilt params x'
      → Forward params x (fails_with params idempotent fuel turn error x')
  unfolding fails_with
  fails_with-Forward error x x' = give_up-Forward error 502 _ x x'

  after_opening-Forward :
      (x : Exchange) (o : Opened)
      → x.phase ≡ Phase.connect
      → IsBuilt params x
      → OpensFrom x o
      → Forward params x (after_opening params idempotent fuel turn o)
  unfolding after_opening IsBuilt
  after_opening-Forward x (Opened.opened x') p b h = ground arith
  after_opening-Forward x (Opened.threw x') p b h = ground arith
  after_opening-Forward x (Opened.not_opened x') p b h =
      fails_with-Forward _ x x' h.0 (ground arith)

  round_connecting-Forward :
      (ev : Bool) (x : Exchange)
      → x.phase ≡ Phase.connecting
      → IsBuilt params x
      → Forward params x (round_connecting params idempotent fuel turn ev x)
  unfolding round_connecting IsBuilt to_phase refresh_deadline
  round_connecting-Forward ev x p b =
      ground (arith, fails_with-Forward BackendError.connect_failed x x refl b)

  round_handshake-Forward :
      (x : Exchange)
      → x.phase ≡ Phase.tls_handshake
      → IsBuilt params x
      → Forward params x (round_handshake params idempotent fuel turn x)
  unfolding round_handshake IsBuilt to_phase refresh_deadline
  round_handshake-Forward x p b =
      ground (arith, fails_with-Forward BackendError.connect_failed x x refl b)

  -- No call of a socket's methods answers EINTR.
  abbrev IsLasting : Call Written → Type 0
  IsLasting call = call ≢ Call.returned (Written.refused Errno.eintr)

  write_call-IsLasting : IsLasting (write_call params idempotent fuel turn)
  unfolding write_call socket_send ssl_write
  write_call-IsLasting = ground arith

  read_call-lasting :
      read_call params idempotent fuel turn ≢ Call.returned (Received.failed Errno.eintr)
  unfolding read_call socket_recv ssl_read
  read_call-lasting = ground arith

  sent-Forward :
      (x x' : Exchange) (call : Call Written)
      → x'.phase ≡ Phase.send
      → x'.retried ≡ x.retried
      → x'.send_off ≡ x.send_off
      → x.phase ≡ Phase.send
      → IsBuilt params x'
      → x'.send_off < request_length params
      → IsLasting call
      → Forward params x (sent params idempotent fuel turn x' call)
  unfolding sent IsBuilt refresh_deadline
  sent-Forward x x' call p' s o p b lt h =
      ground (arith, fails_with-Forward BackendError.write_failed x x' s b)

  round_send-Forward :
      (x : Exchange)
      → x.phase ≡ Phase.send
      → IsBuilt params x
      → Forward params x (round_send params idempotent fuel turn x)
  unfolding round_send IsBuilt to_phase refresh_deadline
  round_send-Forward x p b =
      let text = if is_empty x.request_bytes then build_request params else x.request_bytes in
      let x' = record x { request_bytes = text } in
      let whole : text ≡ build_request params = ground arith in
      let b' : IsBuilt params x' = inr whole in
      let n : length text ≡ request_length params = ap length whole in
      elim (Bool-cases (ltb x.send_off (length text))) [
        | inl more ↦ rw more (
            sent-Forward x x' _ p refl refl p b' (omega (arith, n, ltb→lt _ _ more))
              write_call-IsLasting)
        | inr all_sent ↦ rw all_sent (ground arith, b')
      ]

  -- The reads of a turn, behind a frame that is not complete.
  peer_closes-Forward :
      (x x' : Exchange)
      → x'.retried ≡ x.retried
      → IsBuilt params x'
      → Forward params x (peer_closes params idempotent fuel turn x')
  unfolding peer_closes at_eof IsBuilt finish_ok
  peer_closes-Forward x x' s b =
      let closed = record x' { peer_closed = true } in
      let again = try_frame fuel params.max_response_bytes closed in
      let k = try_frame-Kept fuel params.max_response_bytes closed in
      ground (
        arith,
        fails_with-Forward BackendError.read_failed x closed s b,
        fails_with-Forward BackendError.read_failed x again.0 (k.retried ∙ s) (ground (arith, k)),
        k,
      )

  received-Forward :
      (x x' : Exchange) (call : Call Received)
      → x.phase ≡ Phase.read
      → Kept x x'
      → IsBuilt params x'
      → length x'.response_bytes ≤ params.max_response_bytes
      → call ≢ Call.returned (Received.failed Errno.eintr)
      → Forward params x (received params idempotent fuel turn x' call)
  unfolding received IsBuilt refresh_deadline
  received-Forward x x' Call.thrown p k b small lasting = (b, k.retried)
  received-Forward x x' (Call.returned Received.closed) p k b small lasting =
      peer_closes-Forward x x' k.retried b
  received-Forward x x' (Call.returned (Received.bytes c cs)) p k b small lasting =
      ground (arith, k, length-append x'.response_bytes (c ∷ cs), ap length k.response_bytes)
  received-Forward x x' (Call.returned (Received.failed e)) p k b small lasting =
      ground (arith, fails_with-Forward BackendError.read_failed x x' k.retried b)

  framed-Forward :
      (x x' : Exchange) (frame : FrameResult)
      → x.phase ≡ Phase.read
      → Kept x x'
      → IsBuilt params x'
      → Forward params x (framed params idempotent fuel turn (x', frame))
  unfolding framed IsBuilt finish_ok
  framed-Forward x x' FrameResult.complete p k b = unfold finish_ok in ground arith
  framed-Forward x x' FrameResult.error p k b =
      fails_with-Forward BackendError.invalid_response x x' k.retried b
  framed-Forward x x' FrameResult.runs_on p k b = b
  framed-Forward x x' FrameResult.throws p k b = (b, k.retried)
  framed-Forward x x' FrameResult.incomplete p k b =
      elim (Bool-cases (ltb params.max_response_bytes (length x'.response_bytes))) [
        | inl long ↦ rw long (fails_with-Forward BackendError.read_failed x x' k.retried b)
        | inr short ↦ rw short (
            received-Forward x x' (read_call params idempotent fuel turn) p k b (ground arith)
              read_call-lasting)
      ]

  time_out-Forward :
      (phase : Phase) (x : Exchange)
      → IsBuilt params x
      → Forward params x (time_out params idempotent fuel turn phase x)
  unfolding time_out
  time_out-Forward Phase.done x b = b
  time_out-Forward Phase.connect x b = give_up-Forward _ _ _ x x refl b
  time_out-Forward Phase.connecting x b = give_up-Forward _ _ _ x x refl b
  time_out-Forward Phase.tls_handshake x b = give_up-Forward _ _ _ x x refl b
  time_out-Forward Phase.send x b = give_up-Forward _ _ _ x x refl b
  time_out-Forward Phase.read x b = give_up-Forward _ _ _ x x refl b

  round_in-Forward :
      (phase : Phase) (ev : Bool) (x : Exchange)
      → x.phase ≡ phase
      → IsBuilt params x
      → Forward params x (round_in params idempotent fuel turn phase ev x)
  unfolding round_in round_connect
  round_in-Forward Phase.done ev x p b = b
  round_in-Forward Phase.connect ev x p b =
      after_opening-Forward x _ p b (open_connection-OpensFrom x)
  round_in-Forward Phase.connecting ev x p b = round_connecting-Forward ev x p b
  round_in-Forward Phase.tls_handshake ev x p b = round_handshake-Forward x p b
  round_in-Forward Phase.send ev x p b = round_send-Forward x p b
  round_in-Forward Phase.read ev x p b =
      let k = try_frame-Kept fuel params.max_response_bytes x in
      framed-Forward x _ (try_frame fuel params.max_response_bytes x).1 p k
        (unfold IsBuilt in ground (arith, k))

  pub round-Forward :
      (ev : Bool) (x : Exchange)
      → IsBuilt params x
      → Forward params x (round params idempotent fuel turn ev x)
  unfolding round
  round-Forward ev x b =
      ground (arith, time_out-Forward x.phase x b, round_in-Forward x.phase ev x refl b, b)
