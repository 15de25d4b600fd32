-- ===== src/Client/Run.antt =====
-- `UpstreamExchange::run` and `advance`: the state machine that the event loop drives.
use epoll_gateway.Base.{
  ℕ, suc, ◌+◌, Bool, true, false, not, ◌&&◌, List, [], ◌∷◌, ◌++◌, ◌==◌, ltb, is_empty, length,
  if◌then◌else◌,
}
use epoll_gateway.Base.Bytes.{Bytes, ascii, find_sub}
use epoll_gateway.Base.Int.{pos}
use epoll_gateway.Base.Table.{is_some}
use epoll_gateway.Client.Headers.{BackendError}
use epoll_gateway.Client.Request.{Params, build_request}
use epoll_gateway.Client.Io.{
  Errno, SslHandshakeStatus, SslWant, Written, Received, Call, socket_send, socket_recv, ssl_write,
  ssl_read,
}
use epoll_gateway.Client.State.{
  Exchange, Phase, Turn, Opened, to_phase, refresh_deadline, expired, open_connection, fail,
}
use epoll_gateway.Client.Framing.{FrameResult, blank_line, try_frame, finish_ok}

pub data Want : Type 0 where
  read write done : Want

-- How a turn of the loop ends: it goes round again, it returns, a call throws, or the scan of a
-- chunked body does not end on its fuel.
pub data Round : Type 0 where
  goes_on : Exchange → Round
  wants : Want → Exchange → Round
  throws runs_on : Exchange → Round

-- `if (fail(...)) continue; return Want::Done;`.
unfoldable pub after_fail : Exchange × Bool → Round
after_fail (x, true) = Round.goes_on x
after_fail (x, false) = Round.wants Want.done x

module _ (params : Params) (idempotent : Bool) (fuel : ℕ) (turn : Turn) where
  unfoldable pub give_up : BackendError → ℕ → Bytes → Exchange → Round
  unfolding after_fail fail
  give_up error http_status body x =
      after_fail (fail params idempotent turn error (pos http_status) body x)

  unfoldable pub fails_with : BackendError → Exchange → Round
  unfolding give_up
  fails_with error x = give_up error 502 (ascii "Bad Gateway") x

  unfoldable pub time_out : Phase → Exchange → Round
  unfolding give_up
  time_out Phase.send x = give_up BackendError.write_timeout 504 (ascii "Gateway Timeout") x
  time_out Phase.read x = give_up BackendError.read_timeout 504 (ascii "Gateway Timeout") x
  time_out Phase.done x = Round.wants Want.done x
  time_out _ x = give_up BackendError.connect_timeout 504 (ascii "Gateway Timeout") x

  unfoldable pub after_opening : Opened → Round
  unfolding fails_with
  after_opening (Opened.opened x) = Round.goes_on x
  after_opening (Opened.not_opened x) = fails_with BackendError.connect_failed x
  after_opening (Opened.threw x) = Round.throws x

  unfoldable pub round_connect : Exchange → Round
  unfolding after_opening
  round_connect x = after_opening (open_connection params turn x)

  -- `ev` is whether there was an event.
  unfoldable pub round_connecting : Bool → Exchange → Round
  unfolding fails_with to_phase
  round_connecting ev x =
      if not ev
      then Round.wants Want.write x
      else if not (turn.socket_error == 0)
      then fails_with BackendError.connect_failed x
      else if not params.tls.enable
      then Round.goes_on (to_phase params turn Phase.send x)
      else if not turn.context
      then fails_with BackendError.connect_failed x
      else Round.goes_on (to_phase params turn Phase.tls_handshake x)

  unfoldable pub round_handshake : Exchange → Round
  unfolding fails_with to_phase refresh_deadline
  round_handshake x = elim turn.handshake [
    | SslHandshakeStatus.complete ↦ Round.goes_on (to_phase params turn Phase.send x)
    | SslHandshakeStatus.failed ↦ fails_with BackendError.connect_failed x
    | SslHandshakeStatus.want_read ↦ Round.wants Want.read (refresh_deadline params turn x)
    | SslHandshakeStatus.want_write ↦ Round.wants Want.write (refresh_deadline params turn x)
  ]

  -- The direction to wait in, where a call would block.
  unfoldable pub write_want : Want
  unfolding ssl_write
  write_want =
      if turn.is_ssl
      then elim (ssl_write turn.ssl_writing).1 [ SslWant.read ↦ Want.read | _ ↦ Want.write ]
      else Want.write

  unfoldable pub read_want : Want
  unfolding ssl_read
  read_want =
      if turn.is_ssl
      then elim (ssl_read turn.ssl_reading).1 [ SslWant.write ↦ Want.write | _ ↦ Want.read ]
      else Want.read

  -- What the write of the bytes that are left answers.
  unfoldable pub sent : Exchange → Call Written → Round
  unfolding fails_with refresh_deadline write_want
  sent x Call.thrown = Round.throws x
  sent x (Call.returned (Written.wrote n)) =
      Round.goes_on (refresh_deadline params turn (record x { send_off = x.send_off + suc n }))
  sent x (Call.returned (Written.refused Errno.eintr)) = Round.goes_on x
  sent x (Call.returned (Written.refused Errno.eagain)) =
      Round.wants write_want (refresh_deadline params turn x)
  sent x (Call.returned (Written.refused _)) = fails_with BackendError.write_failed x

  unfoldable pub write_call : Call Written
  unfolding socket_send ssl_write
  write_call =
      if turn.is_ssl then Call.returned (ssl_write turn.ssl_writing).0 else socket_send turn.writing

  unfoldable pub read_call : Call Received
  unfolding socket_recv ssl_read
  read_call =
      if turn.is_ssl then Call.returned (ssl_read turn.ssl_reading).0 else socket_recv turn.reading

  unfoldable pub round_send : Exchange → Round
  unfolding sent to_phase write_call
  round_send x =
      let built = record x {
        request_bytes = if is_empty x.request_bytes then build_request params else x.request_bytes;
      } in
      if ltb built.send_off (length built.request_bytes)
      then sent built write_call
      else Round.goes_on (to_phase params turn Phase.read built)

  -- The end of the stream: with close-delimited framing, it completes the response.
  unfoldable pub at_eof : Exchange × FrameResult → Round
  unfolding fails_with
  at_eof (x, FrameResult.complete) = Round.wants Want.done (finish_ok x)
  at_eof (x, FrameResult.runs_on) = Round.runs_on x
  at_eof (x, FrameResult.throws) = Round.throws x
  at_eof (x, _) = fails_with BackendError.read_failed x

  unfoldable pub peer_closes : Exchange → Round
  unfolding fails_with at_eof
  peer_closes x =
      let closed = record x { peer_closed = true } in
      if is_some (find_sub blank_line x.response_bytes) && not x.response_keepalive
      then at_eof (try_frame fuel params.max_response_bytes closed)
      else fails_with BackendError.read_failed closed

  unfoldable pub received : Exchange → Call Received → Round
  unfolding fails_with refresh_deadline read_want peer_closes
  received x Call.thrown = Round.throws x
  received x (Call.returned (Received.bytes c cs)) =
      Round.goes_on
        (refresh_deadline params turn (record x { response_bytes = x.response_bytes ++ c ∷ cs }))
  received x (Call.returned Received.closed) = peer_closes x
  received x (Call.returned (Received.failed Errno.eintr)) = Round.goes_on x
  received x (Call.returned (Received.failed Errno.eagain)) =
      Round.wants read_want (refresh_deadline params turn x)
  received x (Call.returned (Received.failed _)) = fails_with BackendError.read_failed x

  -- Behind the frame that the bytes read so far make.
  unfoldable pub framed : Exchange × FrameResult → Round
  unfolding fails_with received read_call
  framed (x, FrameResult.complete) = Round.wants Want.done (finish_ok x)
  framed (x, FrameResult.error) = fails_with BackendError.invalid_response x
  framed (x, FrameResult.runs_on) = Round.runs_on x
  framed (x, FrameResult.throws) = Round.throws x
  framed (x, FrameResult.incomplete) =
      if ltb params.max_response_bytes (length x.response_bytes)
      then fails_with BackendError.read_failed x
      else received x read_call

  unfoldable pub round_in : Phase → Bool → Exchange → Round
  unfolding round_connect round_connecting round_handshake round_send framed
  round_in Phase.connect ev x = round_connect x
  round_in Phase.connecting ev x = round_connecting ev x
  round_in Phase.tls_handshake ev x = round_handshake x
  round_in Phase.send ev x = round_send x
  round_in Phase.read ev x = framed (try_frame fuel params.max_response_bytes x)
  round_in Phase.done ev x = Round.wants Want.done x

  -- One turn of the loop.
  unfoldable pub round : Bool → Exchange → Round
  unfolding time_out round_in
  round ev x =
      if is_done x.phase
      then Round.wants Want.done x
      else if expired turn x
      then time_out x.phase x
      else round_in x.phase ev x
    where
      is_done : Phase → Bool
      is_done Phase.done = true
      is_done _ = false

-- How a call of `advance` ends, after as many turns of the loop as the answers last: `unfinished` is
-- a loop that would go round again.
pub data Advanced : Type 0 where
  returns : Want → Exchange → Advanced
  escapes runs_on unfinished : Exchange → Advanced

module _ (params : Params) (idempotent : Bool) (fuel : ℕ) where
  -- `run(0)` in the handler of an exception: what it throws leaves `advance`. A turn that goes round
  -- again has reset `ev`, or leads to Connect, which does.
  unfoldable pub run : List Turn → Bool → Exchange → Advanced
  run [] ev x = Advanced.unfinished x
  run (turn ∷ rest) ev x = elim (round params idempotent fuel turn ev x) [
    | Round.goes_on x' ↦ run rest false x'
    | Round.wants want x' ↦ Advanced.returns want x'
    | Round.throws x' ↦ Advanced.escapes x'
    | Round.runs_on x' ↦ Advanced.runs_on x'
  ]

  abbrev pub error_of : Phase → BackendError
  error_of Phase.send = BackendError.write_failed
  error_of Phase.read = BackendError.read_failed
  error_of _ = BackendError.connect_failed

  -- The handler of an exception.
  unfoldable pub caught : List Turn → Exchange × Bool → Advanced
  unfolding run
  caught rest (x, true) = run rest false x
  caught rest (x, false) = Advanced.returns Want.done x

  unfoldable pub advance : List Turn → Bool → Exchange → Advanced
  unfolding caught
  advance [] ev x = Advanced.unfinished x
  advance (turn ∷ rest) ev x = elim (round params idempotent fuel turn ev x) [
    | Round.goes_on x' ↦ advance rest false x'
    | Round.wants want x' ↦ Advanced.returns want x'
    | Round.throws x' ↦
        caught rest
          (fail params idempotent turn (error_of x'.phase) (pos 502) (ascii "Bad Gateway") x')
    | Round.runs_on x' ↦ Advanced.runs_on x'
  ]

abbrev pub state_of : Advanced → Exchange
state_of (Advanced.returns want x) = x
state_of (Advanced.escapes x) = x
state_of (Advanced.runs_on x) = x
state_of (Advanced.unfinished x) = x

abbrev pub is_unfinished : Advanced → Bool
is_unfinished (Advanced.unfinished x) = true
is_unfinished _ = false

-- The calls of `advance` that the event loop makes, one after the other, each with the answers of
-- its turns and whether there was an event.
unfoldable pub drive : Params → Bool → ℕ → List (List Turn × Bool) → Exchange → Exchange
drive params idempotent fuel [] x = x
drive params idempotent fuel ((turns, ev) ∷ calls) x =
    drive params idempotent fuel calls (state_of (advance params idempotent fuel turns ev x))
