-- ===== src/Tests/Client.antt =====
-- The upstream exchange (server/http_client.cpp) on concrete messages.
use epoll_gateway.Base.{
  ℕ, zero, suc, ◌+◌, ◌<◌, ◌≤◌, Bool, true, false, not, ◌&&◌, ◌||◌, List, [], ◌∷◌, ◌++◌, none, some,
  ◌≡◌, refl, arith, length, if◌then◌else◌,
}
use epoll_gateway.Base.Bytes.{Bytes, ascii, contains, to_lower_bytes}
use epoll_gateway.Base.Int.{pos}
use epoll_gateway.Base.Table.{Table, lookup}
use epoll_gateway.Pool.Defs.{ConnectionPool, PooledConnection}
use epoll_gateway.Http.Message.{crlf}
use epoll_gateway.Client.Headers.{is_hop_by_hop_header, connection_tokens}
use epoll_gateway.Client.Request.{Params, forwarded, build_request}
use epoll_gateway.Client.Chunks.{ChunkScan, scan_from, scan_chunked_body}
use epoll_gateway.Client.Chunked.{render_chunks, render_end}
use epoll_gateway.Client.Wire.{SizeLine, chunks_of, line_of, scan_chunked_body-render}
use epoll_gateway.Client.Scanning.{wrapping_response, scan_from-wrapping}
use epoll_gateway.Client.Forwarding.{lookup-forwarded_headers}
use epoll_gateway.Client.Io.{WaitResult, SslHandshakeStatus, SslAnswer, Written, Received, Errno}
use epoll_gateway.Client.State.{Turn, Opening, Phase, Exchange, new_exchange}
use epoll_gateway.Client.Run.{Round, Advanced, round, advance, is_unfinished, state_of, drive}
use epoll_gateway.Client.Ends.{advance-ends}
use epoll_gateway.Client.Safe.{is_safe}
use epoll_gateway.Client.Replay.{drive-is_safe, round-replay, advance-escapes}

abbrev client_headers : Table Bytes
client_headers =
    (ascii "connection", ascii "close, X-Secret")
    ∷ (ascii "x-secret", ascii "1")
    ∷ (ascii "accept", ascii "*/*")
    ∷ (ascii "content-length", ascii "0")
    ∷ []

lookup-forwarded_headers_example :
    let sent = forwarded (connection_tokens client_headers) client_headers in
    (lookup (ascii "x-secret") sent ≡ (
      if is_hop_by_hop_header (to_lower_bytes (ascii "x-secret"))
        || contains (connection_tokens client_headers) (to_lower_bytes (ascii "x-secret"))
      then none
      else lookup (ascii "x-secret") client_headers))
    × (lookup (ascii "host") sent ≡ none)
    × (lookup (ascii "content-length") sent ≡ none)
    × (lookup (ascii "transfer-encoding") sent ≡ none)
    × (lookup (ascii "proxy-authorization") sent ≡ none)
lookup-forwarded_headers_example = lookup-forwarded_headers (ascii "x-secret") client_headers

-- `5;x=1`, `01` and `00`, with a trailer.
abbrev chunks : List (SizeLine × Bytes)
chunks =
    (record { digits = ascii "5"; extension = ascii ";x=1" }, ascii "hello")
    ∷ (record { digits = ascii "01"; extension = [] }, ascii "!")
    ∷ []

abbrev last_chunk : SizeLine
last_chunk = record { digits = ascii "00"; extension = [] }

abbrev trailers : List Bytes
trailers = ascii "a: b" ∷ []

scan_chunked_body-render_example :
    scan_chunked_body 3
      (ascii "HEAD"
        ++ render_chunks
            (chunks_of chunks)
            (render_end (line_of last_chunk) trailers (ascii "NEXT")))
      4
    ≡ ChunkScan.complete
        (length (
          ascii "HEAD"
          ++ render_chunks (chunks_of chunks) (render_end (line_of last_chunk) trailers [])))
        (ascii "hello!")
scan_chunked_body-render_example =
    scan_chunked_body-render (ascii "HEAD") chunks last_chunk trailers (ascii "NEXT") 3
      (
        (record { filled = refl; hexadecimal = refl; value = refl; extended = refl }, refl),
        ((record { filled = refl; hexadecimal = refl; value = refl; extended = refl }, refl), tt),
      )
      (record { filled = refl; hexadecimal = refl; value = refl; extended = refl })
      (record { one_line = refl; filled = refl }, tt) (omega arith) (omega arith)

scan_from-wrapping_example :
    scan_from 1000 (wrapping_response (ascii "HTTP/1.1 200 OK\r\n") (ascii "0\r\n\r\n")) 19 []
    ≡ ChunkScan.runs_on
scan_from-wrapping_example =
    scan_from-wrapping (ascii "HTTP/1.1 200 OK\r\n") (ascii "0\r\n\r\n") [] 19 1000 (omega arith)
      (omega arith)

abbrev get_params : Params
get_params = record {
  host = ascii "h";
  port = pos 1;
  method = ascii "GET";
  path = ascii "/";
  headers = [];
  body = [];
  timeout_ms = pos 1;
  max_response_bytes = 0;
  tls = record { enable = false; ca_file = []; server_name = []; skip_verify = false };
}

abbrev no_pool : ConnectionPool
no_pool = record { idle = []; test_idle_timeout = none }

-- A connection at once, a write of one byte and a read that would block.
abbrev busy : Turn
busy = record {
  now = 0;
  clock = 0;
  opening = Opening.connected 7;
  probe = WaitResult.timeout;
  probe_is_ssl = false;
  ssl_alive = false;
  peek = Received.closed;
  socket_error = 0;
  context = false;
  handshake = SslHandshakeStatus.failed;
  is_ssl = false;
  writing = Written.wrote 0;
  reading = Received.failed Errno.eagain;
  ssl_writing = SslAnswer.failed;
  ssl_reading = SslAnswer.failed;
}

abbrev repeat : ℕ → Turn → List Turn
repeat zero turn = []
repeat (suc n) turn = turn ∷ repeat n turn

built : length (build_request get_params) ≡ 29
unfolding build_request epoll_gateway.Client.Request.needs_content_length
    epoll_gateway.Client.Request.content_length_line epoll_gateway.Http.Message.render_headers
    epoll_gateway.Base.Int.to_string epoll_gateway.Base.Int.show_ℕ lookup connection_tokens
    forwarded epoll_gateway.Base.Int.show_digits
built = refl

advance-ends_example :
    is_unfinished (
      advance get_params true 0
        (repeat 72 busy)
        false
        (drive get_params true 0 [] (new_exchange get_params no_pool 0)))
    ≡ false
advance-ends_example =
    advance-ends get_params true 0 0 no_pool [] (repeat 72 busy) false (omega (arith, built))

drive-is_safe_example :
    is_safe true
      (drive get_params true 0 ((repeat 3 busy, false) ∷ []) (new_exchange get_params no_pool 0))
    ≡ true
drive-is_safe_example = drive-is_safe get_params true 0 0 no_pool ((repeat 3 busy, false) ∷ [])

-- A pooled connection, on which the write meets a reset; so does the replay.
abbrev pool : ConnectionPool
pool = record {
  idle = (ascii "h:1", record { socket = 4; leftover = []; last_used = 0 } ∷ []) ∷ [];
  test_idle_timeout = none;
}

abbrev reset : Turn
reset = record busy { writing = Written.refused Errno.other }

abbrev broken : Turn
broken = record busy { writing = Written.refused Errno.epipe }

abbrev on_pool : Exchange
on_pool = drive get_params true 0 ((busy ∷ [], false) ∷ []) (new_exchange get_params pool 0)

abbrev next_state : Round → Exchange
next_state (Round.goes_on x) = x
next_state (Round.wants want x) = x
next_state (Round.throws x) = x
next_state (Round.runs_on x) = x

round-replay_example :
    let x' = next_state (round get_params true 0 broken false on_pool) in
    (true && (on_pool.used_pooled && (not on_pool.retried && x'.retried))) ≡ true
unfolding round drive advance new_exchange lookup build_request connection_tokens forwarded
    epoll_gateway.Client.State.expired epoll_gateway.Client.State.open_connection
    epoll_gateway.Client.State.open_pooled epoll_gateway.Client.State.use_pooled
    epoll_gateway.Client.State.open_fresh epoll_gateway.Client.State.to_phase
    epoll_gateway.Client.State.refresh_deadline epoll_gateway.Client.State.fail
    epoll_gateway.Client.State.make_error_response epoll_gateway.Client.State.probe_alive
    epoll_gateway.Pool.Defs.checkout epoll_gateway.Pool.Defs.pool_key
    epoll_gateway.Pool.Defs.keep_rest epoll_gateway.Pool.Defs.take_fresh
    epoll_gateway.Pool.Defs.effective_idle_timeout epoll_gateway.Pool.Identity.pool_scheme
    epoll_gateway.Base.Bytes.eq_bytes epoll_gateway.Base.Int.to_string epoll_gateway.Base.Int.show_ℕ
    epoll_gateway.Base.Int.show_digits epoll_gateway.Client.Request.needs_content_length
    epoll_gateway.Client.Request.content_length_line epoll_gateway.Http.Message.render_headers
    epoll_gateway.Client.Run.round_in epoll_gateway.Client.Run.caught epoll_gateway.Client.Run.run
round-replay_example =
    round-replay get_params true 0 0 pool ((busy ∷ [], false) ∷ []) broken false
      (next_state (round get_params true 0 broken false on_pool)) refl refl

advance-escapes_example :
    let turns = busy ∷ reset ∷ reset ∷ reset ∷ [] in
    let x' = state_of (advance get_params true 0 turns false (new_exchange get_params pool 0)) in
    (x'.retried && true) ≡ true
unfolding round drive advance new_exchange lookup build_request connection_tokens forwarded
    epoll_gateway.Client.State.expired epoll_gateway.Client.State.open_connection
    epoll_gateway.Client.State.open_pooled epoll_gateway.Client.State.use_pooled
    epoll_gateway.Client.State.open_fresh epoll_gateway.Client.State.to_phase
    epoll_gateway.Client.State.refresh_deadline epoll_gateway.Client.State.fail
    epoll_gateway.Client.State.make_error_response epoll_gateway.Client.State.probe_alive
    epoll_gateway.Pool.Defs.checkout epoll_gateway.Pool.Defs.pool_key
    epoll_gateway.Pool.Defs.keep_rest epoll_gateway.Pool.Defs.take_fresh
    epoll_gateway.Pool.Defs.effective_idle_timeout epoll_gateway.Pool.Identity.pool_scheme
    epoll_gateway.Base.Bytes.eq_bytes epoll_gateway.Base.Int.to_string epoll_gateway.Base.Int.show_ℕ
    epoll_gateway.Base.Int.show_digits epoll_gateway.Client.Request.needs_content_length
    epoll_gateway.Client.Request.content_length_line epoll_gateway.Http.Message.render_headers
    epoll_gateway.Client.Run.round_in epoll_gateway.Client.Run.caught epoll_gateway.Client.Run.run
advance-escapes_example =
    advance-escapes get_params true 0 0 pool [] (busy ∷ reset ∷ reset ∷ reset ∷ []) false
      (state_of (
        advance get_params true 0 (busy ∷ reset ∷ reset ∷ reset ∷ []) false
          (new_exchange get_params pool 0)))
      refl
