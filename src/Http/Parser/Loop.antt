-- ===== src/Http/Parser/Loop.antt =====
-- The switch on the state, and the loop of `parse`.
use epoll_gateway.Base.{ℕ, suc, Bool, true, false, [], ◌∷◌}
use epoll_gateway.Base.Bytes.{Bytes}
use epoll_gateway.Http.Message.{HttpRequest}
use epoll_gateway.Http.Parser.State.{State, HttpParser, Outcome, returns, falls}
use epoll_gateway.Http.Parser.RequestLine.{step_method, step_path, step_query, step_version}
use epoll_gateway.Http.Parser.Headers.{
  step_header, header_byte, finish_headers, header_line, store_header, trim_front, trim_back,
}
use epoll_gateway.Http.Parser.Bodies.{step_chunk, step_body}

-- The switch on the state.
unfoldable pub step_in : State → HttpParser → HttpRequest → ℕ → Outcome
unfolding step_method step_path step_query step_version step_header header_byte finish_headers
    header_line store_header trim_front trim_back step_chunk step_body
step_in State.method p r c = step_method p r c
step_in State.path p r c = step_path p r c
step_in State.version p r c = step_version p r c
step_in State.query p r c = step_query p r c
step_in State.header p r c = step_header p r c
step_in State.chunked_body p r c = step_chunk p.chunk_state p r c
step_in State.body p r c = step_body p r c
step_in State.done p r c = falls p r

abbrev pub step : HttpParser → HttpRequest → ℕ → Outcome
step p = step_in p.state p

abbrev pub is_done : State → Bool
is_done State.done = true
is_done _ = false

-- What `parse` returns, with the parser, the request and `consumed` as it leaves them.
pub record ParseResult : Type 0 where
  pub complete : Bool
  pub parser : HttpParser
  pub request : HttpRequest
  pub consumed : ℕ

-- The loop, with `i` bytes read. The request is only read and written by the switch.
unfoldable pub parse_from : ℕ → HttpParser → HttpRequest → Bytes → ParseResult
parse_from i p r [] = record { complete = false; parser = p; request = r; consumed = i }
parse_from i p r (c ∷ cs) = elim (step p r c) [
  | returns b p' r' ↦ record { complete = b; parser = p'; request = r'; consumed = suc i }
  | falls p' r' ↦ elim (is_done p'.state) [
    | true ↦ record { complete = false; parser = p'; request = r'; consumed = suc i }
    | false ↦ parse_from (suc i) p' r' cs
  ]
]

unfoldable pub parse : HttpParser → HttpRequest → Bytes → ParseResult
unfolding parse_from step_in
parse = parse_from 0
