-- ===== src/Http/Parser/State.antt =====
-- The state of `HttpParser` (include/common/http_parser.h), its limits, and how one round of the
-- loop of `parse` ends. A `size_t` is a number below `size_mod`.
use epoll_gateway.Base.{ℕ, Bool, false, []}
use epoll_gateway.Base.Bytes.{Bytes, ascii}
use epoll_gateway.Http.Message.{HttpRequest}

pub data State : Type 0 where
  method path version query header chunked_body body done : State

pub data ChunkState : Type 0 where
  size in_data trailer done : ChunkState

pub data ParseError : Type 0 where
  no_error body_too_large duplicate_content_length cl_te_conflict : ParseError
  invalid_transfer_encoding invalid_content_length invalid_header : ParseError
  invalid_chunk_size request_line_too_long header_too_long headers_too_large : ParseError

abbrev pub size_mod : ℕ
size_mod = 18446744073709551616

abbrev pub max_body_size : ℕ
max_body_size = 1048576

abbrev pub max_request_line_size : ℕ
max_request_line_size = 8192

abbrev pub max_header_line_size : ℕ
max_header_line_size = 8192

abbrev pub max_headers_size : ℕ
max_headers_size = 65536

pub record HttpParser : Type 0 where
  pub state : State
  pub buffer : Bytes
  pub content_length : ℕ
  pub body_read : ℕ
  pub headers_read : ℕ
  pub parse_error : ParseError
  pub chunk_state : ChunkState
  pub chunk_size_hex_buffer : Bytes
  pub chunk_data_remaining : ℕ
  pub cr_seen : Bool

-- `HttpParser::HttpParser()`.
abbrev pub initial : HttpParser
initial = record {
  state = State.method;
  buffer = [];
  content_length = 0;
  body_read = 0;
  headers_read = 0;
  parse_error = ParseError.no_error;
  chunk_state = ChunkState.size;
  chunk_size_hex_buffer = [];
  chunk_data_remaining = 0;
  cr_seen = false;
}

-- `reset`.
unfoldable pub reset : HttpParser → HttpParser
reset p = record p {
  state = State.method;
  buffer = [];
  parse_error = ParseError.no_error;
  content_length = 0;
  body_read = 0;
  headers_read = 0;
  chunk_size_hex_buffer = [];
  chunk_data_remaining = 0;
  chunk_state = ChunkState.size;
  cr_seen = false;
}

-- How one round of the loop ends: it returns, or falls out of the switch.
pub data Outcome : Type 0 where
  returns : Bool → HttpParser → HttpRequest → Outcome
  falls : HttpParser → HttpRequest → Outcome

-- `fail(e); return false;`.
abbrev pub fail : ParseError → HttpParser → HttpRequest → Outcome
fail e p r = returns false (record p { parse_error = e }) r

abbrev pub content_length_name : Bytes
content_length_name = ascii "content-length"

abbrev pub transfer_encoding_name : Bytes
transfer_encoding_name = ascii "transfer-encoding"
