-- ===== src/Tests/Http.antt =====
-- The parser (common/http_parser.cpp) on concrete requests.
use epoll_gateway.Base.{
  ◌+◌, ◌≤◌, true, false, [], ◌∷◌, ◌++◌, some, ◌≡◌, ◌↔◌, refl, inr, arith, length, all, is_empty,
}
use epoll_gateway.Base.Bytes.{Bytes, ascii, split_at, to_lower_bytes, to_lower, eq_bytes}
use epoll_gateway.Base.Table.{lookup, insert}
use epoll_gateway.Http.Chars.{is_tchar, is_valid_field_value_char, is_valid_request_line_char}
use epoll_gateway.Http.Parser.Bodies.{parse_chunk_size}
use epoll_gateway.Base.Decimal.{is_digit, decimal_from}
use epoll_gateway.Http.Message.{empty_request, crlf, render_headers}
use epoll_gateway.Http.Parser.State.{ParseError, initial, reset, max_body_size}
use epoll_gateway.Http.Parser.Headers.{parse_content_length, framing_error, trim_front, trim_back}
use epoll_gateway.Http.Parser.Loop.{parse}
use epoll_gateway.Http.Parser.Errors.{Ending, parse-Ending}
use epoll_gateway.Http.Parser.Segments.{parse-append}
use epoll_gateway.Http.Parser.Framing.{header_ok, body_kind, Inv, headers_ok, Unmixed, Framed}
use epoll_gateway.Http.Parser.Requests.{initial-Inv, parse-Inv, parse-complete}
use epoll_gateway.Http.Parser.Digits.{parse_content_length_iff}
use epoll_gateway.Http.Parser.RoundTrip.Whole.{parse-render}
use epoll_gateway.Http.Parser.RoundTrip.Sent.{
  Message, IsSendable, render_onto, request_of, is_path_char, Completes,
}

-- `POST /a?b HTTP/1.1` with a body of three bytes.
abbrev first_piece : Bytes
first_piece = ascii "POST /a?b HTTP/1.1" ++ crlf ++ ascii "Content-Le"

abbrev second_piece : Bytes
second_piece = ascii "ngth: 3" ++ crlf ++ crlf ++ ascii "abc"

abbrev post : Bytes
post = first_piece ++ second_piece

-- A request that two servers could read in two ways.
abbrev smuggled : Bytes
smuggled =
    ascii "GET / HTTP/1.1"
    ++ crlf
    ++ ascii "Content-Length: 3"
    ++ crlf
    ++ ascii "Transfer-Encoding: chunked"
    ++ crlf
    ++ crlf

abbrev chunked : Bytes
chunked =
    ascii "GET / HTTP/1.1"
    ++ crlf
    ++ ascii "Transfer-Encoding: chunked"
    ++ crlf
    ++ crlf
    ++ ascii "3"
    ++ crlf
    ++ ascii "abc"
    ++ crlf
    ++ ascii "0"
    ++ crlf
    ++ crlf

smuggled_refused :
    (parse initial empty_request smuggled).parser.parse_error ≡ ParseError.cl_te_conflict
unfolding parse is_valid_request_line_char split_at to_lower_bytes is_tchar to_lower
    is_valid_field_value_char eq_bytes lookup insert parse_chunk_size parse_content_length
smuggled_refused = refl

chunked_read : (parse initial empty_request chunked).request.body ≡ ascii "abc"
unfolding parse is_valid_request_line_char split_at to_lower_bytes is_tchar to_lower
    is_valid_field_value_char eq_bytes lookup insert parse_chunk_size parse_content_length
chunked_read = refl

-- A carriage return inside the version is dropped.
stray_cr :
    (parse initial empty_request
      (ascii "GET / HTTP/1" ++ b'\r' ∷ ascii ".1" ++ crlf)).request.version
    ≡ ascii "HTTP/1.1"
unfolding parse is_valid_request_line_char split_at to_lower_bytes is_tchar to_lower
    is_valid_field_value_char eq_bytes lookup insert parse_chunk_size parse_content_length
stray_cr = refl

parse-Ending_example : Ending 0 smuggled (parse initial empty_request smuggled)
parse-Ending_example = parse-Ending initial empty_request smuggled refl refl

parse-append_example :
    let a = parse initial empty_request first_piece in
    let b = parse a.parser a.request second_piece in
    (parse initial empty_request post ≡ record b { consumed = length first_piece + b.consumed })
unfolding parse is_valid_request_line_char split_at to_lower_bytes is_tchar to_lower
    is_valid_field_value_char eq_bytes lookup insert parse_chunk_size parse_content_length
parse-append_example =
    parse-append initial empty_request first_piece second_piece refl refl (refl, refl, refl)

parse-Inv_example : let a = parse initial empty_request first_piece in Inv a.parser a.request
unfolding parse is_valid_request_line_char split_at to_lower_bytes is_tchar to_lower
    is_valid_field_value_char eq_bytes lookup insert parse_chunk_size parse_content_length
parse-Inv_example = parse-Inv initial empty_request first_piece initial-Inv refl refl

parse-complete_example :
    let q = (parse initial empty_request post).request in
    (headers_ok q.headers ≡ true) × Unmixed q.headers × Framed q × (length q.body ≤ max_body_size)
unfolding parse is_valid_request_line_char split_at to_lower_bytes is_tchar to_lower
    is_valid_field_value_char eq_bytes lookup insert parse_chunk_size parse_content_length
parse-complete_example = parse-complete initial empty_request post initial-Inv refl refl refl

parse_content_length_iff_example : (parse_content_length (ascii "0042") ≡ some 42) ↔ (
    (is_empty (ascii "0042") ≡ false)
    × (all is_digit (ascii "0042") ≡ true)
    × (decimal_from 0 (ascii "0042") ≡ 42))
parse_content_length_iff_example = parse_content_length_iff (ascii "0042") 42 (omega arith)

abbrev message : Message
message = record {
  method = ascii "POST";
  path = ascii "/a";
  query = ascii "b";
  version = ascii "HTTP/1.1";
  headers = (ascii "content-length", ascii "2") ∷ [];
  body = ascii "hi";
}

parse-render_example :
    Completes
      (parse (reset initial) empty_request (render_onto message (ascii "GET")))
      (request_of message)
      (length (render_onto message []))
unfolding header_ok body_kind framing_error parse_content_length is_path_char trim_front trim_back
    is_valid_request_line_char to_lower_bytes is_tchar to_lower is_valid_field_value_char eq_bytes
    lookup insert render_headers
parse-render_example = parse-render initial message (ascii "GET") sendable
  where
    sendable : IsSendable message
    sendable = record {
      method = (refl, omega arith);
      path = (refl, omega arith);
      query = (refl, omega arith);
      version = (refl, omega arith);
      lines = (record { valid = refl; trimmed = refl; short = omega arith }, refl, tt);
      small = omega arith;
      body = inr (refl, omega arith);
    }
