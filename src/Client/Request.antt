-- ===== src/Client/Request.antt =====
-- `UpstreamExchange::build_request`, and the parameters of an exchange.
use epoll_gateway.Base.{ℕ, Bool, not, ◌||◌, List, [], ◌∷◌, ◌++◌, is_empty, length, if◌then◌else◌}
use epoll_gateway.Base.Bytes.{Bytes, ascii, contains, to_lower_bytes}
use epoll_gateway.Base.Table.{Table, lookup, is_some}
use epoll_gateway.Base.Int.{ℤ, pos, to_string}
use epoll_gateway.Http.Message.{crlf, render_headers}
use epoll_gateway.Pool.Identity.{UpstreamTlsOptions}
use epoll_gateway.Client.Headers.{is_hop_by_hop_header, connection_tokens}

-- `UpstreamExchange::Params`.
pub record Params : Type 0 where
  pub host : Bytes
  pub port : ℤ
  pub method : Bytes
  pub path : Bytes
  pub headers : Table Bytes
  pub body : Bytes
  pub timeout_ms : ℤ
  pub max_response_bytes : ℕ
  pub tls : UpstreamTlsOptions

-- Whether the header stays on this hop.
unfoldable pub is_dropped : List Bytes → Bytes → Bool
is_dropped tokens key =
    is_hop_by_hop_header (to_lower_bytes key) || contains tokens (to_lower_bytes key)

-- The headers that the loop writes.
unfoldable pub forwarded : List Bytes → Table Bytes → Table Bytes
forwarded tokens [] = []
forwarded tokens ((key, value) ∷ rest) =
    let later = forwarded tokens rest in
    if is_dropped tokens key then later else (key, value) ∷ later

unfoldable pub needs_content_length : Params → Bool
needs_content_length params =
    not (is_empty params.body)
    || is_some (lookup (ascii "content-length") params.headers)
    || is_some (lookup (ascii "transfer-encoding") params.headers)

unfoldable pub content_length_line : Params → Bytes
content_length_line params =
    if needs_content_length params
    then ascii "Content-Length: " ++ to_string (pos (length params.body)) ++ crlf
    else []

unfoldable pub build_request : Params → Bytes
build_request params =
    params.method
    ++ ascii " "
    ++ params.path
    ++ ascii " HTTP/1.1\r\n"
    ++ ascii "Host: "
    ++ params.host
    ++ ascii ":"
    ++ to_string params.port
    ++ crlf
    ++ render_headers (forwarded (connection_tokens params.headers) params.headers)
    ++ content_length_line params
    ++ crlf
    ++ params.body
