-- ===== src/Client/Headers.antt =====
-- The headers of a request on the upstream hop, and of a response on the way back.
use epoll_gateway.Base.{
  ℕ, zero, suc, Bool, true, false, not, ◌&&◌, List, [], ◌∷◌, map, Option, none, some, is_empty, ltb,
  drop, length, if◌then◌else◌,
}
use epoll_gateway.Base.Bytes.{
  Bytes, ascii, eq_bytes, contains, to_lower_bytes, split_at, find_sub, pieces,
}
use epoll_gateway.Base.Table.{Table, lookup}
use epoll_gateway.Http.Message.{crlf}
use epoll_gateway.Http.Parser.Headers.{trim_front, trim_back}

-- `BackendResponse::Error`.
pub data BackendError : Type 0 where
  no_error connect_failed connect_timeout write_failed write_timeout : BackendError
  read_failed read_timeout invalid_response : BackendError

unfoldable pub is_transient_backend_error : BackendError → Bool
is_transient_backend_error BackendError.no_error = false
is_transient_backend_error BackendError.invalid_response = false
is_transient_backend_error _ = true

unfoldable pub is_idempotent : Bytes → Bool
is_idempotent method = contains (map ascii ("GET" ∷ "HEAD" ∷ "OPTIONS" ∷ [])) method

unfoldable pub should_retry_backend_request : Bytes → BackendError → ℕ → Bool
should_retry_backend_request method error attempt_count =
    if not (ltb attempt_count 2)
    then false
    else is_idempotent method && is_transient_backend_error error

abbrev pub hop_by_hop : List Bytes
hop_by_hop = map ascii (
    "connection" ∷ "keep-alive" ∷ "proxy-authenticate" ∷ "proxy-authorization" ∷ "proxy-connection"
    ∷ "te" ∷ "trailer" ∷ "transfer-encoding" ∷ "upgrade" ∷ "host" ∷ "content-length" ∷ [])

unfoldable pub is_hop_by_hop_header : Bytes → Bool
is_hop_by_hop_header lower_name = contains hop_by_hop lower_name

-- Without the blanks at both ends.
abbrev pub trim : Bytes → Bytes
trim s = trim_back (trim_front s)

-- The loop over the pieces between commas.
unfoldable pub collect_tokens : List Bytes → List Bytes
collect_tokens [] = []
collect_tokens (piece ∷ rest) =
    let token = trim piece in
    let later = collect_tokens rest in
    if is_empty token then later else to_lower_bytes token ∷ later

unfoldable pub tokens_of : Bytes → List Bytes
tokens_of value = collect_tokens (pieces b',' value)

unfoldable pub connection_tokens : Table Bytes → List Bytes
connection_tokens headers = elim (lookup (ascii "connection") headers) [
  | none ↦ []
  | some value ↦ tokens_of value
]

-- The lines of a header block, between its line ends.
unfoldable pub lines_of : ℕ → Bytes → List Bytes
lines_of zero s = []
lines_of (suc fuel) s = elim (find_sub crlf s) [
  | none ↦ s ∷ []
  | some (line, rest) ↦ line ∷ lines_of fuel rest
]

-- What stands behind the status line. Without a line end `npos + 2` is 1.
unfoldable pub after_status_line : Bytes → Bytes
after_status_line headers_part = elim (find_sub crlf headers_part) [
  | none ↦ drop 1 headers_part
  | some (line, rest) ↦ rest
]

-- The value of a line with the given lower-case name; a line without a colon has none.
unfoldable pub value_of : Bytes → Bytes → Option Bytes
value_of name line = elim (split_at b':' line) [
  | none ↦ none
  | some (key, value) ↦
      if eq_bytes (to_lower_bytes key) name then some (to_lower_bytes (trim value)) else none
]

unfoldable pub first_value : Bytes → List Bytes → Bytes
first_value name [] = []
first_value name (line ∷ rest) = elim (value_of name line) [
  | some value ↦ value
  | none ↦ first_value name rest
]

-- `headers_part` is free of the blank line that ends it; each round takes a line end off it.
unfoldable pub find_header_value : Bytes → Bytes → Bytes
find_header_value headers_part name =
    let lines = lines_of (suc (length headers_part)) (after_status_line headers_part) in
    first_value name lines
