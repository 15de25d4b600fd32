-- ===== src/Handler/Headers.antt =====
-- The headers that the gateway adds on the upstream hop, and those of a response that it passes on.
use epoll_gateway.Base.{
  ℕ, Bool, ◌||◌, List, [], ◌∷◌, ◌++◌, map, Option, none, some, is_empty, any, ◌==◌, if◌then◌else◌,
}
use epoll_gateway.Base.Bytes.{Bytes, ascii, eq_bytes, contains, to_lower_bytes}
use epoll_gateway.Base.Table.{Table, lookup, insert}
use epoll_gateway.Base.Int.{pos, to_string}
use epoll_gateway.Client.Headers.{tokens_of}

abbrev pub response_hop_by_hop : List Bytes
response_hop_by_hop = map ascii (
    "content-length" ∷ "transfer-encoding" ∷ "connection" ∷ "keep-alive" ∷ "proxy-authenticate"
    ∷ "proxy-authorization" ∷ "proxy-connection" ∷ "te" ∷ "trailer" ∷ "upgrade" ∷ [])

unfoldable pub is_response_hop_by_hop : Bytes → Bool
is_response_hop_by_hop lower_name = contains response_hop_by_hop lower_name

unfoldable pub iequals_ascii_lower : Bytes → Bytes → Bool
iequals_ascii_lower name lower_literal = eq_bytes (to_lower_bytes name) lower_literal

-- The first header, in the order of the backend's `std::map`, that is a Connection header in any case.
unfoldable pub connection_value : Table Bytes → Option Bytes
connection_value [] = none
connection_value ((name, value) ∷ rest) =
    if iequals_ascii_lower name (ascii "connection") then some value else connection_value rest

unfoldable pub response_connection_tokens : Table Bytes → List Bytes
response_connection_tokens headers = elim (connection_value headers) [
  | none ↦ []
  | some value ↦ tokens_of value
]

abbrev pub has_line_end : Bytes → Bool
has_line_end s = any (λ c. c == b'\r' || c == b'\n') s

-- Whether the loop of `finish_child` leaves a header of the response out.
unfoldable pub is_left_out : List Bytes → Bytes → Bytes → Bool
is_left_out tokens name value =
    has_line_end name
    || has_line_end value
    || is_response_hop_by_hop (to_lower_bytes name)
    || contains tokens (to_lower_bytes name)

-- That loop; a name stands once in the backend's table.
unfoldable pub pass_on : List Bytes → Table Bytes → Table Bytes → Table Bytes
pass_on tokens [] acc = acc
pass_on tokens ((name, value) ∷ rest) acc =
    let acc' = if is_left_out tokens name value then acc else insert name value acc in
    pass_on tokens rest acc'

-- The headers of the response to the client, for a body of a given length.
unfoldable pub client_headers : Table Bytes → ℕ → Table Bytes
client_headers headers size =
    insert (ascii "Content-Length") (to_string (pos size))
      (pass_on (response_connection_tokens headers) headers [])

unfoldable pub add_client_ip : Bytes → Table Bytes → Table Bytes
add_client_ip client_ip headers =
    let chain : Bytes = elim (lookup (ascii "x-forwarded-for") headers) [
      | none ↦ client_ip
      | some seen ↦ seen ++ ascii ", " ++ client_ip
    ] in
    if is_empty client_ip
    then headers
    else insert (ascii "x-real-ip") client_ip (insert (ascii "x-forwarded-for") chain headers)

unfoldable pub add_forwarded_host : Table Bytes → Table Bytes
add_forwarded_host headers = elim (lookup (ascii "host") headers) [
  | none ↦ headers
  | some host ↦ if is_empty host then headers else insert (ascii "x-forwarded-host") host headers
]

unfoldable pub inject_forwarded_headers : Table Bytes → Bytes → Table Bytes
inject_forwarded_headers headers client_ip =
    add_forwarded_host
      (insert (ascii "x-forwarded-proto") (ascii "https") (add_client_ip client_ip headers))
