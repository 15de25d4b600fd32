-- ===== src/Client/Forwarding.antt =====
-- Which of a client's headers reach the upstream server.
use epoll_gateway.Base.{
  ℕ, Bool, true, false, ◌||◌, List, [], ◌∷◌, ◌++◌, map, none, some, ◌≡◌, refl, arith, ap, ◌∙◌, ◌==◌,
  if◌then◌else◌, Bool-cases, inl, inr,
}
use epoll_gateway.Base.Bytes.{
  Bytes, ascii, eq_bytes, eq_bytes_iff, contains, to_lower_bytes, pieces,
}
use epoll_gateway.Base.Table.{Table, lookup}
use epoll_gateway.Client.Headers.{is_hop_by_hop_header, connection_tokens}
use epoll_gateway.Client.Request.{is_dropped, forwarded}

pub lookup-forwarded :
    (tokens : List Bytes) (key : Bytes) (headers : Table Bytes)
    → lookup key (forwarded tokens headers)
      ≡ (if is_dropped tokens key then none else lookup key headers)
unfolding lookup forwarded
lookup-forwarded tokens key [] = ground arith
lookup-forwarded tokens key ((j, value) ∷ rest) =
    ground (arith, eq_bytes_iff j key, lookup-forwarded tokens key rest)

-- A header goes to the upstream server, with its value unchanged, exactly if it is none of the
-- hop-by-hop headers nor named by a token of the client's Connection header; in particular no
-- Host, Content-Length, Transfer-Encoding or Proxy-Authorization of the client goes there.
pub lookup-forwarded_headers :
    (key : Bytes) (headers : Table Bytes)
    → (lookup key (forwarded (connection_tokens headers) headers) ≡ (
        if is_hop_by_hop_header (to_lower_bytes key)
          || contains (connection_tokens headers) (to_lower_bytes key)
        then none
        else lookup key headers))
      × (lookup (ascii "host") (forwarded (connection_tokens headers) headers) ≡ none)
      × (lookup (ascii "content-length") (forwarded (connection_tokens headers) headers) ≡ none)
      × (lookup (ascii "transfer-encoding") (forwarded (connection_tokens headers) headers) ≡ none)
      × (lookup (ascii "proxy-authorization") (forwarded (connection_tokens headers) headers)
          ≡ none)
unfolding is_dropped is_hop_by_hop_header contains eq_bytes to_lower_bytes
    epoll_gateway.Base.Bytes.to_lower
lookup-forwarded_headers key headers =
    let tokens = connection_tokens headers in
    (
      lookup-forwarded tokens key headers,
      lookup-forwarded tokens (ascii "host") headers,
      lookup-forwarded tokens (ascii "content-length") headers,
      lookup-forwarded tokens (ascii "transfer-encoding") headers,
      lookup-forwarded tokens (ascii "proxy-authorization") headers,
    )
