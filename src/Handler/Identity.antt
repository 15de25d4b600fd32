-- ===== src/Handler/Identity.antt =====
-- What a backend learns of the client, whatever the client sends.
use epoll_gateway.Base.{
  ℕ, Bool, true, false, not, ◌&&◌, ◌||◌, List, [], ◌∷◌, ◌++◌, Option, none, some, ◌≡◌, ◌⊎◌, inl,
  inr, refl, ap, ◌∙◌, arith, is_empty, if◌then◌else◌, Option-cases, Bool-cases,
}
use epoll_gateway.Base.Bytes.{Bytes, ascii, eq_bytes, contains, to_lower_bytes}
use epoll_gateway.Base.Table.{Table, lookup, insert, lookup-insert, lookup-insert_self}
use epoll_gateway.Client.Headers.{connection_tokens, is_hop_by_hop_header}
use epoll_gateway.Client.Request.{forwarded, is_dropped}
use epoll_gateway.Client.Forwarding.{lookup-forwarded}
use epoll_gateway.Handler.Headers.{add_client_ip, add_forwarded_host, inject_forwarded_headers}

lookup-add_forwarded_host :
    (k : Bytes) (headers : Table Bytes)
    → eq_bytes (ascii "x-forwarded-host") k ≡ false
    → lookup k (add_forwarded_host headers) ≡ lookup k headers
unfolding add_forwarded_host
lookup-add_forwarded_host k headers h = elim (Option-cases (lookup (ascii "host") headers)) [
  | inl absent ↦ rw (absent, add_forwarded_host) refl
  | inr (host, e) ↦
      rw (e, add_forwarded_host)
        (ground (arith, lookup-insert (ascii "x-forwarded-host") k host headers))
]

lookup-proto :
    (headers : Table Bytes)
    → lookup (ascii "x-real-ip") (insert (ascii "x-forwarded-proto") (ascii "https") headers)
      ≡ lookup (ascii "x-real-ip") headers
unfolding eq_bytes
lookup-proto headers = lookup-insert (ascii "x-forwarded-proto") (ascii "x-real-ip") _ headers

lookup-inject_real_ip :
    (headers : Table Bytes) (client_ip : Bytes)
    → is_empty client_ip ≡ false
    → lookup (ascii "x-real-ip") (inject_forwarded_headers headers client_ip) ≡ some client_ip
unfolding inject_forwarded_headers eq_bytes add_client_ip lookup
lookup-inject_real_ip headers client_ip h =
    lookup-add_forwarded_host (ascii "x-real-ip") _ refl
    ∙ lookup-proto (add_client_ip client_ip headers)
    ∙ added
  where
    added : lookup (ascii "x-real-ip") (add_client_ip client_ip headers) ≡ some client_ip
    added = rw (add_client_ip, h) (lookup-insert_self (ascii "x-real-ip") client_ip _)

lookup-inject_proto :
    (headers : Table Bytes) (client_ip : Bytes)
    → lookup (ascii "x-forwarded-proto") (inject_forwarded_headers headers client_ip)
      ≡ some (ascii "https")
unfolding inject_forwarded_headers eq_bytes
lookup-inject_proto headers client_ip =
    lookup-add_forwarded_host (ascii "x-forwarded-proto") _ refl
    ∙ lookup-insert_self (ascii "x-forwarded-proto") (ascii "https") _

-- The client's address and scheme as a backend sees them: behind the headers that the gateway adds
-- and the filter of the upstream hop, X-Real-IP is the client's address and X-Forwarded-Proto is
-- https, never a value that the client sent; but a client that names one of them in its Connection
-- header takes it away.
pub forwarded-inject :
    (headers : Table Bytes) (client_ip : Bytes)
    → is_empty client_ip ≡ false
    → let sent = inject_forwarded_headers headers client_ip in
      let tokens = connection_tokens sent in
      (lookup (ascii "x-real-ip") (forwarded tokens sent)
        ≡ (if contains tokens (ascii "x-real-ip") then none else some client_ip))
      × (lookup (ascii "x-forwarded-proto") (forwarded tokens sent)
          ≡ (if contains tokens (ascii "x-forwarded-proto") then none else some (ascii "https")))
unfolding is_dropped is_hop_by_hop_header to_lower_bytes eq_bytes epoll_gateway.Base.Bytes.to_lower
    contains
forwarded-inject headers client_ip h =
    let sent = inject_forwarded_headers headers client_ip in
    let tokens = connection_tokens sent in
    (
      lookup-forwarded tokens (ascii "x-real-ip") sent
          ∙ rw (lookup-inject_real_ip headers client_ip h) refl,
      lookup-forwarded tokens (ascii "x-forwarded-proto") sent
          ∙ rw (lookup-inject_proto headers client_ip) refl,
    )
