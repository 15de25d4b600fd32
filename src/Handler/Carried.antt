-- ===== src/Handler/Carried.antt =====
-- What one request of a connection leaves for the next.
use epoll_gateway.Base.{
  ℕ, Bool, true, false, ◌≡◌, arith, inl, inr, Option-cases, if◌then◌else◌, is_empty,
}
use epoll_gateway.Base.Bytes.{Bytes, ascii}
use epoll_gateway.Base.Table.{insert, lookup-insert}
use epoll_gateway.Http.Message.{HttpRequest}
use epoll_gateway.Http.Parser.Loop.{parse}
use epoll_gateway.Http.Parser.Carried.{has, carries, parse-carries}
use epoll_gateway.Routing.Resolve.{resolve_route}
use epoll_gateway.Handler.Trace.{annotate, trace_id_of}
use epoll_gateway.Handler.Reading.{
  Gateway, Connection, Pass, judge, route_name_of, refuse, read_pass,
}

annotate-carries :
    (key fresh parent : Bytes) (r : HttpRequest) → carries key r (annotate fresh parent r) ≡ true
unfolding annotate
annotate-carries key fresh parent r =
    let trace_id = if is_empty r.trace_id then trace_id_of fresh r.headers else r.trace_id in
    ground (
      arith,
      lookup-insert (ascii "traceparent") key parent r.headers,
      lookup-insert (ascii "x-trace-id") key trace_id r.headers,
      lookup-insert (ascii "x-trace-id") key trace_id
          (insert (ascii "traceparent") parent r.headers),
    )

judge-carries :
    (gateway : Gateway) (key client_ip : Bytes) (now : ℕ) (r : HttpRequest)
    → carries key r (judge gateway r client_ip now).0 ≡ true
unfolding judge
judge-carries gateway key client_ip now r =
    elim (Option-cases (resolve_route gateway.routes r).route) [
      | inl absent ↦ rw (absent, judge) (ground arith)
      | inr (route, h) ↦
          rw (h, judge)
            (ground
              (arith, lookup-insert (ascii "x-route-name") key (route_name_of route) r.headers))
    ]

abbrev pub is_judged : Pass → Bool
is_judged (Pass.judged verdict) = true
is_judged _ = false

-- A connection keeps the request that it has served, and parses the next one into it: whatever
-- bytes come, each header that the connection's last request had, such as its X-API-Key or its
-- Content-Length, is a header of the next request that gets a verdict on that connection.
pub read_pass-carries :
    (gateway : Gateway) (conn : Connection) (fresh parent key : Bytes) (now : ℕ)
    → has key conn.request ≡ true
    → let (conn', manager, pass) = read_pass gateway conn fresh parent now in
      is_judged pass ≡ true → has key conn'.request ≡ true
unfolding read_pass refuse
read_pass-carries gateway conn fresh parent key now h j =
    let a = parse conn.parser conn.request conn.read_buf in
    ground (
      arith,
      parse-carries key conn.parser conn.request conn.read_buf,
      annotate-carries key fresh parent a.request,
      judge-carries gateway key conn.client_ip now (annotate fresh parent a.request),
    )
