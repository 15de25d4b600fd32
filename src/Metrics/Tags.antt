-- ===== src/Metrics/Tags.antt =====
-- The keys of `route_metrics_`.
use epoll_gateway.Base.{ℕ, true, ◌≡◌, some, arith, ◌≢◌}
use epoll_gateway.Base.Bytes.{Bytes, eq_bytes_iff}
use epoll_gateway.Base.Decimal.{free_of, join-injective}
use epoll_gateway.Base.Table.{Table, lookup, lookup-insert, lookup-insert_self, get_or}
use epoll_gateway.Metrics.Counters.{
  RouteMetricSample, no_sample, record_sample, tag_of, record_route_request,
}

-- Two tags are equal only for the same route, host and tenant, if the routes and the hosts are free
-- of the separator.
pub tag_of-injective :
    (r q h k t u : Bytes)
    → free_of b'|' r ≡ true
    → free_of b'|' q ≡ true
    → free_of b'|' h ≡ true
    → free_of b'|' k ≡ true
    → tag_of r h t ≡ tag_of q k u
    → (r ≡ q) × ((h ≡ k) × (t ≡ u))
unfolding tag_of
tag_of-injective r q h k t u fr fq fh fk e =
    let outer = join-injective b'|' r q _ _ fr fq e in
    (outer.0, join-injective b'|' h k t u fh fk outer.1)

-- Recording a request adds it to the sample of its route, host and tenant, and leaves the samples
-- under other tags.
pub record_route_request_lem :
    (r h t tag : Bytes) (s d : ℕ) (m : Table RouteMetricSample)
    → (lookup (tag_of r h t) (record_route_request r h t s d m)
        ≡ some (record_sample s d (get_or no_sample (lookup (tag_of r h t) m))))
      × (tag ≢ tag_of r h t → lookup tag (record_route_request r h t s d m) ≡ lookup tag m)
unfolding record_route_request
record_route_request_lem r h t tag s d m = (
  lookup-insert_self (tag_of r h t) _ m,
  λ other. ground (
    arith,
    lookup-insert (tag_of r h t) tag
        (record_sample s d (get_or no_sample (lookup (tag_of r h t) m))) m,
    eq_bytes_iff (tag_of r h t) tag,
    other,
  ),
)
