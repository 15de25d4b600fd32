-- ===== src/Metrics/Counters.antt =====
-- `record_request`, `record_route_request` and `record_upstream_error`. Durations are
-- whole nanoseconds, as the clock gives them, and their sum is exact where the source has a
-- `double`. The members of a sample for one route that count as those of `Metrics` do stand in the
-- same record, `Counts`.
use epoll_gateway.Base.{
  ℕ, zero, suc, ◌+◌, ◌%◌, Bool, true, false, ◌&&◌, ◌||◌, List, [], ◌∷◌, ◌++◌, ltb, leb, ◌==◌,
  length, if◌then◌else◌,
}
use epoll_gateway.Base.Bytes.{Bytes}
use epoll_gateway.Base.Table.{Table, lookup, insert, get_or}
use epoll_gateway.Client.Headers.{BackendError}

abbrev pub count_mod : ℕ
count_mod = 18446744073709551616

unfoldable pub fetch_add_one : ℕ → ℕ
fetch_add_one n = (n + 1) % count_mod

abbrev pub bucket_boundaries : List ℕ
bucket_boundaries =
    5000000 ∷ 10000000 ∷ 25000000 ∷ 50000000 ∷ 100000000 ∷ 250000000 ∷ 500000000 ∷ 1000000000
    ∷ 2500000000 ∷ 5000000000 ∷ 10000000000 ∷ []

pub record Counts : Type 0 where
  pub requests_2xx : ℕ
  pub requests_3xx : ℕ
  pub requests_4xx : ℕ
  pub requests_5xx : ℕ
  pub duration_sum : ℕ
  pub duration_count : ℕ
  pub duration_buckets : List ℕ

abbrev pub no_counts : Counts
no_counts = record {
  requests_2xx = 0;
  requests_3xx = 0;
  requests_4xx = 0;
  requests_5xx = 0;
  duration_sum = 0;
  duration_count = 0;
  duration_buckets = 0 ∷ 0 ∷ 0 ∷ 0 ∷ 0 ∷ 0 ∷ 0 ∷ 0 ∷ 0 ∷ 0 ∷ 0 ∷ 0 ∷ [];
}

abbrev pub has_class : ℕ → ℕ → ℕ → Bool
has_class low high status_code = leb low status_code && ltb status_code high

-- The chain of tests on the status code.
unfoldable pub record_class : ℕ → Counts → Counts
unfolding fetch_add_one
record_class status_code c =
    if has_class 200 300 status_code
    then record c { requests_2xx = fetch_add_one c.requests_2xx }
    else if has_class 300 400 status_code
    then record c { requests_3xx = fetch_add_one c.requests_3xx }
    else if has_class 400 500 status_code
    then record c { requests_4xx = fetch_add_one c.requests_4xx }
    else if leb 500 status_code
    then record c { requests_5xx = fetch_add_one c.requests_5xx }
    else c

-- The loop over the boundaries, with the bucket of all requests behind the last.
unfoldable pub record_buckets : List ℕ → ℕ → List ℕ → List ℕ
unfolding fetch_add_one
record_buckets bounds d [] = []
record_buckets [] d (n ∷ ns) = fetch_add_one n ∷ ns
record_buckets (bound ∷ bounds) d (n ∷ ns) =
    (if leb d bound then fetch_add_one n else n) ∷ record_buckets bounds d ns

unfoldable pub record_request : ℕ → ℕ → Counts → Counts
unfolding fetch_add_one record_class record_buckets
record_request status_code duration c =
    let classed = record_class status_code c in
    record classed {
      duration_sum = classed.duration_sum + duration;
      duration_count = fetch_add_one classed.duration_count;
      duration_buckets = record_buckets bucket_boundaries duration classed.duration_buckets;
    }

pub record RouteMetricSample : Type 0 where
  pub counts : Counts
  pub total_requests : ℕ
  pub timeout_errors : ℕ
  pub auth_failures : ℕ
  pub rate_limit_hits : ℕ

abbrev pub no_sample : RouteMetricSample
no_sample = record {
  counts = no_counts;
  total_requests = 0;
  timeout_errors = 0;
  auth_failures = 0;
  rate_limit_hits = 0;
}

abbrev pub add_if : Bool → ℕ → ℕ
add_if true n = fetch_add_one n
add_if false n = n

unfoldable pub record_sample : ℕ → ℕ → RouteMetricSample → RouteMetricSample
unfolding record_request fetch_add_one
record_sample status_code duration sample = record {
  counts = record_request status_code duration sample.counts;
  total_requests = fetch_add_one sample.total_requests;
  timeout_errors =
      add_if (status_code == 504 || (status_code == 503 || status_code == 502))
        sample.timeout_errors;
  auth_failures = add_if (status_code == 401) sample.auth_failures;
  rate_limit_hits = add_if (status_code == 429) sample.rate_limit_hits;
}

unfoldable pub tag_of : Bytes → Bytes → Bytes → Bytes
tag_of route_name host tenant = route_name ++ (b'|' ∷ (host ++ (b'|' ∷ tenant)))

unfoldable pub record_route_request :
    Bytes → Bytes → Bytes → ℕ → ℕ → Table RouteMetricSample → Table RouteMetricSample
unfolding tag_of record_sample
record_route_request route_name host tenant status_code duration route_metrics =
    let tag = tag_of route_name host tenant in
    insert tag (record_sample status_code duration (get_or no_sample (lookup tag route_metrics)))
      route_metrics

abbrev pub error_index : BackendError → ℕ
error_index BackendError.no_error = 0
error_index BackendError.connect_failed = 1
error_index BackendError.connect_timeout = 2
error_index BackendError.write_failed = 3
error_index BackendError.write_timeout = 4
error_index BackendError.read_failed = 5
error_index BackendError.read_timeout = 6
error_index BackendError.invalid_response = 7

unfoldable pub add_at : ℕ → List ℕ → List ℕ
unfolding fetch_add_one
add_at i [] = []
add_at zero (n ∷ ns) = fetch_add_one n ∷ ns
add_at (suc i) (n ∷ ns) = n ∷ add_at i ns

unfoldable pub record_upstream_error : BackendError → List ℕ → List ℕ
unfolding add_at
record_upstream_error BackendError.no_error counts = counts
record_upstream_error error counts =
    if ltb (error_index error) (length counts) then add_at (error_index error) counts else counts
