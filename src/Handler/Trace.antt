-- ===== src/Handler/Trace.antt =====
-- Trace identifiers, and the reason that the audit log gives for a status.
use epoll_gateway.Base.{
  ℕ, zero, suc, ◌-◌, Bool, not, ◌&&◌, ◌||◌, [], ◌∷◌, Option, none, some, ◌==◌, ltb, leb, within,
  is_empty, length, take, all, if◌then◌else◌,
}
use epoll_gateway.Base.Bytes.{Bytes, ascii, split_at}
use epoll_gateway.Base.Table.{Table, lookup, insert, get_or, is_some}
use epoll_gateway.Client.Headers.{BackendError}
use epoll_gateway.Http.Message.{HttpRequest}

-- `std::isxdigit`.
abbrev pub is_hex : ℕ → Bool
is_hex c = within b'0' b'9' c || within b'a' b'f' c || within b'A' b'F' c

unfoldable pub is_hex_string : Bytes → Bool
is_hex_string value = not (is_empty value) && all is_hex value

abbrev pub keep_hex : Bytes → Bytes
keep_hex [] = []
keep_hex (c ∷ cs) = if is_hex c then c ∷ keep_hex cs else keep_hex cs

-- The loop that pads with zeros.
abbrev pub zeros : ℕ → Bytes → Bytes
zeros zero s = s
zeros (suc n) s = b'0' ∷ zeros n s

-- `fresh` is what `generate_trace_id` would return.
unfoldable pub normalize_trace_id_for_traceparent : Bytes → Bytes → Bytes
normalize_trace_id_for_traceparent fresh trace_id =
    let kept = take 32 (keep_hex (if is_empty trace_id then fresh else trace_id)) in
    zeros (32 - length kept) kept

-- Between the first two dashes.
unfoldable pub trace_field : Bytes → Bytes
trace_field traceparent = elim (split_at b'-' traceparent) [
  | none ↦ []
  | some (version, rest) ↦ elim (split_at b'-' rest) [
    | none ↦ []
    | some (trace_id, parent) ↦
        if (length trace_id == 32) && is_hex_string trace_id then trace_id else []
  ]
]

unfoldable pub parse_trace_id_from_traceparent : Bytes → Bytes
parse_trace_id_from_traceparent traceparent =
    if ltb (length traceparent) 35 then [] else trace_field traceparent

-- The trace id of a request that has none yet; `fresh` is what `generate_trace_id` returns.
unfoldable pub trace_id_of : Bytes → Table Bytes → Bytes
trace_id_of fresh headers = elim (lookup (ascii "x-trace-id") headers) [
  | some trace_id ↦ trace_id
  | none ↦ elim (lookup (ascii "traceparent") headers) [
    | none ↦ fresh
    | some traceparent ↦
        let trace_id = parse_trace_id_from_traceparent traceparent in
        if is_empty trace_id then fresh else trace_id
  ]
]

-- The start of `handle_read`'s work on a complete request; `parent` is what `generate_traceparent`
-- returns.
unfoldable pub annotate : Bytes → Bytes → HttpRequest → HttpRequest
annotate fresh parent req =
    let trace_id = if is_empty req.trace_id then trace_id_of fresh req.headers else req.trace_id in
    let traced =
      if is_some (lookup (ascii "traceparent") req.headers)
      then req.headers
      else insert (ascii "traceparent") parent req.headers in
    record req {
      host = get_or req.host (lookup (ascii "host") req.headers);
      tenant = get_or req.tenant (lookup (ascii "x-tenant-id") req.headers);
      trace_id = trace_id;
      headers = insert (ascii "x-trace-id") trace_id traced;
    }

abbrev pub error_name : BackendError → Bytes
error_name BackendError.connect_failed = ascii "connect_failed"
error_name BackendError.connect_timeout = ascii "connect_timeout"
error_name BackendError.write_failed = ascii "write_failed"
error_name BackendError.write_timeout = ascii "write_timeout"
error_name BackendError.read_failed = ascii "read_failed"
error_name BackendError.read_timeout = ascii "read_timeout"
error_name BackendError.invalid_response = ascii "invalid_upstream_response"
error_name BackendError.no_error = ascii "unknown_error"

unfoldable pub classify_failure_reason : ℕ → Option BackendError → Bytes
classify_failure_reason status_code error =
    if leb 200 status_code && ltb status_code 400
    then ascii "none"
    else if status_code == 401
    then ascii "auth_failed"
    else if status_code == 403
    then ascii "forbidden"
    else if status_code == 404
    then ascii "route_not_found"
    else if status_code == 405
    then ascii "method_not_allowed"
    else if status_code == 413
    then ascii "payload_too_large"
    else if status_code == 429
    then ascii "rate_limited"
    else if status_code == 503
    then ascii "upstream_circuit_open"
    else if status_code == 502
    then ascii "upstream_unavailable"
    else if status_code == 504
    then ascii "upstream_timeout"
    else if status_code == 500
    then ascii "internal_error"
    else elim error [ none ↦ ascii "unknown_error" | some e ↦ error_name e ]
