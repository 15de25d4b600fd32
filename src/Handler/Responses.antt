-- ===== src/Handler/Responses.antt =====
-- Building a response: error responses, the chunked form of a body, the header block, and the
-- chunks that `finalize_response` queues.
use epoll_gateway.Base.{
  ℕ, zero, suc, ◌+◌, ◌-◌, ◌/◌, ◌%◌, ◌*◌, Bool, false, not, ◌&&◌, List, [], ◌∷◌, ◌++◌, Option, none,
  some, ltb, leb, is_empty, length, if◌then◌else◌,
}
use epoll_gateway.Base.Bytes.{Bytes, ascii, eq_bytes}
use epoll_gateway.Base.Table.{Table, lookup, insert, erase, get_or, is_some}
use epoll_gateway.Base.Int.{pos, to_string}
use epoll_gateway.Http.Message.{HttpRequest, crlf, render_headers}

pub record HttpResponse : Type 0 where
  pub status_code : ℕ
  pub status_message : Bytes
  pub headers : Table Bytes
  pub body : Bytes
  pub chunked : Bool

unfoldable pub make_error_response : ℕ → Bytes → Bytes → HttpResponse
make_error_response code status message =
    let body = ascii "<h1>" ++ (to_string (pos code) ++ (b' ' ∷ (message ++ ascii "</h1>"))) in
    record {
      status_code = code;
      status_message = status;
      headers = insert (ascii "Connection") (ascii "close") (
          insert (ascii "Content-Length") (to_string (pos (length body)))
            (insert (ascii "Content-Type") (ascii "text/html") []));
      body = body;
      chunked = false;
    }

-- `std::hex`.
unfoldable pub hex_char : ℕ → ℕ
hex_char d = if ltb d 10 then b'0' + d else b'a' + (d - 10)

-- The digits from the back; the number itself is fuel enough.
unfoldable pub show_hex : ℕ → ℕ → Bytes → Bytes
unfolding hex_char
show_hex zero n acc = acc
show_hex (suc fuel) n acc =
    let acc' = hex_char (n % 16) ∷ acc in
    let rest = show_hex fuel (n / 16) acc' in if ltb n 16 then acc' else rest

unfoldable pub to_hex : ℕ → Bytes
unfolding show_hex
to_hex n = show_hex (suc n) n []

unfoldable pub chunked_body : Bytes → Bytes
chunked_body body =
    (if is_empty body then [] else to_hex (length body) ++ (crlf ++ (body ++ crlf)))
    ++ ascii "0\r\n\r\n"

unfoldable pub chunk_response : HttpResponse → HttpResponse
chunk_response resp =
    if resp.chunked
    then record resp {
      headers =
          insert (ascii "Transfer-Encoding") (ascii "chunked")
            (erase (ascii "Content-Length") resp.headers);
      body = chunked_body resp.body;
    }
    else resp

unfoldable pub headers_to_string : HttpResponse → Bytes
headers_to_string resp =
    ascii "HTTP/1.1 "
    ++ (to_string (pos resp.status_code)
        ++ (b' ' ∷ (resp.status_message ++ (crlf ++ (render_headers resp.headers ++ crlf)))))

-- The headers that every response carries; `fresh` and `parent` are what `generate_trace_id` and
-- `generate_traceparent` return, and `server` the product's name and version.
unfoldable pub add_common : Bytes → Bytes → Bytes → HttpRequest → Bool → HttpResponse → HttpResponse
add_common fresh parent server req keep_alive resp =
    let trace_id = if is_empty req.trace_id then fresh else req.trace_id in
    let traceparent = get_or parent (lookup (ascii "traceparent") req.headers) in
    let traced =
      if is_some (lookup (ascii "X-Trace-Id") resp.headers)
      then resp.headers
      else insert (ascii "X-Trace-Id") trace_id resp.headers in
    let parented =
      if is_some (lookup (ascii "Traceparent") traced)
      then traced
      else insert (ascii "Traceparent") traceparent traced in
    record resp {
      headers = insert (ascii "Server") server (
          insert (ascii "Connection") (ascii (if keep_alive then "keep-alive" else "close"))
            parented);
    }

-- gzip: `compress` is `should_compress` and `gzip_compress`, `none` where the body stays as it is.
unfoldable pub compress_response : (HttpResponse → Option Bytes) → HttpResponse → HttpResponse
compress_response compress resp = elim (compress resp) [
  | none ↦ resp
  | some compressed ↦ record resp {
    body = compressed;
    headers =
        insert (ascii "Content-Length") (to_string (pos (length compressed)))
          (insert (ascii "Content-Encoding") (ascii "gzip") resp.headers);
  }
]

abbrev pub max_coalesce_bytes : ℕ
max_coalesce_bytes = 64 * 1024

-- The chunks that go into the send queue.
unfoldable pub queue_chunks : Bool → Bool → HttpResponse → List Bytes
queue_chunks is_ssl is_head resp =
    let header = headers_to_string resp in
    let has_body = not is_head && not (is_empty resp.body) in
    if has_body && (is_ssl && leb (length resp.body) max_coalesce_bytes)
    then (header ++ resp.body) ∷ []
    else if has_body
    then header ∷ resp.body ∷ []
    else header ∷ []

-- `finalize_response`: what it appends to the send queue.
unfoldable pub finalize_response :
    (HttpResponse → Option Bytes)
    → Bytes
    → Bytes
    → Bytes
    → Bool
    → Bool
    → HttpRequest
    → Bool
    → HttpResponse
    → List Bytes
unfolding add_common
finalize_response compress fresh parent server is_ssl keep_alive req already_compressed resp =
    let is_head = eq_bytes req.method (ascii "HEAD") in
    let common = add_common fresh parent server req keep_alive resp in
    let packed =
      if not is_head && not already_compressed then compress_response compress common else common in
    queue_chunks is_ssl is_head (chunk_response packed)
