-- ===== src/Http/Message.antt =====
-- include/common/http_parser.h: `HttpRequest` and `HttpResponse`.
use epoll_gateway.Base.{[], ◌∷◌, ◌++◌}
use epoll_gateway.Base.Bytes.{Bytes}
use epoll_gateway.Base.Table.{Table}

pub record HttpRequest : Type 0 where
  pub method : Bytes
  pub path : Bytes
  pub version : Bytes
  pub query : Bytes
  pub trace_id : Bytes
  pub host : Bytes
  pub tenant : Bytes
  pub headers : Table Bytes
  pub body : Bytes

-- `HttpRequest()`, and what `clear` leaves.
abbrev pub empty_request : HttpRequest
empty_request = record {
  method = [];
  path = [];
  version = [];
  query = [];
  trace_id = [];
  host = [];
  tenant = [];
  headers = [];
  body = [];
}

abbrev pub crlf : Bytes
crlf = b'\r' ∷ b'\n' ∷ []

-- The loop over the headers that `to_string` writes: `key: value` and CRLF for each.
unfoldable pub render_headers : Table Bytes → Bytes
render_headers [] = []
render_headers ((key, value) ∷ rest) =
    key ++ (b':' ∷ b' ' ∷ (value ++ (b'\r' ∷ b'\n' ∷ render_headers rest)))
