-- ===== src/Http/Parser/RoundTrip/Sent.antt =====
-- What a client writes on the wire, when the parser is meant to read it, and how it answers.
use epoll_gateway.Base.{
  ◌==◌, not, ◌&&◌, ℕ, ◌+◌, ◌≤◌, Bool, true, [], ◌∷◌, ◌++◌, ◌≡◌, ◌⊎◌, length, all,
}
use epoll_gateway.Base.Bytes.{Bytes}
use epoll_gateway.Base.Table.{Table, insert}
use epoll_gateway.Http.Chars.{is_valid_request_line_char}
use epoll_gateway.Http.Message.{HttpRequest, empty_request, render_headers}
use epoll_gateway.Http.Parser.State.{
  ParseError, max_headers_size, max_body_size, max_request_line_size,
}
use epoll_gateway.Http.Parser.Headers.{framing_error}
use epoll_gateway.Http.Parser.Loop.{ParseResult}
use epoll_gateway.Http.Parser.Framing.{body_kind, bodiless, sized}
use epoll_gateway.Http.Parser.Headers.{trim_front, trim_back}
use epoll_gateway.Http.Parser.Framing.{header_ok}
use epoll_gateway.Http.Parser.State.{max_header_line_size}

-- The bytes of a method and of a path: they do not start the query.
unfoldable pub is_path_char : ℕ → Bool
is_path_char c = is_valid_request_line_char c && not (c == b'?')

-- A header in the form that the client writes: valid, with no blanks at the value's ends, and short.
pub record LineOk (key value : Bytes) : Type 0 where
  pub valid : header_ok key value ≡ true
  pub trimmed : trim_back (trim_front value) ≡ value
  pub short : length key + 2 + length value ≤ max_header_line_size

-- The header table that a list of lines makes, a later line replacing an earlier one.
abbrev pub store_all : Table Bytes → Table Bytes → Table Bytes
store_all acc [] = acc
store_all acc ((key, value) ∷ rest) = store_all (insert key value acc) rest

-- Each line is in order, and no framing header comes twice or beside the other.
abbrev pub Storable : Table Bytes → Table Bytes → Type 0
Storable acc [] = Unit {0}
Storable acc ((key, value) ∷ rest) =
    LineOk key value
    × (framing_error acc key ≡ ParseError.no_error)
    × Storable (insert key value acc) rest

-- What a client sends.
pub record Message : Type 0 where
  pub method : Bytes
  pub path : Bytes
  pub query : Bytes
  pub version : Bytes
  pub headers : Table Bytes
  pub body : Bytes

abbrev pub IsPart : (ℕ → Bool) → Bytes → Type 0
IsPart accepts s = (all accepts s ≡ true) × (length s ≤ max_request_line_size)

abbrev pub IsBody : Table Bytes → Bytes → Type 0
IsBody headers body =
    ((body_kind headers ≡ bodiless) × (body ≡ []))
    ⊎ ((body_kind headers ≡ sized (length body)) × (length body ≤ max_body_size))

-- Parts of the request line without delimiters, header lines in order and within the limits, and a
-- body as long as the headers say.
pub record IsSendable (m : Message) : Type 0 where
  pub method : IsPart is_path_char m.method
  pub path : IsPart is_path_char m.path
  pub query : IsPart is_path_char m.query
  pub version : IsPart is_valid_request_line_char m.version
  pub lines : Storable [] m.headers
  pub small : length (render_headers m.headers) + 2 ≤ max_headers_size
  pub body : IsBody (store_all [] m.headers) m.body

abbrev pub render_query : Bytes → Bytes → Bytes
render_query [] rest = rest
render_query (c ∷ cs) rest = b'?' ∷ (c ∷ cs ++ rest)

-- The message on the wire, with what follows it.
abbrev pub render_onto : Message → Bytes → Bytes
render_onto m rest =
    m.method
    ++ (b' '
        ∷ (m.path
            ++ render_query m.query (
                b' '
                ∷ (m.version
                    ++ (b'\r'
                        ∷ b'\n'
                        ∷ (render_headers m.headers ++ (b'\r' ∷ b'\n' ∷ (m.body ++ rest))))))))

-- The request that the message stands for.
abbrev pub request_of : Message → HttpRequest
request_of m = record empty_request {
  method = m.method;
  path = m.path;
  query = m.query;
  version = m.version;
  headers = store_all [] m.headers;
  body = m.body;
}

-- A complete request, with the count of bytes read and any final parser.
pub record Completes (a : ParseResult) (r : HttpRequest) (n : ℕ) : Type 0 where
  pub complete : a.complete ≡ true
  pub request : a.request ≡ r
  pub consumed : a.consumed ≡ n
