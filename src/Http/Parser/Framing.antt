-- ===== src/Http/Parser/Framing.antt =====
-- What a request that the parser fills satisfies, state by state.
use epoll_gateway.Base.{
  ℕ, ◌≤◌, ◌<◌, Bool, true, false, not, ◌&&◌, [], ◌∷◌, ◌≡◌, ◌⊎◌, refl, arith, length, is_empty, all,
  Option, none, some, if◌then◌else◌,
}
use epoll_gateway.Base.Bytes.{Bytes, ascii, eq_bytes, eq_bytes_iff, to_lower_bytes, to_lower_idem}
use epoll_gateway.Base.Table.{Table, lookup, insert, lookup-insert}
use epoll_gateway.Http.Chars.{is_tchar, is_valid_field_value_char}
use epoll_gateway.Http.Message.{HttpRequest}
use epoll_gateway.Http.Parser.State.{
  State, ChunkState, ParseError, HttpParser, Outcome, returns, falls, max_body_size, size_mod,
  content_length_name, transfer_encoding_name,
}
use epoll_gateway.Http.Parser.Headers.{parse_content_length, framing_error}

-- A stored header: a lower-case token, and a value of field characters.
unfoldable pub header_ok : Bytes → Bytes → Bool
header_ok key value =
    not (is_empty key)
    && all is_tchar key
    && eq_bytes (to_lower_bytes key) key
    && all is_valid_field_value_char value

unfoldable pub headers_ok : Table Bytes → Bool
unfolding header_ok
headers_ok [] = true
headers_ok ((key, value) ∷ rest) = header_ok key value && headers_ok rest

-- Content-Length and Transfer-Encoding never stand together.
abbrev pub Unmixed : Table Bytes → Type 0
Unmixed headers =
    (lookup content_length_name headers ≡ none) ⊎ (lookup transfer_encoding_name headers ≡ none)

pub headers_ok-insert :
    (key value : Bytes) (m : Table Bytes)
    → header_ok key value ≡ true
    → headers_ok m ≡ true
    → headers_ok (insert key value m) ≡ true
unfolding headers_ok insert
headers_ok-insert key value [] h ok = ground arith
headers_ok-insert key value ((j, w) ∷ m) h ok =
    ground (arith, eq_bytes_iff j key, headers_ok-insert key value m h)

pub to_lower_bytes_idem : (s : Bytes) → to_lower_bytes (to_lower_bytes s) ≡ to_lower_bytes s
unfolding to_lower_bytes
to_lower_bytes_idem [] = refl
to_lower_bytes_idem (c ∷ s) = cc (to_lower_idem c, to_lower_bytes_idem s)

pub insert-Unmixed :
    (key value : Bytes) (m : Table Bytes)
    → framing_error m key ≡ ParseError.no_error
    → Unmixed m
    → Unmixed (insert key value m)
unfolding framing_error
insert-Unmixed key value m e u = ground (
  arith,
  lookup-insert key content_length_name value m,
  lookup-insert key transfer_encoding_name value m,
  eq_bytes_iff key content_length_name,
  eq_bytes_iff key transfer_encoding_name,
)

-- The framing that the headers declare.
pub data BodyKind : Type 0 where
  bodiless chunks refused : BodyKind
  sized : ℕ → BodyKind

unfoldable pub sized_kind : Option ℕ → BodyKind
sized_kind none = refused
sized_kind (some n) = sized n

unfoldable pub body_kind : Table Bytes → BodyKind
unfolding sized_kind
body_kind headers = elim (lookup transfer_encoding_name headers) [
  | some encoding ↦ if eq_bytes (to_lower_bytes encoding) (ascii "chunked") then chunks else refused
  | none ↦ elim (lookup content_length_name headers) [
    | none ↦ bodiless
    | some cl ↦ sized_kind (parse_content_length cl)
  ]
]

-- The body of a complete request is what its headers declare: as long as the Content-Length, in
-- chunks, or absent.
abbrev pub Framed : HttpRequest → Type 0
Framed r =
    (body_kind r.headers ≡ sized (length r.body))
    ⊎ (body_kind r.headers ≡ chunks)
    ⊎ ((body_kind r.headers ≡ bodiless) × (r.body ≡ []))

abbrev pub Framing : State → HttpParser → HttpRequest → Type 0
Framing State.body p r =
    (body_kind r.headers ≡ sized p.content_length)
    × (p.body_read ≡ length r.body)
    × (p.body_read < p.content_length)
    × (p.content_length ≤ max_body_size)
Framing State.chunked_body p r =
    (body_kind r.headers ≡ chunks)
    × (length r.body ≤ max_body_size)
    × (p.chunk_data_remaining < size_mod)
    × ((p.chunk_state ≡ ChunkState.in_data → 0 < p.chunk_data_remaining))
Framing State.done p r = Framed r × (length r.body ≤ max_body_size)
Framing _ p r = r.body ≡ []

pub record Inv (p : HttpParser) (r : HttpRequest) : Type 0 where
  pub headers : headers_ok r.headers ≡ true
  pub unmixed : Unmixed r.headers
  pub framing : Framing p.state p r

abbrev pub OutcomeInv : Outcome → Type 0
OutcomeInv (returns true p r) = Inv p r
OutcomeInv (returns false p r) = (headers_ok r.headers ≡ true) × Unmixed r.headers
OutcomeInv (falls p r) = Inv p r
