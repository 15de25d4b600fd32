-- ===== src/Http/Parser/Headers.antt =====
-- The rounds of `parse` in the state HEADER: header lines, and the choice of the body at their end.
use epoll_gateway.Base.{
  ℕ, ◌+◌, ◌-◌, ◌*◌, ◌%◌, true, false, not, ◌&&◌, ◌||◌, Option, none, some, [], ◌∷◌, ◌++◌, ◌==◌, ltb,
  within, if◌then◌else◌, length, is_empty, all,
}
use epoll_gateway.Base.Bytes.{Bytes, ascii, eq_bytes, to_lower_bytes, split_at}
use epoll_gateway.Base.Table.{Table, lookup, insert, is_some}
use epoll_gateway.Http.Chars.{is_tchar, is_valid_field_value_char}
use epoll_gateway.Http.Message.{HttpRequest}
use epoll_gateway.Http.Parser.State.{
  State, ChunkState, ParseError, HttpParser, Outcome, returns, falls, fail, size_mod, max_body_size,
  max_header_line_size, max_headers_size, content_length_name, transfer_encoding_name,
}

-- The loop over the digits of a Content-Length value; `none` stands for `digits_ok = false`.
unfoldable pub parse_digits : Bytes → ℕ → Option ℕ
parse_digits [] value = some value
parse_digits (ch ∷ cs) value =
    if not (within b'0' b'9' ch)
    then none
    else if ltb max_body_size value
    then some (max_body_size + 1)
    else parse_digits cs ((value * 10 + (ch - b'0')) % size_mod)

unfoldable pub parse_content_length : Bytes → Option ℕ
unfolding parse_digits
parse_content_length [] = none
parse_content_length (ch ∷ cs) = parse_digits (ch ∷ cs) 0

-- The end of the headers, where there is a Content-Length.
unfoldable pub start_body : HttpParser → HttpRequest → Bytes → Outcome
start_body p r cl = elim (parse_content_length cl) [
  | none ↦ fail ParseError.invalid_content_length p r
  | some value ↦
      let sized = record p { content_length = value } in
      if ltb max_body_size value
      then fail ParseError.body_too_large sized r
      else if ltb 0 value
      then falls (record sized { body_read = 0; state = State.body }) r
      else returns true (record sized { state = State.done }) r
]

-- The end of the headers: the body that follows.
unfoldable pub finish_headers : HttpParser → HttpRequest → Outcome
unfolding start_body
finish_headers p r = elim (lookup transfer_encoding_name r.headers) [
  | some encoding ↦
      if not (eq_bytes (to_lower_bytes encoding) (ascii "chunked"))
      then fail ParseError.invalid_transfer_encoding p r
      else falls
          (record p {
            chunk_size_hex_buffer = [];
            chunk_data_remaining = 0;
            chunk_state = ChunkState.size;
            state = State.chunked_body;
          })
          r
  | none ↦ elim (lookup content_length_name r.headers) [
    | some cl ↦ start_body p r cl
    | none ↦ returns true (record p { state = State.done }) r
  ]
]

-- `value.erase(0, value.find_first_not_of(" \t"))`.
unfoldable pub trim_front : Bytes → Bytes
trim_front [] = []
trim_front (c ∷ cs) = if c == b' ' || c == b'\t' then trim_front cs else c ∷ cs

-- `value.erase(value.find_last_not_of(" \t") + 1)`.
unfoldable pub trim_back : Bytes → Bytes
trim_back [] = []
trim_back (c ∷ cs) =
    let rest = trim_back cs in if is_empty rest && (c == b' ' || c == b'\t') then [] else c ∷ rest

-- The framing headers that may not come twice or together.
unfoldable pub framing_error : Table Bytes → Bytes → ParseError
framing_error headers key =
    if eq_bytes key content_length_name
    then if is_some (lookup content_length_name headers)
      then ParseError.duplicate_content_length
      else if is_some (lookup transfer_encoding_name headers)
      then ParseError.cl_te_conflict
      else ParseError.no_error
    else if eq_bytes key transfer_encoding_name
    then if is_some (lookup content_length_name headers)
      then ParseError.cl_te_conflict
      else if is_some (lookup transfer_encoding_name headers)
      then ParseError.invalid_transfer_encoding
      else ParseError.no_error
    else ParseError.no_error

-- The checks on a header's name and value, and the entry that is made.
unfoldable pub store_header : HttpParser → HttpRequest → Bytes → Bytes → Outcome
unfolding framing_error
store_header p r key value =
    if is_empty key
    then fail ParseError.invalid_header p r
    else if not (all is_tchar key)
    then fail ParseError.invalid_header p r
    else if not (all is_valid_field_value_char value)
    then fail ParseError.invalid_header p r
    else elim (framing_error r.headers key) [
      | ParseError.no_error ↦
          falls (record p { buffer = [] }) (record r { headers = insert key value r.headers })
      | e ↦ fail e p r
    ]

-- A complete header line.
unfoldable pub header_line : HttpParser → HttpRequest → Outcome
header_line p r = elim (split_at b':' p.buffer) [
  | none ↦ fail ParseError.invalid_header p r
  | some (key, value) ↦ store_header p r (to_lower_bytes key) (trim_back (trim_front value))
]

-- `case State::HEADER`, behind the count.
unfoldable pub header_byte : HttpParser → HttpRequest → ℕ → Outcome
header_byte p r c =
    let grown = record p { cr_seen = false; buffer = p.buffer ++ c ∷ [] } in
    let ended = record p { cr_seen = false } in
    if c == b'\r'
    then falls (record p { cr_seen = true }) r
    else if c == b'\n'
    then if not p.cr_seen
      then fail ParseError.invalid_header p r
      else if is_empty p.buffer
      then finish_headers ended r
      else header_line ended r
    else if ltb max_header_line_size (length grown.buffer)
    then fail ParseError.header_too_long grown r
    else falls grown r

unfoldable pub step_header : HttpParser → HttpRequest → ℕ → Outcome
step_header p r c =
    let counted = record p { headers_read = (p.headers_read + 1) % size_mod } in
    if ltb max_headers_size counted.headers_read
    then fail ParseError.headers_too_large counted r
    else header_byte counted r c
