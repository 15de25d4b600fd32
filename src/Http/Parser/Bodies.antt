-- ===== src/Http/Parser/Bodies.antt =====
-- The rounds of `parse` in the states CHUNKED_BODY and BODY.
use epoll_gateway.Base.{
  ℕ, ◌+◌, ◌-◌, ◌*◌, ◌%◌, true, not, Option, none, some, [], ◌∷◌, ◌++◌, ◌==◌, ltb, leb, within,
  if◌then◌else◌, length, is_empty,
}
use epoll_gateway.Base.Bytes.{Bytes, split_at}
use epoll_gateway.Http.Message.{HttpRequest}
use epoll_gateway.Http.Parser.State.{
  State, ChunkState, ParseError, HttpParser, Outcome, returns, falls, fail, size_mod, max_body_size,
  max_header_line_size,
}

-- The value of a hex digit; `none` stands for `hex_ok = false`.
unfoldable pub hex_digit : ℕ → Option ℕ
hex_digit ch =
    if within b'0' b'9' ch
    then some (ch - b'0')
    else if within b'a' b'f' ch
    then some (ch - b'a' + 10)
    else if within b'A' b'F' ch
    then some (ch - b'A' + 10)
    else none

-- The loop over the hex digits of a chunk's size.
unfoldable pub parse_hex : Bytes → ℕ → Option ℕ
unfolding hex_digit
parse_hex [] value = some value
parse_hex (ch ∷ cs) value = elim (hex_digit ch) [
  | none ↦ none
  | some d ↦
      let value' = (value * 16 + d) % size_mod in
      if ltb max_body_size value' then some value' else parse_hex cs value'
]

-- What stands before a chunk extension.
unfoldable pub cut_extension : Bytes → Bytes
cut_extension hex = elim (split_at b';' hex) [ none ↦ hex | some (digits, ext) ↦ digits ]

unfoldable pub parse_chunk_size : Bytes → Option ℕ
unfolding parse_hex cut_extension
parse_chunk_size line =
    let hex = cut_extension line in if is_empty hex then none else parse_hex hex 0

unfoldable pub chunk_line : HttpParser → HttpRequest → Outcome
chunk_line p r = elim (parse_chunk_size p.chunk_size_hex_buffer) [
  | none ↦ fail ParseError.invalid_chunk_size p r
  | some n ↦
      let read = record p { chunk_size_hex_buffer = [] } in
      if n == 0
      then falls (record read { chunk_state = ChunkState.trailer; buffer = [] }) r
      else falls (record read { chunk_data_remaining = n; chunk_state = ChunkState.in_data }) r
]

unfoldable pub step_chunk_size : HttpParser → HttpRequest → ℕ → Outcome
step_chunk_size p r c =
    let grown = record p { chunk_size_hex_buffer = p.chunk_size_hex_buffer ++ c ∷ [] } in
    if c == b'\r'
    then falls p r
    else if c == b'\n'
    then if not (is_empty p.chunk_size_hex_buffer) then chunk_line p r else falls p r
    else if ltb 16 (length grown.chunk_size_hex_buffer)
    then fail ParseError.invalid_chunk_size grown r
    else falls grown r

unfoldable pub step_chunk_data : HttpParser → HttpRequest → ℕ → Outcome
step_chunk_data p r c =
    let taken = record p {
      chunk_data_remaining = (p.chunk_data_remaining + size_mod - 1) % size_mod;
    } in
    let r' = record r { body = r.body ++ c ∷ [] } in
    if ltb max_body_size (length r'.body)
    then fail ParseError.body_too_large taken r'
    else if taken.chunk_data_remaining == 0
    then falls (record taken { chunk_state = ChunkState.size }) r'
    else falls taken r'

unfoldable pub step_trailer : HttpParser → HttpRequest → ℕ → Outcome
step_trailer p r c =
    let grown = record p { buffer = p.buffer ++ c ∷ [] } in
    if c == b'\r'
    then falls p r
    else if c == b'\n'
    then if is_empty p.buffer
      then returns true (record p { state = State.done }) r
      else falls (record p { buffer = [] }) r
    else if ltb max_header_line_size (length grown.buffer)
    then fail ParseError.header_too_long grown r
    else falls grown r

-- `case State::CHUNKED_BODY`.
unfoldable pub step_chunk : ChunkState → HttpParser → HttpRequest → ℕ → Outcome
unfolding step_chunk_size chunk_line step_chunk_data step_trailer
step_chunk ChunkState.size p r c = step_chunk_size p r c
step_chunk ChunkState.in_data p r c = step_chunk_data p r c
step_chunk ChunkState.trailer p r c = step_trailer p r c
step_chunk ChunkState.done p r c = falls p r

unfoldable pub step_body : HttpParser → HttpRequest → ℕ → Outcome
step_body p r c =
    let read = record p { body_read = (p.body_read + 1) % size_mod } in
    let r' = record r { body = r.body ++ c ∷ [] } in
    if leb max_body_size p.body_read
    then fail ParseError.body_too_large p r
    else if leb p.content_length read.body_read
    then returns true (record read { state = State.done }) r'
    else falls read r'
