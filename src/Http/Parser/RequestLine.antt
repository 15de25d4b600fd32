-- ===== src/Http/Parser/RequestLine.antt =====
-- The rounds of `parse` (common/http_parser.cpp) in the states METHOD, PATH, QUERY and VERSION.
use epoll_gateway.Base.{ℕ, true, false, not, [], ◌∷◌, ◌++◌, ◌==◌, ltb, if◌then◌else◌, length}
use epoll_gateway.Http.Chars.{is_valid_request_line_char}
use epoll_gateway.Http.Message.{HttpRequest}
use epoll_gateway.Http.Parser.State.{
  State, ParseError, HttpParser, Outcome, falls, fail, max_request_line_size,
}

-- The last branch of the four request-line states.
unfoldable pub push_request_line : HttpParser → HttpRequest → ℕ → Outcome
push_request_line p r c =
    let grown = record p { buffer = p.buffer ++ c ∷ [] } in
    if not (is_valid_request_line_char c)
    then fail ParseError.invalid_header p r
    else if ltb max_request_line_size (length grown.buffer)
    then fail ParseError.request_line_too_long grown r
    else falls grown r

unfoldable pub step_method : HttpParser → HttpRequest → ℕ → Outcome
unfolding push_request_line
step_method p r c =
    if c == b' '
    then falls (record p { buffer = []; state = State.path }) (record r { method = p.buffer })
    else push_request_line p r c

unfoldable pub step_path : HttpParser → HttpRequest → ℕ → Outcome
unfolding push_request_line
step_path p r c =
    if c == b' '
    then falls (record p { buffer = []; state = State.version }) (record r { path = p.buffer })
    else if c == b'?'
    then falls (record p { buffer = []; state = State.query }) (record r { path = p.buffer })
    else push_request_line p r c

unfoldable pub step_query : HttpParser → HttpRequest → ℕ → Outcome
unfolding push_request_line
step_query p r c =
    if c == b' '
    then falls (record p { buffer = []; state = State.version }) (record r { query = p.buffer })
    else push_request_line p r c

unfoldable pub step_version : HttpParser → HttpRequest → ℕ → Outcome
step_version p r c =
    let grown = record p { cr_seen = false; buffer = p.buffer ++ c ∷ [] } in
    if c == b'\r'
    then falls (record p { cr_seen = true }) r
    else if c == b'\n'
    then if not p.cr_seen
      then fail ParseError.invalid_header p r
      else falls (record p { cr_seen = false; buffer = []; state = State.header })
          (record r { version = p.buffer })
    else if not (is_valid_request_line_char c)
    then fail ParseError.invalid_header p r
    else if ltb max_request_line_size (length grown.buffer)
    then fail ParseError.request_line_too_long grown r
    else falls grown r
