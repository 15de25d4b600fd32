-- ===== src/Client/Framing.antt =====
-- `try_frame` and `finish_ok`: where a response ends, and what it holds.
use epoll_gateway.Base.{
  ℕ, suc, ◌+◌, ◌-◌, ◌*◌, ◌%◌, ◌^◌, Bool, true, false, not, ◌&&◌, ◌||◌, List, [], ◌∷◌, Option, none,
  some, ◌==◌, ltb, leb, within, is_empty, length, take, drop, all, if◌then◌else◌,
}
use epoll_gateway.Base.Bytes.{Bytes, ascii, eq_bytes, strip_prefix, split_at, find_sub}
use epoll_gateway.Base.Decimal.{is_digit, decimal_from}
use epoll_gateway.Base.Int.{ℤ, pos, negsuc}
use epoll_gateway.Base.Table.{Table, insert_in_order, is_some}
use epoll_gateway.Http.Message.{crlf}
use epoll_gateway.Http.Parser.State.{size_mod}
use epoll_gateway.Client.Headers.{
  BackendError, find_header_value, lines_of, after_status_line, trim,
}
use epoll_gateway.Client.Chunks.{ChunkScan, scan_chunked_body}
use epoll_gateway.Client.State.{Exchange, Phase, make_error_response}

-- `FrameResult`; `runs_on` and `throws` are those of the scan of the chunks.
pub data FrameResult : Type 0 where
  incomplete complete error runs_on throws : FrameResult

abbrev pub blank_line : Bytes
blank_line = b'\r' ∷ b'\n' ∷ b'\r' ∷ b'\n' ∷ []

abbrev pub max_header_size : ℕ
max_header_size = 256 * 1024

unfoldable pub keeps_alive : Bytes → Bool
keeps_alive headers_part =
    let conn = find_header_value headers_part (ascii "connection") in
    let status_line : Bytes = elim (find_sub crlf headers_part) [
      | none ↦ headers_part
      | some (line, rest) ↦ line
    ] in
    if is_some (strip_prefix (ascii "HTTP/1.1") status_line)
    then not (eq_bytes conn (ascii "close"))
    else eq_bytes conn (ascii "keep-alive")

-- A chunked body. `decoded_body_` is read after `Complete` only: what a scan that stops early
-- leaves there, and the next one clears, is not kept.
unfoldable pub frame_scan : Exchange → ChunkScan → Exchange × FrameResult
frame_scan x ChunkScan.incomplete = (record x { decoded_body = [] }, FrameResult.incomplete)
frame_scan x ChunkScan.error = (record x { decoded_body = [] }, FrameResult.error)
frame_scan x ChunkScan.throws = (record x { decoded_body = [] }, FrameResult.throws)
frame_scan x ChunkScan.runs_on = (record x { decoded_body = [] }, FrameResult.runs_on)
frame_scan x (ChunkScan.complete end decoded) =
    (record x { decoded_body = decoded; body_end = some end }, FrameResult.complete)

-- A body of a given length: `stoull` throws where the number has more than 64 bits.
unfoldable pub frame_length : ℕ → Exchange → ℕ → ℕ → Exchange × FrameResult
frame_length max_response_bytes x header_end content_length =
    let end = (header_end + 4 + content_length) % size_mod in
    if leb size_mod content_length
    then (x, FrameResult.error)
    else if ltb max_response_bytes content_length
    then (x, FrameResult.error)
    else if leb end (length x.response_bytes)
    then (record x { body_end = some end }, FrameResult.complete)
    else (x, FrameResult.incomplete)

-- No usable framing header.
unfoldable pub frame_to_close : Exchange → Exchange × FrameResult
frame_to_close x =
    if not x.response_keepalive
    then if x.peer_closed
      then (record x { body_end = some (length x.response_bytes) }, FrameResult.complete)
      else (x, FrameResult.incomplete)
    else (x, FrameResult.error)

-- Behind the header block.
unfoldable pub frame_body : ℕ → ℕ → Exchange → Bytes → Exchange × FrameResult
unfolding frame_scan frame_length frame_to_close keeps_alive
frame_body fuel max_response_bytes x headers_part =
    let te = find_header_value headers_part (ascii "transfer-encoding") in
    let cl = find_header_value headers_part (ascii "content-length") in
    let header_end = length headers_part in
    let kept = record x { response_keepalive = keeps_alive headers_part } in
    if is_some (find_sub (ascii "chunked") te)
    then frame_scan (record kept { response_is_chunked = true })
        (scan_chunked_body fuel x.response_bytes (header_end + 4))
    else if not (is_empty te)
    then (kept, FrameResult.error)
    else if not (is_empty cl) && all is_digit cl
    then frame_length max_response_bytes kept header_end (decimal_from 0 cl)
    else frame_to_close kept

unfoldable pub try_frame : ℕ → ℕ → Exchange → Exchange × FrameResult
try_frame fuel max_response_bytes x = elim (find_sub blank_line x.response_bytes) [
  | none ↦
      if ltb max_header_size (length x.response_bytes)
      then (x, FrameResult.error)
      else (x, FrameResult.incomplete)
  | some (headers_part, rest) ↦ frame_body fuel max_response_bytes x headers_part
]

-- `std::stoi`: blanks, a sign, digits, and whatever follows them. It throws without digits, and out
-- of range.
abbrev pub is_space : ℕ → Bool
is_space c = c == 32 || within 9 13 c

unfoldable pub skip_spaces : Bytes → Bytes
skip_spaces [] = []
skip_spaces (c ∷ cs) = if is_space c then skip_spaces cs else c ∷ cs

unfoldable pub leading_digits : Bytes → Bytes
leading_digits [] = []
leading_digits (c ∷ cs) = let rest = leading_digits cs in if is_digit c then c ∷ rest else []

unfoldable pub stoi_signed : Bool → Bytes → Option ℤ
stoi_signed minus s =
    let digits = leading_digits s in
    let n = decimal_from 0 digits in
    if is_empty digits
    then none
    else if minus
    then if ltb (2 ^ 31) n then none else some (if n == 0 then pos 0 else negsuc (n - 1))
    else if leb (2 ^ 31) n
    then none
    else some (pos n)

unfoldable pub stoi_sign : Bytes → Option ℤ
stoi_sign [] = none
stoi_sign (c ∷ cs) =
    if c == b'-'
    then stoi_signed true cs
    else if c == b'+'
    then stoi_signed false cs
    else stoi_signed false (c ∷ cs)

unfoldable pub stoi : Bytes → Option ℤ
stoi s = stoi_sign (skip_spaces s)

-- What stands between the first two spaces, as a number.
unfoldable pub status_code_of : Bytes → Option ℤ
status_code_of response = elim (split_at 32 response) [
  | none ↦ none
  | some (version, rest) ↦ elim (split_at 32 rest) [ none ↦ none | some (code, reason) ↦ stoi code ]
]

-- The loop over the header lines.
unfoldable pub store_line : Table Bytes → Bytes → Table Bytes
store_line headers line = elim (split_at b':' line) [
  | none ↦ headers
  | some (key, value) ↦ insert_in_order key (trim value) headers
]

unfoldable pub store_lines : Table Bytes → List Bytes → Table Bytes
store_lines headers [] = headers
store_lines headers (line ∷ rest) = store_lines (store_line headers line) rest

unfoldable pub response_headers : Bytes → Table Bytes
response_headers headers_part =
    store_lines [] (lines_of (suc (length headers_part)) (after_status_line headers_part))

-- `substr(header_end + 4, body_end_ - (header_end + 4))`.
unfoldable pub response_body : Exchange → ℕ → Bytes
response_body x header_end = if x.response_is_chunked then x.decoded_body else elim x.body_end [
  | none ↦ drop (header_end + 4) x.response_bytes
  | some end ↦
      take ((end + size_mod - (header_end + 4)) % size_mod) (drop (header_end + 4) x.response_bytes)
]

-- The blank line stands there, since the response was framed.
unfoldable pub finish_ok : Exchange → Exchange
unfolding make_error_response
finish_ok x = elim (status_code_of x.response_bytes) [
  | none ↦ record x {
    phase = Phase.done;
    result = make_error_response (pos 502) BackendError.invalid_response (ascii "Bad Gateway");
  }
  | some code ↦ elim (find_sub blank_line x.response_bytes) [
    | none ↦ x
    | some (headers_part, rest) ↦ record x {
      result = record {
        status_code = code;
        headers = response_headers headers_part;
        body = response_body x (length headers_part);
        error = BackendError.no_error;
      };
      decoded_body = if x.response_is_chunked then [] else x.decoded_body;
      succeeded = true;
      phase = Phase.done;
    }
  ]
]
