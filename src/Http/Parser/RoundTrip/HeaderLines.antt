-- ===== src/Http/Parser/RoundTrip/HeaderLines.antt =====
-- The parser over header lines, with any `rest` behind them.
use mathlib.Core.List.{append-nil, append_assoc}
use epoll_gateway.Base.{
  ℕ, suc, ◌+◌, ◌≤◌, Bool, true, false, not, ◌&&◌, [], ◌∷◌, ◌++◌, ◌≡◌, refl, ap, ◌∙◌, sym, some,
  arith, length, length-append, all, all-append, is_empty, ◌==◌, if◌then◌else◌,
}
use epoll_gateway.Base.Bytes.{Bytes, split_at, to_lower_bytes, eq_bytes_iff}
use epoll_gateway.Base.Table.{insert}
use epoll_gateway.Http.Chars.{is_tchar, is_valid_field_value_char}
use epoll_gateway.Http.Message.{HttpRequest}
use epoll_gateway.Http.Parser.State.{
  State, ParseError, HttpParser, falls, max_header_line_size, max_headers_size,
}
use epoll_gateway.Http.Parser.Headers.{
  framing_error, finish_headers, header_line, store_header, trim_front, trim_back,
}
use epoll_gateway.Http.Parser.Loop.{step_in, step, parse_from}
use epoll_gateway.Http.Parser.Errors.{parse_from-falls}
use epoll_gateway.Http.Parser.Framing.{header_ok}
use epoll_gateway.Http.Parser.RoundTrip.Sent.{LineOk}

is_line_char : ℕ → Bool
is_line_char c = not (c == b'\r') && not (c == b'\n')

all_mono :
    (p q : ℕ → Bool) (h : (c : ℕ) → p c ≡ true → q c ≡ true) (xs : Bytes)
    → all p xs ≡ true
    → all q xs ≡ true
all_mono p q h [] e = refl
all_mono p q h (c ∷ cs) e = ground (arith, h c, all_mono p q h cs)

tchar_line : (c : ℕ) → is_tchar c ≡ true → is_line_char c ≡ true
unfolding is_tchar is_line_char
tchar_line c h = ground arith

field_line : (c : ℕ) → is_valid_field_value_char c ≡ true → is_line_char c ≡ true
unfolding is_valid_field_value_char is_line_char
field_line c h = ground arith

tchar_colon : (c : ℕ) → is_tchar c ≡ true → (c == b':') ≡ false
unfolding is_tchar
tchar_colon c h = ground arith

split_at-append :
    (key value : Bytes)
    → all is_tchar key ≡ true
    → split_at b':' (key ++ (b':' ∷ value)) ≡ some (key, value)
unfolding split_at
split_at-append [] value h = refl
split_at-append (c ∷ cs) value h = ground (arith, tchar_colon c, split_at-append cs value)

abbrev pub line_of : Bytes → Bytes → Bytes
line_of key value = key ++ (b':' ∷ b' ' ∷ value)

line-is_line_char :
    (key value : Bytes) → LineOk key value → all is_line_char (line_of key value) ≡ true
unfolding is_line_char
line-is_line_char key value h =
    all-append is_line_char key (b':' ∷ b' ' ∷ value)
      (all_mono is_tchar is_line_char tchar_line key (unfold header_ok in ground arith))
      (ground (
        arith,
        all_mono is_valid_field_value_char is_line_char field_line value
            (unfold header_ok in ground arith),
      ))

-- Between two header lines.
pub record InHeader (p : HttpParser) : Type 0 where
  pub at : p.state ≡ State.header
  pub no_cr : p.cr_seen ≡ false

step-line_char :
    (p : HttpParser) (r : HttpRequest) (c : ℕ)
    → InHeader p
    → is_line_char c ≡ true
    → length (p.buffer ++ c ∷ []) ≤ max_header_line_size
    → p.headers_read + 1 ≤ max_headers_size
    → step p r c
      ≡ falls (record p { buffer = p.buffer ++ c ∷ []; headers_read = p.headers_read + 1 }) r
unfolding step_in is_line_char
step-line_char p r c s h l n = ground arith

parse_from-line :
    (xs rest : Bytes) (i j n : ℕ) (p : HttpParser) (r : HttpRequest) (b : Bytes)
    → InHeader p
    → all is_line_char xs ≡ true
    → b ≡ p.buffer ++ xs
    → length b ≤ max_header_line_size
    → n ≡ p.headers_read + length xs
    → n ≤ max_headers_size
    → j ≡ i + length xs
    → parse_from i p r (xs ++ rest)
      ≡ parse_from j (record p { buffer = b; headers_read = n }) r rest
parse_from-line [] rest i j n p r b s h e l m f k =
    let same : i ≡ j = omega arith in
    let count : p.headers_read ≡ n = omega arith in
    let kept : p.buffer ≡ b = sym (e ∙ append-nil p.buffer) in cc (same, kept, count)
parse_from-line (c ∷ cs) rest i j n p r b s h e l m f k =
    let whole = e ∙ sym (append_assoc p.buffer (c ∷ []) cs) in
    let fits : length (p.buffer ++ c ∷ []) ≤ max_header_line_size =
      omega (arith, ap length whole, length-append (p.buffer ++ c ∷ []) cs) in
    let p' = record p { buffer = p.buffer ++ c ∷ []; headers_read = p.headers_read + 1 } in
    parse_from-falls i p r c (cs ++ rest) p' r
      (step-line_char p r c s (ground arith) fits (omega arith)) (ground arith)
    ∙ parse_from-line cs rest (suc i) j n p' r b (record { at = s.at; no_cr = s.no_cr })
        (ground arith) whole l (omega arith) f (omega arith)

store_header-LineOk :
    (p : HttpParser) (r : HttpRequest) (key value : Bytes)
    → LineOk key value
    → framing_error r.headers key ≡ ParseError.no_error
    → store_header p r key value
      ≡ falls (record p { buffer = [] }) (record r { headers = insert key value r.headers })
unfolding store_header header_ok
store_header-LineOk p r key value h f = ground arith

header_line-LineOk :
    (p : HttpParser) (r : HttpRequest) (key value : Bytes)
    → LineOk key value
    → framing_error r.headers key ≡ ParseError.no_error
    → p.buffer ≡ line_of key value
    → header_line p r
      ≡ falls (record p { buffer = [] }) (record r { headers = insert key value r.headers })
unfolding header_line
header_line-LineOk p r key value h f e =
    let token : all is_tchar key ≡ true = unfold header_ok in ground arith in
    let low : to_lower_bytes key ≡ key =
      (eq_bytes_iff (to_lower_bytes key) key).0 (unfold header_ok in ground arith) in
    let blank : trim_front (b' ' ∷ value) ≡ trim_front value = unfold trim_front in refl in
    let value' : trim_back (trim_front (b' ' ∷ value)) ≡ value = ap trim_back blank ∙ h.trimmed in
    let split = ap (split_at b':') e ∙ split_at-append key (b' ' ∷ value) token in
    rw (split, header_line) (rw (low, value') (store_header-LineOk p r key value h f))

pub step-header_cr :
    (p : HttpParser) (r : HttpRequest)
    → p.state ≡ State.header
    → p.headers_read + 1 ≤ max_headers_size
    → step p r b'\r' ≡ falls (record p { headers_read = p.headers_read + 1; cr_seen = true }) r
unfolding step_in
step-header_cr p r s n = ground arith

-- The line feed behind a carriage return.
abbrev pub ended : HttpParser → HttpParser
ended p = record p { headers_read = p.headers_read + 1; cr_seen = false }

pub step-header_lf :
    (p : HttpParser) (r : HttpRequest)
    → p.state ≡ State.header
    → p.headers_read + 1 ≤ max_headers_size
    → p.cr_seen ≡ true
    → step p r b'\n'
      ≡ (if is_empty p.buffer then finish_headers (ended p) r else header_line (ended p) r)
unfolding step_in
step-header_lf p r s n c = ground arith

line-ne-nil : (key value : Bytes) → is_empty (key ++ (b':' ∷ value)) ≡ false
line-ne-nil [] value = refl
line-ne-nil (c ∷ cs) value = refl

-- One header line with its CRLF.
pub parse_from-header :
    (key value rest : Bytes) (i j n : ℕ) (p : HttpParser) (r : HttpRequest)
    → InHeader p
    → p.buffer ≡ []
    → LineOk key value
    → framing_error r.headers key ≡ ParseError.no_error
    → n ≡ p.headers_read + length (line_of key value) + 2
    → n ≤ max_headers_size
    → j ≡ i + length (line_of key value) + 2
    → parse_from i p r (line_of key value ++ (b'\r' ∷ b'\n' ∷ rest))
      ≡ parse_from j
          (record p { headers_read = n })
          (record r { headers = insert key value r.headers })
          rest
parse_from-header key value rest i j n p r s z h f m le k =
    let line = line_of key value in
    let count = p.headers_read + length line in
    let p1 = record p { buffer = line; headers_read = count } in
    let p2 = record p1 { headers_read = count + 1; cr_seen = true } in
    let p3 = record p { headers_read = n; buffer = []; cr_seen = false } in
    let r3 = record r { headers = insert key value r.headers } in
    let fits : length line ≤ max_header_line_size =
      omega (arith, length-append key (b':' ∷ b' ' ∷ value), h.short) in
    let tally : count + 1 + 1 ≡ n = omega arith in
    let filled : is_empty line ≡ false = line-ne-nil key (b' ' ∷ value) in
    parse_from-line line (b'\r' ∷ b'\n' ∷ rest) i (i + length line) count p r line s
      (line-is_line_char key value h) (rw z refl) fits refl (omega arith) refl
    ∙ parse_from-falls (i + length line) p1 r b'\r' (b'\n' ∷ rest) p2 r
        (step-header_cr p1 r s.at (omega arith)) (ground arith)
    ∙ parse_from-falls (suc (i + length line)) p2 r b'\n' rest p3 r3
        (step-header_lf p2 r s.at (omega arith) refl
          ∙ rw filled (header_line-LineOk (ended p2) r key value h f refl ∙ cc tally))
        (ground arith)
    ∙ (let ends : suc (suc (i + length line)) ≡ j = omega arith in cc (ends, z, s.no_cr))
