-- ===== src/Http/Chars.antt =====
-- The anonymous namespace of common/http_parser.cpp. A `char` is a byte; those from 128 on, which
-- are negative as a signed `char`, lie in none of the ranges.
use epoll_gateway.Base.{ℕ, Bool, true, not, ◌&&◌, ◌||◌, ◌==◌, ltb, leb, within, if◌then◌else◌}

unfoldable pub is_tchar : ℕ → Bool
is_tchar c =
    within b'0' b'9' c
    || within b'a' b'z' c
    || within b'A' b'Z' c
    || c == b'!'
    || c == b'#'
    || c == b'$'
    || c == b'%'
    || c == b'&'
    || c == 39
    || c == b'*'
    || c == b'+'
    || c == b'-'
    || c == b'.'
    || c == b'^'
    || c == b'_'
    || c == b'`'
    || c == b'|'
    || c == b'~'

unfoldable pub is_valid_field_value_char : ℕ → Bool
is_valid_field_value_char c = if c == b'\t' then true else leb 0x20 c && not (c == 0x7F)

unfoldable pub is_valid_request_line_char : ℕ → Bool
is_valid_request_line_char c = ltb 0x20 c && not (c == 0x7F)
