-- ===== src/Http/Parser.antt =====
-- `HttpParser` of include/common/http_parser.h and common/http_parser.cpp: the definitions, then
-- what they satisfy.
pub mod State
pub mod RequestLine
pub mod Headers
pub mod Bodies
pub mod Loop
pub mod Errors
pub mod Segments
pub mod Carried
pub mod Framing
pub mod Invariant
pub mod Requests
pub mod Digits
pub mod RoundTrip
