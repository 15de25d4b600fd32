-- ===== src/Http.antt =====
-- common/http_parser: the messages, the character classes and the incremental parser.
pub mod Message
pub mod Chars
pub mod Parser
