-- ===== src/Tests/Logging.antt =====
-- Redaction (include/server/logging_utils.h) on a concrete target.
use epoll_gateway.Base.{[], ◌∷◌, ◌++◌, ◌≡◌, refl}
use epoll_gateway.Base.Bytes.{ascii, eq_bytes, to_lower_bytes, to_lower}
use epoll_gateway.Config.Types.{default_config}
use epoll_gateway.Logging.Redact.{
  contains_name, decode_query_name, decode_from, hex_value, redact_part, redact_request_target,
  redacted,
}
use epoll_gateway.Logging.Secrets.{join_parts, redact_request_target-sensitive}

-- `/login?page=2&T%6Fken=abc`: the last name is `token`.
redact_request_target-sensitive_example :
    redact_request_target
      (ascii "/login"
        ++ (b'?' ∷ join_parts (ascii "page=2" ∷ (ascii "T%6Fken" ++ (b'=' ∷ ascii "abc")) ∷ [])))
      default_config.logging
    ≡ ascii "/login"
      ++ (b'?'
          ∷ join_parts (
              redact_part default_config.logging (ascii "page=2")
              ∷ (ascii "T%6Fken" ++ (b'=' ∷ redacted))
              ∷ []))
unfolding contains_name decode_query_name decode_from hex_value eq_bytes to_lower_bytes to_lower
redact_request_target-sensitive_example =
    redact_request_target-sensitive default_config.logging (ascii "/login") (ascii "T%6Fken")
      (ascii "abc") (ascii "page=2" ∷ []) [] refl refl refl refl refl
