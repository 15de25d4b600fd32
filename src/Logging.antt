-- ===== src/Logging.antt =====
-- include/server/logging_utils.h: what the access log shows of headers and query parameters.
pub mod Redact
pub mod Secrets
