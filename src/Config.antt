-- ===== src/Config.antt =====
-- include/server/config.h.
pub mod Types
pub mod Validate
