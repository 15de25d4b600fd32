-- ===== src/Auth.antt =====
-- include/server/api_key_manager.h: which API keys are known, and what they may do.
pub mod Compare
pub mod Manager
pub mod Keys
