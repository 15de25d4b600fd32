-- ===== src/Pool.antt =====
-- server/connection_pool: idle keep-alive connections, and the identity under which they are kept.
pub mod Defs
pub mod Laws
pub mod Identity
