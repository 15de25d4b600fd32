-- ===== src/Threads.antt =====
-- The dynamic thread pool.
pub mod Workers
pub mod System
pub mod Stopping
