-- ===== src/Cache.antt =====
-- The caches of common/file_cache.cpp and common/fd_cache.cpp.
pub mod Files
pub mod Recency
pub mod Descriptors
pub mod Closing
pub mod Storing
