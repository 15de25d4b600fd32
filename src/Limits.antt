-- ===== src/Limits.antt =====
-- server/rate_limiter, include/server/rate_limiter_manager.h and include/server/connection_budget.h.
pub mod Bucket
pub mod Rates
pub mod Clients
pub mod Budget
