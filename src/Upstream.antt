-- ===== src/Upstream.antt =====
-- server/upstream_manager: the circuit breaker, the choice of a server and the health checks.
pub mod Circuit
pub mod Breaker
pub mod Manager
pub mod Picking
pub mod Health
pub mod Probing
pub mod Accepted
