-- ===== src/Routing.antt =====
-- include/server/route_utils.h: which requests a route takes.
pub mod Match
pub mod Segments
pub mod Resolve
pub mod Hosts
