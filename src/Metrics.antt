-- ===== src/Metrics.antt =====
-- server/metrics.cpp: the counters of requests, durations and upstream errors.
pub mod Counters
pub mod Histogram
pub mod Tags
