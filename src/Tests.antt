-- ===== src/Tests.antt =====
-- Runs of the models, and the theorems at concrete inputs.
mod Http
mod Client
mod Handler
mod Threads
mod Upstream
mod Pool
mod Limits
mod Routing
mod Auth
mod Cache
mod Config
mod Logging
