-- ===== src/Handler.antt =====
-- server/http_handler.cpp: what a worker does with a request between the parser and the socket.
pub mod Headers
pub mod Identity
pub mod Trace
pub mod Reading
pub mod Gates
pub mod Carried
pub mod Responses
pub mod Chunking
pub mod Writing
pub mod Draining
pub mod Finishing
pub mod Composite
pub mod Outcomes
pub mod Children
pub mod Joining
pub mod Files
pub mod Polling
