-- ===== src/Client.antt =====
-- server/http_client.cpp: the request on the upstream hop, the framing of the response, and the
-- exchange that the event loop drives.
pub mod Headers
pub mod Request
pub mod Chunks
pub mod Forwarding
pub mod Scanning
pub mod Chunked
pub mod Wire
pub mod Io
pub mod State
pub mod Framing
pub mod Run
mod Kept
pub mod Progress
pub mod Ends
pub mod Safe
mod SafeTurns
pub mod Replay
