-- ===== src/Http/Parser/RoundTrip.antt =====
-- `parse` reads back what a well-formed client writes.
mod Line
mod HeaderLines
mod Body
pub mod Sent
pub mod Whole
