-- ===== src/Resp.antt =====
-- The package internal/resp: replies, the writer that serialises them and the reader of requests.
pub mod Reply
pub mod Writer
pub mod Fields
pub mod Reader
pub mod Lines
pub mod Writes
pub mod RoundTrip
pub mod Chunks
mod Tests
