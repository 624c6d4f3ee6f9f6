-- ===== src/Proxy.antt =====
-- The parts of internal/proxy that decide what is intercepted, copied, framed and kept.
pub mod Capture
pub mod Chunked
pub mod Headers
pub mod Mitm
mod Tests
