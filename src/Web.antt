-- ===== src/Web.antt =====
-- pkg/web: the embedded telemetry server.
pub mod Sessions
pub mod RateLimit
pub mod Request
pub mod Snapshot
pub mod Provider
pub mod Route
pub mod Preview
pub mod Logs
pub mod Detail
pub mod Setup
pub mod Stream
pub mod Gate
pub mod Login
pub mod Broadcaster
mod Tests
